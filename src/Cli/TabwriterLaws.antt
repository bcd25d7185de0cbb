-- ===== src/Cli/TabwriterLaws.antt =====
-- Lemmas on tables with the same number of cells in each line (internal/cli/format/table.go).
use mcp_chain.Base.{
  ℕ, ◌+◌, ◌-◌, ◌<◌, ◌≡◌, refl, ap, ◌∙◌, arith, Bytes, Bool, true, false, List, [], ◌∷◌, ◌++◌, map,
  ◌||◌, ◌==◌, All, not,
}
use mcp_chain.Cli.Tabwriter.{
  Row, blank, open_cell, into_row, split_byte, split_rows, rune_count, padding, max, widen,
  column_width, print_column, print_columns, most_cells,
}
use mcp_chain.Json.Print.{spaces}

-- A byte that neither ends a cell nor a line.
abbrev pub is_inner : ℕ → Bool
is_inner c = not ((c == 9) || (c == 11) || (c == 10) || (c == 12))

abbrev pub IsCell : Bytes → Type 0
IsCell = All (λ c. is_inner c ≡ true)

abbrev with_cell : Bytes → List Row → List Row
with_cell x [] = []
with_cell x (r ∷ rs) = record r { cells = x ∷ r.cells } ∷ rs

into_row-with_cell :
    (c : ℕ) (x : Bytes) (rs : List Row) → into_row c (with_cell x rs) ≡ with_cell (c ∷ x) rs
into_row-with_cell c x [] = refl
into_row-with_cell c x (r ∷ rs) = refl

open_cell-with_cell : (rs : List Row) → open_cell rs ≡ with_cell [] rs
open_cell-with_cell [] = refl
open_cell-with_cell (r ∷ rs) = refl

inner_byte : (c : ℕ) (rs : List Row) → is_inner c ≡ true → split_byte c rs ≡ into_row c rs
unfolding split_byte
inner_byte c rs h = ground arith

split_cell : (x s : Bytes) → IsCell x → split_rows (x ++ (9 ∷ s)) ≡ with_cell x (split_rows s)
unfolding split_rows split_byte
split_cell [] s h = open_cell-with_cell (split_rows s)
split_cell (c ∷ x) s (hc, h) =
    inner_byte c (split_rows (x ++ (9 ∷ s))) hc
    ∙ ap (into_row c) (split_cell x s h)
    ∙ into_row-with_cell c x (split_rows s)

abbrev pub line : Bytes → List Bytes → Row
line p cells = record { printed = p; cells = cells; cut = false }

split_last : (x s : Bytes) → IsCell x → split_rows (x ++ (10 ∷ s)) ≡ line [] (x ∷ []) ∷ split_rows s
unfolding split_rows split_byte
split_last [] s h = refl
split_last (c ∷ x) s (hc, h) =
    inner_byte c (split_rows (x ++ (10 ∷ s))) hc ∙ ap (into_row c) (split_last x s h)

-- The width of a column.
unfoldable pub widest : {A : Type 0} → (A → Bytes) → List A → ℕ
widest x [] = 0
widest x (t ∷ ts) = max (rune_count 0 (x t) + padding) (widest x ts)

widest_pos : (a b : ℕ) → 0 < max (a + padding) b
widest_pos a b = ground arith

module _ {A : Type 0} (p x y : A → Bytes) (cs : A → List Bytes) where
  abbrev before : A → Row
  before t = line (p t) (x t ∷ y t ∷ cs t)

  abbrev behind : ℕ → A → Row
  behind w t = line (p t ++ (x t ++ spaces (w - rune_count 0 (x t)) [])) (y t ∷ cs t)

  column_width-widest :
      (ts : List A) → column_width (map before ts ++ (blank false ∷ [])) ≡ widest x ts
  unfolding column_width widest widen
  column_width-widest [] = refl
  column_width-widest (t ∷ ts) = ap (max (rune_count 0 (x t) + padding)) (column_width-widest ts)

  column_goes_on :
      (w : ℕ) (ts : List A)
      → 0 < w
      → print_column w (map before ts ++ (blank false ∷ []))
        ≡ map (behind w) ts ++ (blank false ∷ [])
  unfolding print_column
  column_goes_on w [] h = refl
  column_goes_on w (t ∷ ts) h =
      let off : (w == 0) ≡ false = ground arith in
      rw off (ap (λ rs. behind w t ∷ rs) (column_goes_on w ts h))

  print_column-behind :
      (ts : List A)
      → print_column 0 (map before ts ++ (blank false ∷ []))
        ≡ map (behind (widest x ts)) ts ++ (blank false ∷ [])
  unfolding print_column widest
  print_column-behind [] = refl
  print_column-behind (t ∷ ts) = rw (column_width-widest ts) (
      ap (λ rs. behind (widest x (t ∷ ts)) t ∷ rs)
        (column_goes_on (widest x (t ∷ ts)) ts
          (omega (arith, widest_pos (rune_count 0 (x t)) (widest x ts)))))

-- A line of the table.
pub record Line : Type 0 where
  pub first : Bytes
  pub second : Bytes
  pub third : Bytes
  pub fourth : Bytes
  pub fifth : Bytes

pub record IsLine (l : Line) : Type 0 where
  pub first : IsCell l.first
  pub second : IsCell l.second
  pub third : IsCell l.third
  pub fourth : IsCell l.fourth
  pub fifth : IsCell l.fifth

-- The text of the lines for the tabwriter.
unfoldable pub lines_text : List Line → Bytes
lines_text [] = []
lines_text (l ∷ ls) =
    l.first
    ++ (9
        ∷ (l.second
            ++ (9 ∷ (l.third ++ (9 ∷ (l.fourth ++ (9 ∷ (l.fifth ++ (10 ∷ lines_text ls)))))))))

abbrev start : Line → Row
start l = line [] (l.first ∷ l.second ∷ l.third ∷ l.fourth ∷ l.fifth ∷ [])

pub split_rows-lines_text :
    (ls : List Line)
    → All IsLine ls
    → split_rows (lines_text ls) ≡ map start ls ++ (blank false ∷ [])
unfolding lines_text
split_rows-lines_text [] h = unfold split_rows in refl
split_rows-lines_text (l ∷ ls) (h, hs) =
    let rest = lines_text ls in
    let s5 = l.fifth ++ (10 ∷ rest) in
    let s4 = l.fourth ++ (9 ∷ s5) in
    let s3 = l.third ++ (9 ∷ s4) in
    let s2 = l.second ++ (9 ∷ s3) in
    split_cell l.first s2 h.first
    ∙ ap (with_cell l.first) (split_cell l.second s3 h.second)
    ∙ ap (λ rs. with_cell l.first (with_cell l.second rs)) (split_cell l.third s4 h.third)
    ∙ ap (λ rs. with_cell l.first (with_cell l.second (with_cell l.third rs)))
        (split_cell l.fourth s5 h.fourth)
    ∙ ap (λ rs. with_cell l.first (with_cell l.second (with_cell l.third (with_cell l.fourth rs))))
        (split_last l.fifth rest h.fifth)
    ∙ ap (λ rs. start l ∷ rs) (split_rows-lines_text ls hs)

pub five_cells :
    (l : Line) (ls : List Line) → most_cells (map start (l ∷ ls) ++ (blank false ∷ [])) ≡ 5
unfolding most_cells
five_cells l [] = refl
five_cells l (k ∷ ls) = rw (five_cells k ls) refl

abbrev pub filled : ℕ → Bytes → Bytes
filled w x = x ++ spaces (w - rune_count 0 x) []

module _ (ls : List Line) where
  abbrev pub w1 : ℕ
  w1 = widest (λ l. l.first) ls

  abbrev pub w2 : ℕ
  w2 = widest (λ l. l.second) ls

  abbrev pub w3 : ℕ
  w3 = widest (λ l. l.third) ls

  abbrev pub w4 : ℕ
  w4 = widest (λ l. l.fourth) ls

  abbrev pub done : Line → Row
  done l =
      line
        (((([] ++ filled w1 l.first) ++ filled w2 l.second) ++ filled w3 l.third)
          ++ filled w4 l.fourth)
        (l.fifth ∷ [])

print_column-done :
    (f : Line → Bytes) (ls : List Line)
    → print_column 0 (map (λ l. line (f l) (l.fifth ∷ [])) ls ++ (blank false ∷ []))
      ≡ map (λ l. line (f l) (l.fifth ∷ [])) ls ++ (blank false ∷ [])
unfolding print_column
print_column-done f [] = refl
print_column-done f (l ∷ ls) = ap (λ rs. line (f l) (l.fifth ∷ []) ∷ rs) (print_column-done f ls)

pub five_columns :
    (ls : List Line)
    → print_columns 5 (map start ls ++ (blank false ∷ [])) ≡ map (done ls) ls ++ (blank false ∷ [])
unfolding print_columns
five_columns ls =
    let p1 : Line → Bytes = λ l. [] ++ filled (w1 ls) l.first in
    let p2 : Line → Bytes = λ l. p1 l ++ filled (w2 ls) l.second in
    let p3 : Line → Bytes = λ l. p2 l ++ filled (w3 ls) l.third in
    ap (print_columns 4) (
      print_column-behind (λ l. []) (λ l. l.first) (λ l. l.second)
        (λ l. l.third ∷ l.fourth ∷ l.fifth ∷ []) ls)
    ∙ ap (print_columns 3)
        (print_column-behind p1 (λ l. l.second) (λ l. l.third) (λ l. l.fourth ∷ l.fifth ∷ []) ls)
    ∙ ap (print_columns 2)
        (print_column-behind p2 (λ l. l.third) (λ l. l.fourth) (λ l. l.fifth ∷ []) ls)
    ∙ ap (print_columns 1) (print_column-behind p3 (λ l. l.fourth) (λ l. l.fifth) (λ l. []) ls)
    ∙ print_column-done (λ l. p3 l ++ filled (w4 ls) l.fourth) ls
