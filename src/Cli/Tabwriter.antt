-- ===== src/Cli/Tabwriter.antt =====
-- `tabwriter.NewWriter(w, 0, 0, 2, ' ', 0)` and its `Flush` (internal/cli/format/table.go), for text without
-- the byte 255, which starts an escape.
use mcp_chain.Base.{
  none, Option, ℕ, zero, suc, ◌+◌, ◌-◌, Bytes, Bool, true, false, List, [], ◌∷◌, ◌++◌, ◌||◌, ◌==◌,
  ltb, length, if◌then◌else◌,
}
use mcp_chain.Cli.Output.{Piece, text, error_value, path_error}
use mcp_chain.Store.Errors.{GoError}
use mcp_chain.Json.Print.{spaces}
use mcp_chain.Json.Quote.{following}

-- A line: what is printed of it, the cells that are left, the last of which no tab ends, and whether a form
-- feed ends the line, so that no column goes on behind it.
pub record Row : Type 0 where
  pub printed : Bytes
  pub cells : List Bytes
  pub cut : Bool

abbrev pub blank : Bool → Row
blank cut = record { printed = []; cells = [] ∷ []; cut = cut }

abbrev pub open_cell : List Row → List Row
open_cell [] = []
open_cell (r ∷ rs) = record r { cells = [] ∷ r.cells } ∷ rs

abbrev pub into_cell : ℕ → List Bytes → List Bytes
into_cell c [] = []
into_cell c (x ∷ xs) = (c ∷ x) ∷ xs

abbrev pub into_row : ℕ → List Row → List Row
into_row c [] = []
into_row c (r ∷ rs) = record r { cells = into_cell c r.cells } ∷ rs

-- The byte `c` in front of the lines.
unfoldable pub split_byte : ℕ → List Row → List Row
split_byte c rs =
    if (c == 9) || (c == 11)
    then open_cell rs
    else if c == 10
    then blank false ∷ rs
    else if c == 12
    then blank true ∷ rs
    else into_row c rs

unfoldable pub split_rows : Bytes → List Row
unfolding split_byte
split_rows [] = blank false ∷ []
split_rows (c ∷ s) = split_byte c (split_rows s)

-- `utf8.RuneCount`; `k` bytes of a character are still to come.
unfoldable pub rune_count : ℕ → Bytes → ℕ
rune_count k [] = 0
rune_count (suc k) (b ∷ s) = rune_count k s
rune_count zero (b ∷ s) = suc (rune_count (following b s) s)

abbrev pub padding : ℕ
padding = 2

abbrev pub max : ℕ → ℕ → ℕ
max a b = if ltb a b then b else a

-- The width that the cells of a line ask for, with the one that the lines behind it ask for.
unfoldable pub widen : List Bytes → Bool → ℕ → ℕ
unfolding rune_count
widen [] cut rest = 0
widen (x ∷ []) cut rest = 0
widen (x ∷ y ∷ cs) cut rest = max (rune_count 0 x + padding) (if cut then 0 else rest)

-- The width of the column that begins at the first line.
unfoldable pub column_width : List Row → ℕ
unfolding widen
column_width [] = 0
column_width (r ∷ rs) = widen r.cells r.cut (column_width rs)

-- A cell in a column of the width `w`.
abbrev pub print_cell : ℕ → Row → List Bytes → Row
print_cell w r [] = r
print_cell w r (x ∷ []) = r
print_cell w r (x ∷ y ∷ cs) = record r {
  printed = r.printed ++ (x ++ spaces (w - rune_count 0 x) []);
  cells = y ∷ cs;
}

-- The width with which the column goes on behind a line.
abbrev pub going_on : ℕ → Bool → List Bytes → ℕ
going_on w cut [] = 0
going_on w cut (x ∷ []) = 0
going_on w cut (x ∷ y ∷ cs) = if cut then 0 else w

-- The blocks of one column; `w` is the width of the block that is open, or 0.
unfoldable pub print_column : ℕ → List Row → List Row
unfolding column_width spaces
print_column w [] = []
print_column w (r ∷ rs) =
    let now = if w == 0 then column_width (r ∷ rs) else w in
    print_cell now r r.cells ∷ print_column (going_on now r.cut r.cells) rs

unfoldable pub print_columns : ℕ → List Row → List Row
unfolding print_column
print_columns zero rs = rs
print_columns (suc n) rs = print_columns n (print_column 0 rs)

unfoldable pub most_cells : List Row → ℕ
most_cells [] = 0
most_cells (r ∷ rs) = max (length r.cells) (most_cells rs)

abbrev pub last_cell : List Bytes → Bytes
last_cell [] = []
last_cell (x ∷ xs) = x

-- The lines, with a line feed between any two.
unfoldable pub join_rows : List Row → Bytes
join_rows [] = []
join_rows (r ∷ []) = r.printed ++ last_cell r.cells
join_rows (r ∷ q ∷ rs) = r.printed ++ (last_cell r.cells ++ (10 ∷ join_rows (q ∷ rs)))

-- The text that `Flush` writes. Each round prints a column, and there are fewer columns than cells.
unfoldable pub align : Bytes → Bytes
unfolding split_rows print_columns most_cells join_rows
align s = let rows = split_rows s in join_rows (print_columns (most_cells rows) rows)

-- The text of a table, which has pieces of text alone.
unfoldable pub table_text : List Piece → Bytes
table_text [] = []
table_text (text s ∷ ps) = s ++ table_text ps
table_text (error_value e ∷ ps) = table_text ps
table_text (path_error e ∷ ps) = table_text ps

-- The tabwriter over a writer that takes everything.
unfoldable pub flush_all : List Piece → List Piece × Option GoError
unfolding align table_text
flush_all ps = (text (align (table_text ps)) ∷ [], none)
