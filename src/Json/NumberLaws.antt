-- ===== src/Json/NumberLaws.antt =====
-- Lemmas on the scanner and a printed number (encoding/json).
use native.Mathlib.Nat.{pow-suc}
use mcp_chain.Base.{
  ℕ, zero, suc, ◌+◌, ◌*◌, ◌/◌, ◌%◌, ◌^◌, ◌<◌, ◌≤◌, ◌≡◌, refl, ap, ◌∙◌, arith, tests, Bytes, true,
  false, some, List, [], ◌∷◌, ◌++◌, All, Bool-cases, inl, inr, ◌⊎◌, ltb,
}
use mcp_chain.Json.Number.{decimal_loop, decimal, parse_digits, parse_uint}
use mcp_chain.Json.QuoteScan.{back_onto-back_onto}
use mcp_chain.Json.Scan.{
  Frame, number, begins, after, in_number, int_part, zero_part, is_digit, back_onto, scan_step,
  scan, next_part, begin_value,
}

-- Digits, the first not a zero.
record Leads (w : Bytes) : Type 0 where
  head : ℕ
  tail : Bytes
  whole : w ≡ head ∷ tail
  head_digit : (49 ≤ head) × (head ≤ 57)
  digits : All (λ c. is_digit c ≡ true) tail

loop_last :
    (f u : ℕ) (out : Bytes) → ltb u 10 ≡ true → decimal_loop (suc f) u out ≡ (b'0' + u) ∷ out
unfolding decimal_loop
loop_last f u out h = ground arith

loop_round :
    (f u : ℕ) (out : Bytes)
    → ltb u 10 ≡ false
    → decimal_loop (suc f) u out ≡ decimal_loop f (u / 10) ((b'0' + u % 10) ∷ out)
unfolding decimal_loop
loop_round f u out h = ground arith

pow_step : (f u : ℕ) → u < 10 ^ suc (suc f) → u / 10 < 10 ^ suc f
pow_step f u h = omega (arith, pow-suc 10 (suc f))

decimal_loop-Leads :
    (f u : ℕ) (out : Bytes)
    → 0 < u
    → u < 10 ^ suc f
    → All (λ c. is_digit c ≡ true) out
    → Leads (decimal_loop f u out)
unfolding decimal_loop
decimal_loop-Leads zero u out pos h ds =
    let small : u < 10 = omega arith in
    record {
      head = b'0' + u % 10;
      tail = out;
      whole = refl;
      head_digit = (omega arith, omega arith);
      digits = ds;
    }
decimal_loop-Leads (suc f) u out pos h ds = elim (Bool-cases (ltb u 10)) [
  | inl small ↦ record {
    head = b'0' + u;
    tail = out;
    whole = loop_last f u out small;
    head_digit = (omega arith, omega tests);
    digits = ds;
  }
  | inr large ↦ rw (loop_round f u out large) (
      decimal_loop-Leads f (u / 10) ((b'0' + u % 10) ∷ out) (omega tests) (pow_step f u h)
        (ground arith, ds))
]

parse_digits-cons :
    (n m d : ℕ) (out : Bytes)
    → d < 10
    → n * 10 + d ≡ m
    → m < 2 ^ 64
    → parse_digits ((b'0' + d) ∷ out) n ≡ parse_digits out m
unfolding parse_digits
parse_digits-cons n m d out h e fits = ground arith

parse_digits-decimal_loop :
    (f u : ℕ) (out : Bytes)
    → u < 10 ^ suc f
    → u < 2 ^ 64
    → parse_digits (decimal_loop f u out) 0 ≡ parse_digits out u
unfolding decimal_loop
parse_digits-decimal_loop zero u out h fits =
    parse_digits-cons 0 u (u % 10) out (omega arith) (omega arith) fits
parse_digits-decimal_loop (suc f) u out h fits = elim (Bool-cases (ltb u 10)) [
  | inl small ↦
      rw (loop_last f u out small) (parse_digits-cons 0 u u out (omega tests) (omega arith) fits)
  | inr large ↦ rw (loop_round f u out large) (
      parse_digits-decimal_loop f (u / 10) ((b'0' + u % 10) ∷ out) (pow_step f u h) (omega arith)
      ∙ parse_digits-cons (u / 10) u (u % 10) out (omega arith) (omega arith) fits)
]

parse_uint-cons : (c : ℕ) (s w : Bytes) → w ≡ c ∷ s → parse_uint w ≡ parse_digits w 0
unfolding parse_uint
parse_uint-cons c s w e = rw e refl

decimal-cases : (u : ℕ) → u < 2 ^ 64 → (decimal u ≡ b'0' ∷ []) ⊎ Leads (decimal u)
unfolding decimal
decimal-cases zero h = inl (loop_last 18 0 [] refl)
decimal-cases (suc u) h = inr (decimal_loop-Leads 19 (suc u) [] (omega arith) (omega arith) tt)

-- Every uint64 is read back from its print.
pub parse_uint-decimal : (u : ℕ) → u < 2 ^ 64 → parse_uint (decimal u) ≡ some u
unfolding decimal parse_digits
parse_uint-decimal u h = elim (decimal-cases u h) [
  | inl e ↦
      parse_uint-cons b'0' [] (decimal u) e ∙ parse_digits-decimal_loop 19 u [] (omega arith) h
  | inr w ↦
      parse_uint-cons w.head w.tail (decimal u) w.whole
      ∙ parse_digits-decimal_loop 19 u [] (omega arith) h
]

-- The bytes behind a value in an indented object.
abbrev pub Ends : ℕ → Type 0
Ends c = (c ≡ b',') ⊎ (c ≡ 10)

scan_digits :
    (ds acc rest : Bytes) (st : List Frame)
    → All (λ c. is_digit c ≡ true) ds
    → scan (in_number int_part acc st) (ds ++ rest)
      ≡ scan (in_number int_part (back_onto ds acc) st) rest
unfolding scan scan_step next_part
scan_digits [] acc rest st h = refl
scan_digits (d ∷ ds) acc rest st h =
    ap (λ s. scan s (ds ++ rest)) (one d acc h.0) ∙ scan_digits ds (d ∷ acc) rest st h.1
  where
    one :
        (d : ℕ) (acc : Bytes)
        → is_digit d ≡ true
        → scan_step (in_number int_part acc st) d ≡ in_number int_part (d ∷ acc) st
    one d acc h = rw h refl

Ends-number :
    (c : ℕ) (acc : Bytes) (st : List Frame)
    → Ends c
    → scan_step (in_number int_part acc st) c ≡ scan_step (after (number (back_onto acc [])) st) c
unfolding scan_step next_part
Ends-number c acc st (inl e) = rw e refl
Ends-number c acc st (inr e) = rw e refl

Ends-zero :
    (c : ℕ) (acc : Bytes) (st : List Frame)
    → Ends c
    → scan_step (in_number zero_part acc st) c ≡ scan_step (after (number (back_onto acc [])) st) c
unfolding scan_step next_part
Ends-zero c acc st (inl e) = rw e refl
Ends-zero c acc st (inr e) = rw e refl

begins_number :
    (d : ℕ) (st : List Frame)
    → (49 ≤ d) × (d ≤ 57)
    → scan_step (begins st) d ≡ in_number int_part (d ∷ []) st
unfolding scan_step begin_value
begins_number d st h = ground arith

-- The scanner reads a printed number.
pub scan-decimal :
    (u c : ℕ) (rest : Bytes) (st : List Frame)
    → u < 2 ^ 64
    → Ends c
    → scan (begins st) (decimal u ++ (c ∷ rest)) ≡ scan (after (number (decimal u)) st) (c ∷ rest)
unfolding scan scan_step
scan-decimal u c rest st h end = elim (decimal-cases u h) [
  | inl e ↦ rw e (ap (λ s. scan s rest) (Ends-zero c (b'0' ∷ []) st end))
  | inr w ↦ rw (w.whole) (
      ap (λ s. scan s (w.tail ++ (c ∷ rest))) (begins_number w.head st w.head_digit)
      ∙ scan_digits w.tail (w.head ∷ []) (c ∷ rest) st w.digits
      ∙ ap (λ s. scan s rest) (Ends-number c (back_onto w.tail (w.head ∷ [])) st end)
      ∙ ap (λ t. scan (after (number t) st) (c ∷ rest)) (back_onto-back_onto w.tail (w.head ∷ [])))
]
