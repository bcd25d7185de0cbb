-- ===== src/Clock/Fraction.antt =====
-- Lemmas on the numbers and the fraction in the text of a time (package time).
use native.Mathlib.Nat.{pow-suc, div-lt_iff_lt-mul, mod-lt, div-add-mod'}
use native.Mathlib.Decide.{dec_lt}
use mcp_chain.Base.{
  ℕ, zero, suc, ◌+◌, ◌-◌, ◌*◌, ◌/◌, ◌%◌, ◌^◌, ◌≤◌, ◌<◌, ◌≡◌, refl, ap, ◌∙◌, arith, true, false,
  Bytes, some, [], ◌∷◌, ◌++◌, get_or,
}
use mcp_chain.Clock.Format.{two, four, fraction_digits, append_nano, billion}
use mcp_chain.Clock.Parse.{ranged, fraction_value, digits_value, span_digits, parse_fraction}
use mcp_chain.Json.Scan.{is_digit}

pub ranged-two : (n lo hi : ℕ) → n < 100 → lo ≤ n → n ≤ hi → ranged (two n []) lo hi ≡ some n
unfolding ranged digits_value
ranged-two n lo hi h l u = ground arith

pub ranged-four : (n hi : ℕ) → n ≤ 9999 → n ≤ hi → ranged (four n []) 0 hi ≡ some n
unfolding ranged digits_value
ranged-four n hi h u = ground arith

pub pow_pos : (k : ℕ) → 0 < 10 ^ k
pow_pos zero = omega arith
pow_pos (suc k) = omega (arith, pow-suc 10 k, pow_pos k)

pub lead_digit : (w n : ℕ) → n < 10 ^ suc w → n / 10 ^ w < 10
lead_digit w n h = (div-lt_iff_lt-mul (pow_pos w)).1 (omega (arith, pow-suc 10 w))

pub fraction_next :
    (w n : ℕ)
    → 0 < n
    → fraction_digits (suc w) n ≡ (b'0' + n / 10 ^ w) ∷ fraction_digits w (n % 10 ^ w)
unfolding fraction_digits
fraction_next w n h = ground arith

digit : (d : ℕ) → d < 10 → is_digit (b'0' + d) ≡ true
digit d h = ground arith

after_zero : (d : ℕ) → b'0' + d - b'0' ≡ d
after_zero d = omega arith

pub no_fraction : (n : ℕ) → fraction_digits 0 n ≡ []
unfolding fraction_digits
no_fraction n = refl

pub fraction_end : (w : ℕ) → fraction_digits w 0 ≡ []
unfolding fraction_digits
fraction_end zero = refl
fraction_end (suc w) = refl

fraction_none : (w : ℕ) → fraction_value w [] ≡ 0
unfolding fraction_value
fraction_none zero = refl
fraction_none (suc w) = refl

fraction_value-fraction_digits : (w n : ℕ) → n < 10 ^ w → fraction_value w (fraction_digits w n) ≡ n
unfolding fraction_value
fraction_value-fraction_digits zero n h = omega arith
fraction_value-fraction_digits (suc w) n h = elim (dec_lt 0 n) [
  | yes pos ↦ rw (fraction_next w n pos) (
      ap (λ x. (b'0' + n / 10 ^ w - b'0') * 10 ^ w + x)
        (fraction_value-fraction_digits w (n % 10 ^ w) (mod-lt n (pow_pos w)))
      ∙ rw (after_zero (n / 10 ^ w)) (div-add-mod' n (10 ^ w)))
  | no zero_n ↦ let e : n ≡ 0 = omega arith in rw (e, fraction_end (suc w)) refl
]

-- Digits of a fraction, and whatever behind them that is no digit.
span_digits-fraction_digits :
    (w n : ℕ) (c : ℕ) (s : Bytes)
    → n < 10 ^ w
    → is_digit c ≡ false
    → span_digits (fraction_digits w n ++ (c ∷ s)) ≡ (fraction_digits w n, c ∷ s)
unfolding span_digits
span_digits-fraction_digits zero n c s h e = rw (no_fraction n, e) refl
span_digits-fraction_digits (suc w) n c s h e = elim (dec_lt 0 n) [
  | yes pos ↦
      let rest = span_digits-fraction_digits w (n % 10 ^ w) c s (mod-lt n (pow_pos w)) e in
      let lead = lead_digit w n h in
      rw (fraction_next w n pos, rest) (rw (digit (n / 10 ^ w) lead) refl)
  | no zero_n ↦ let z : n ≡ 0 = omega arith in rw (z, fraction_end (suc w), e) refl
]

pub append_nano_next : (n : ℕ) → 0 < n → append_nano n ≡ b'.' ∷ fraction_digits 9 n
unfolding append_nano
append_nano_next n h = ground arith

pub append_nano_end : append_nano 0 ≡ []
unfolding append_nano
append_nano_end = refl

fraction_front :
    (n : ℕ) (s : Bytes)
    → 0 < n
    → n < billion
    → is_digit (get_or (fraction_digits 9 n ++ s) 0 0) ≡ true
fraction_front n s pos h = rw (fraction_next 8 n pos) (digit (n / 10 ^ 8) (lead_digit 8 n h))

pub parse_fraction-append_nano :
    (n : ℕ) → n < billion → parse_fraction (append_nano n ++ (b'Z' ∷ [])) ≡ (n, b'Z' ∷ [])
unfolding parse_fraction
parse_fraction-append_nano n h = elim (dec_lt 0 n) [
  | yes pos ↦
      rw
        (
          append_nano_next n pos,
          fraction_front n (b'Z' ∷ []) pos h,
          span_digits-fraction_digits 9 n b'Z' [] h refl,
        )
        (ap (λ x. (x, b'Z' ∷ [])) (fraction_value-fraction_digits 9 n h))
  | no zero_n ↦
      let z : n ≡ 0 = omega arith in
      rw z (ap parse_fraction (ap (λ x. x ++ (b'Z' ∷ [])) append_nano_end))
]
