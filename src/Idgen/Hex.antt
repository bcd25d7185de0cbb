-- ===== src/Idgen/Hex.antt =====
-- The `%04x` verb of `fmt`, as `Allocate` uses it: the hexadecimal digits of a uint64, padded with
-- zeros to four. Sixteen digits are enough for 64 bits, so fifteen rounds of fuel are.
use native.Mathlib.Nat.{pow-suc}
use mcp_chain.Base.{
  tests, ◌⊎◌, ℕ, zero, suc, ◌+◌, ◌-◌, ◌*◌, ◌/◌, ◌%◌, ◌^◌, ◌≤◌, ◌<◌, ◌≡◌, refl, ap, ◌∙◌, true, false,
  [], ◌∷◌, arith, ltb, leb, if◌then◌else◌, length, Bytes, All, inl, inr, Bool-cases,
}

-- A digit of "0123456789abcdef".
unfoldable pub hex_digit : ℕ → ℕ
hex_digit d = if ltb d 10 then b'0' + d else b'a' + (d - 10)

-- `for u >= 16 { buf[i] = digits[u&0xF]; u >>= 4 }` and the last digit.
unfoldable pub hex_loop : ℕ → ℕ → Bytes → Bytes
hex_loop zero u out = hex_digit (u % 16) ∷ out
hex_loop (suc f) u out = elim (ltb u 16) [
  | true ↦ hex_digit u ∷ out
  | false ↦ hex_loop f (u / 16) (hex_digit (u % 16) ∷ out)
]

-- Zeros in front, up to a width of `n` more bytes.
unfoldable pub pad_zeros : ℕ → Bytes → Bytes
pad_zeros zero s = s
pad_zeros (suc n) s = b'0' ∷ pad_zeros n s

-- `fmt.Sprintf("%04x", u)`.
unfoldable pub format_04x : ℕ → Bytes
unfolding hex_digit hex_loop pad_zeros
format_04x u = let s = hex_loop 15 u [] in pad_zeros (4 - length s) s

-- The number that a hexadecimal digit stands for, and that a text of digits spells behind `acc`.
abbrev pub digit_value : ℕ → ℕ
digit_value c = if leb c b'9' then c - b'0' else c - b'a' + 10

abbrev pub hex_value : ℕ → Bytes → ℕ
hex_value acc [] = acc
hex_value acc (c ∷ s) = hex_value (acc * 16 + digit_value c) s

pub digit_value-hex_digit : (d : ℕ) → d < 16 → digit_value (hex_digit d) ≡ d
unfolding hex_digit
digit_value-hex_digit d h = ground arith

-- The two kinds of round.
hex_loop_last :
    (f u : ℕ) (out : Bytes) → ltb u 16 ≡ true → hex_loop (suc f) u out ≡ hex_digit u ∷ out
unfolding hex_loop
hex_loop_last f u out h = ground arith

hex_loop_round :
    (f u : ℕ) (out : Bytes)
    → ltb u 16 ≡ false
    → hex_loop (suc f) u out ≡ hex_loop f (u / 16) (hex_digit (u % 16) ∷ out)
unfolding hex_loop
hex_loop_round f u out h = ground arith

hex_value-cons :
    (acc n : ℕ) (d : ℕ) (out : Bytes)
    → d < 16
    → acc * 16 + d ≡ n
    → hex_value acc (hex_digit d ∷ out) ≡ hex_value n out
hex_value-cons acc n d out h e =
    ap (λ a. hex_value a out) (omega (arith, digit_value-hex_digit d h))

pow_step : (f u : ℕ) → u < 16 ^ suc (suc f) → u / 16 < 16 ^ suc f
pow_step f u h = omega (arith, pow-suc 16 (suc f))

hex_value-hex_loop :
    (f u : ℕ) (out : Bytes) → u < 16 ^ suc f → hex_value 0 (hex_loop f u out) ≡ hex_value u out
unfolding hex_loop
hex_value-hex_loop zero u out h = hex_value-cons 0 u (u % 16) out (omega arith) (omega arith)
hex_value-hex_loop (suc f) u out h = elim (Bool-cases (ltb u 16)) [
  | inl small ↦
      rw (hex_loop_last f u out small) (hex_value-cons 0 u u out (omega tests) (omega arith))
  | inr large ↦ rw (hex_loop_round f u out large) (
      hex_value-hex_loop f (u / 16) (hex_digit (u % 16) ∷ out) (pow_step f u h)
      ∙ hex_value-cons (u / 16) u (u % 16) out (omega arith) (omega arith))
]

hex_value-pad_zeros : (n : ℕ) (s : Bytes) → hex_value 0 (pad_zeros n s) ≡ hex_value 0 s
unfolding pad_zeros
hex_value-pad_zeros zero s = refl
hex_value-pad_zeros (suc n) s = hex_value-pad_zeros n s

-- Every uint64 is read back from its print.
pub hex_value-format_04x : (u : ℕ) → u < 2 ^ 64 → hex_value 0 (format_04x u) ≡ u
unfolding format_04x
hex_value-format_04x u h =
    hex_value-pad_zeros (4 - length (hex_loop 15 u [])) (hex_loop 15 u [])
    ∙ hex_value-hex_loop 15 u [] h

pub length-hex_loop_le :
    (f k u : ℕ) (out : Bytes) → u < 16 ^ suc k → length (hex_loop f u out) ≤ suc k + length out
unfolding hex_loop
length-hex_loop_le zero k u out h = omega arith
length-hex_loop_le (suc f) zero u out h = ground arith
length-hex_loop_le (suc f) (suc k) u out h = elim (Bool-cases (ltb u 16)) [
  | inl small ↦ rw (hex_loop_last f u out small) (omega arith)
  | inr large ↦
      rw (hex_loop_round f u out large)
        (omega (arith, length-hex_loop_le f k (u / 16) (hex_digit (u % 16) ∷ out) (pow_step k u h)))
]

pow_pos : (k : ℕ) → 0 < 16 ^ k
pow_pos zero = omega arith
pow_pos (suc k) = omega (arith, pow-suc 16 k, pow_pos k)

longer : (f u : ℕ) (out : Bytes) → length out < length (hex_loop f u out)
unfolding hex_loop
longer zero u out = omega arith
longer (suc f) u out = ground (arith, longer f (u / 16) (hex_digit (u % 16) ∷ out))

pow_up : (k u : ℕ) → 16 ^ suc k ≤ u → (16 ^ k ≤ u / 16) × (16 ≤ u)
pow_up k u h = (omega (arith, pow-suc 16 k), omega (arith, pow-suc 16 k, pow_pos k))

pub length-hex_loop_ge :
    (f k u : ℕ) (out : Bytes) → k ≤ f → 16 ^ k ≤ u → suc k + length out ≤ length (hex_loop f u out)
unfolding hex_loop
length-hex_loop_ge zero k u out le h = omega arith
length-hex_loop_ge (suc f) zero u out le h = elim (Bool-cases (ltb u 16)) [
  | inl small ↦ rw (hex_loop_last f u out small) (omega arith)
  | inr large ↦
      rw (hex_loop_round f u out large)
        (omega (arith, longer f (u / 16) (hex_digit (u % 16) ∷ out)))
]
length-hex_loop_ge (suc f) (suc k) u out le h =
    let (up, big) = pow_up k u h in
    elim (Bool-cases (ltb u 16)) [
      | inl small ↦ absurd (omega tests)
      | inr large ↦ rw (hex_loop_round f u out large) (
          omega
            (arith, length-hex_loop_ge f k (u / 16) (hex_digit (u % 16) ∷ out) (omega arith) up))
    ]

length-pad_zeros : (n : ℕ) (s : Bytes) → length (pad_zeros n s) ≡ n + length s
unfolding pad_zeros
length-pad_zeros zero s = omega arith
length-pad_zeros (suc n) s = omega (arith, length-pad_zeros n s)

-- At least four digits, at most sixteen; more than four exactly above "ffff".
pub length-format_04x :
    (u : ℕ)
    → (4 ≤ length (format_04x u))
      × (u < 2 ^ 64 → length (format_04x u) ≤ 16)
      × (u < 65536 → length (format_04x u) ≡ 4)
      × (65536 ≤ u → 4 < length (format_04x u))
unfolding format_04x
length-format_04x u =
    let s = hex_loop 15 u [] in
    let pad = length-pad_zeros (4 - length s) s in
    (
      omega (arith, pad),
      λ h. omega (arith, pad, length-hex_loop_le 15 15 u [] h),
      λ h. omega (arith, pad, length-hex_loop_le 15 3 u [] h),
      λ h. omega (arith, pad, length-hex_loop_ge 15 4 u [] (omega arith) h),
    )

-- Only the digits 0-9 and a-f.
abbrev pub IsHexDigit : ℕ → Type 0
IsHexDigit c = ((b'0' ≤ c) × (c ≤ b'9')) ⊎ ((b'a' ≤ c) × (c ≤ b'f'))

pub hex_digit-IsHexDigit : (d : ℕ) → d < 16 → IsHexDigit (hex_digit d)
unfolding hex_digit
hex_digit-IsHexDigit d h = ground arith

hex_loop-IsHexDigit :
    (f u : ℕ) (out : Bytes) → All IsHexDigit out → All IsHexDigit (hex_loop f u out)
unfolding hex_loop
hex_loop-IsHexDigit zero u out h = (hex_digit-IsHexDigit (u % 16) (omega arith), h)
hex_loop-IsHexDigit (suc f) u out h = elim (Bool-cases (ltb u 16)) [
  | inl small ↦ rw (hex_loop_last f u out small) (hex_digit-IsHexDigit u (omega tests), h)
  | inr large ↦ rw (hex_loop_round f u out large) (
      hex_loop-IsHexDigit f (u / 16) (hex_digit (u % 16) ∷ out)
        (hex_digit-IsHexDigit (u % 16) (omega arith), h))
]

pad_zeros-IsHexDigit : (n : ℕ) (s : Bytes) → All IsHexDigit s → All IsHexDigit (pad_zeros n s)
unfolding pad_zeros
pad_zeros-IsHexDigit zero s h = h
pad_zeros-IsHexDigit (suc n) s h = (inl (omega arith), pad_zeros-IsHexDigit n s h)

pub format_04x-IsHexDigit : (u : ℕ) → All IsHexDigit (format_04x u)
unfolding format_04x
format_04x-IsHexDigit u =
    pad_zeros-IsHexDigit (4 - length (hex_loop 15 u [])) (hex_loop 15 u [])
      (hex_loop-IsHexDigit 15 u [] tt)
