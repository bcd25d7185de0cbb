-- ===== src/Json/QuoteGives.antt =====
-- What `unquote` makes of each piece that `appendString` writes (`encoding/json`).
use mcp_chain.Base.{
  ℕ, zero, suc, ◌+◌, ◌-◌, ◌*◌, ◌/◌, ◌%◌, ◌<◌, ◌≡◌, ◌≢◌, refl, ap, ◌∙◌, arith, Bytes, codes, Bool,
  true, false, [], ◌∷◌, ◌++◌, ◌&&◌, ◌||◌, ◌==◌, ltb, get_or, drop, if◌then◌else◌, Bool-cases, inl,
  inr, ◌⊎◌, subst,
}
use mcp_chain.Idgen.Hex.{hex_digit}
use mcp_chain.Json.Quote.{
  escape_byte, is_separator, escape_from, rune_size, rune_size_of, is_tail, within, Unquoting,
  plain, copying, slashed, digits, unquote_step, unquote_from, hex_digit_value, unit_step,
  plain_step, encode_rune,
}

-- `unquote` turns the text `w` into `v` and is behind a whole character.
abbrev Gives : Bytes → Bytes → Type 0
Gives w v = (rest : Bytes) → unquote_from plain (w ++ rest) ≡ v ++ unquote_from plain rest

hex_digit_value-hex_digit : (d : ℕ) → d < 16 → hex_digit_value (hex_digit d) ≡ d
unfolding hex_digit
hex_digit_value-hex_digit d h = ground arith

Gives-if :
    (c : Bool) (v w x : Bytes)
    → (c ≡ true → Gives v x)
    → (c ≡ false → Gives w x)
    → Gives (if c then v else w) x
Gives-if true v w x p q = p refl
Gives-if false v w x p q = q refl

pub unquote_next :
    (u u' : Unquoting) (b : ℕ) (s v : Bytes)
    → unquote_step u b s ≡ (v, u')
    → unquote_from u (b ∷ s) ≡ v ++ unquote_from u' s
unfolding unquote_from
unquote_next u u' b s v e = rw e refl

Gives-byte : (b : ℕ) → ltb b 128 ≡ true → (b == b'\\') ≡ false → Gives (b ∷ []) (b ∷ [])
unfolding unquote_step plain_step
Gives-byte b h n rest = unquote_next plain plain b rest (b ∷ []) (rw (n, h) refl)

Gives-slash : (b : ℕ) → ((b == b'"') || (b == b'\\')) ≡ true → Gives (b'\\' ∷ b ∷ []) (b ∷ [])
unfolding unquote_step plain_step unquote_from
Gives-slash b h rest = unquote_next (slashed 0) plain b rest (b ∷ []) (ground arith)

small_unit : (r : ℕ) → r < 128 → unit_step 0 r ≡ (r ∷ [], plain)
unfolding unit_step encode_rune
small_unit r h = ground arith

Gives-hex :
    (d e b : ℕ)
    → d < 16
    → e < 16
    → d * 16 + e ≡ b
    → b < 128
    → Gives (b'\\' ∷ b'u' ∷ b'0' ∷ b'0' ∷ hex_digit d ∷ hex_digit e ∷ []) (b ∷ [])
unfolding unquote_step plain_step unquote_from
Gives-hex d e b hd he sum small rest =
    unquote_next (digits 0 _ 0) plain (hex_digit e) rest (b ∷ []) (
      ap (unit_step 0)
        {x = (((0 * 16 + 0) * 16 + 0) * 16 + hex_digit_value (hex_digit d)) * 16
          + hex_digit_value (hex_digit e)}
        {y = b} (omega (arith, hex_digit_value-hex_digit d hd, hex_digit_value-hex_digit e he, sum))
      ∙ small_unit b small)

Gives-known : (n b : ℕ) (w : Bytes) → (b == n) ≡ true → Gives w (n ∷ []) → Gives w (b ∷ [])
Gives-known n b w y g = let e : n ≡ b = ground arith in subst (λ x. Gives w (x ∷ [])) e g

pub Gives-escape_byte : (b : ℕ) → ltb b 128 ≡ true → Gives (escape_byte b) (b ∷ [])
unfolding escape_byte unquote_step plain_step unquote_from
Gives-escape_byte b h = Gives-if ((b == b'"') || (b == b'\\')) _ _ (b ∷ []) (Gives-slash b) λ n1.
    Gives-if (b == 8) _ _ (b ∷ []) (λ y. Gives-known 8 b (codes "\\b") y (λ rest. refl))
      λ n2.
        Gives-if (b == 12) _ _ (b ∷ []) (λ y. Gives-known 12 b (codes "\\f") y (λ rest. refl))
          λ n3.
            Gives-if (b == 10) _ _ (b ∷ []) (λ y. Gives-known 10 b (codes "\\n") y (λ rest. refl))
              λ n4.
                Gives-if (b == 13) _ _ (b ∷ [])
                  (λ y. Gives-known 13 b (codes "\\r") y (λ rest. refl))
                  λ n5.
                    Gives-if (b == 9) _ _ (b ∷ [])
                      (λ y. Gives-known 9 b (codes "\\t") y (λ rest. refl))
                      λ n6.
                        Gives-if (ltb b 32 || (b == b'<') || (b == b'>') || (b == b'&')) _ _
                          (b ∷ [])
                          (λ y.
                            Gives-hex (b / 16) (b % 16) b (ground arith) (omega arith) (omega arith)
                              (ground arith))
                          λ n7. Gives-byte b h (ground arith)

module _ (b : ℕ) where
  abbrev three : ℕ → ℕ → ℕ
  three c1 c2 =
      if within (if b == 224 then 160 else 128) (if b == 237 then 159 else 191) c1 && is_tail c2
      then 3
      else 0

  abbrev four : ℕ → ℕ → ℕ → ℕ
  four c1 c2 c3 =
      if within (if b == 240 then 144 else 128) (if b == 244 then 143 else 191) c1
        && (is_tail c2 && is_tail c3)
      then 4
      else 0

  rune_size_two :
      (c1 c2 c3 : ℕ)
      → within 194 223 b ≡ true
      → rune_size_of b c1 c2 c3 ≡ (if is_tail c1 then 2 else 0)
  unfolding rune_size_of
  rune_size_two c1 c2 c3 y = rw y refl

  rune_size_three :
      (c1 c2 c3 : ℕ)
      → within 194 223 b ≡ false
      → within 224 239 b ≡ true
      → rune_size_of b c1 c2 c3 ≡ three c1 c2
  unfolding rune_size_of
  rune_size_three c1 c2 c3 n y = rw (n, y) refl

  rune_size_four :
      (c1 c2 c3 : ℕ)
      → within 194 223 b ≡ false
      → within 224 239 b ≡ false
      → rune_size_of b c1 c2 c3 ≡ (if within 240 244 b then four c1 c2 c3 else 0)
  unfolding rune_size_of
  rune_size_four c1 c2 c3 n m = rw (n, m) refl

module _ (b c1 c2 c3 d1 d2 d3 : ℕ) where
  -- The size depends on the bytes of the character only.
  rune_size_of-prefix :
      rune_size_of b c1 c2 c3 ≢ 0
      → (1 < rune_size_of b c1 c2 c3 → d1 ≡ c1)
      → (2 < rune_size_of b c1 c2 c3 → d2 ≡ c2)
      → (3 < rune_size_of b c1 c2 c3 → d3 ≡ c3)
      → rune_size_of b d1 d2 d3 ≡ rune_size_of b c1 c2 c3
  rune_size_of-prefix h p q r = elim (Bool-cases (within 194 223 b)) [
    | inl y ↦
        let c = rune_size_two b c1 c2 c3 y in
        let d = rune_size_two b d1 d2 d3 y in
        elim (Bool-cases (is_tail c1)) [
          | inl t ↦
              let two : rune_size_of b c1 c2 c3 ≡ 2 = c ∙ (rw t refl) in
              let same = p (omega (arith, two)) in d ∙ (rw (same, two, t) refl)
          | inr f ↦ absurd (h (c ∙ (rw f refl)))
        ]
    | inr n ↦ elim (Bool-cases (within 224 239 b)) [
      | inl y ↦
          let c = rune_size_three b c1 c2 c3 n y in
          let d = rune_size_three b d1 d2 d3 n y in
          elim (Bool-cases (is_tail c2)) [
            | inl t ↦ ground (arith, c, d)
            | inr f ↦ absurd (ground (arith, c))
          ]
      | inr m ↦
          let c = rune_size_four b c1 c2 c3 n m in
          let d = rune_size_four b d1 d2 d3 n m in
          elim (Bool-cases (is_tail c2)) [
            | inr f ↦ absurd (ground (arith, c))
            | inl t2 ↦ elim (Bool-cases (is_tail c3)) [
              | inr f ↦ absurd (ground (arith, c))
              | inl t3 ↦ ground (arith, c, d)
            ]
          ]
    ]
  ]

get_or-escape_from :
    (k i : ℕ) (s : Bytes) → i < k → get_or (escape_from true k s) i 0 ≡ get_or s i 0
unfolding escape_from
get_or-escape_from zero i s h = absurd (omega arith)
get_or-escape_from (suc k) i [] h = refl
get_or-escape_from (suc k) zero (b ∷ s) h = refl
get_or-escape_from (suc k) (suc i) (b ∷ s) h = get_or-escape_from k i s (omega arith)

-- A copied character is read as one.
pub rune_size-escape_from :
    (b : ℕ) (s : Bytes)
    → rune_size b s ≢ 0
    → rune_size b (escape_from true (rune_size b s - 1) s) ≡ rune_size b s
unfolding rune_size
rune_size-escape_from b s h =
    let n = rune_size b s in
    rune_size_of-prefix b (get_or s 0 0) (get_or s 1 0) (get_or s 2 0) _ _ _ h
      (λ lt. get_or-escape_from (n - 1) 0 s (omega arith))
      (λ lt. get_or-escape_from (n - 1) 1 s (omega arith))
      (λ lt. get_or-escape_from (n - 1) 2 s (omega arith))

pub is_separator-cons :
    (b : ℕ) (s : Bytes)
    → is_separator b s ≡ true
    → (c : ℕ) × (s ≡ 128 ∷ c ∷ drop 2 s) × (b ≡ 226) × ((c ≡ 168) ⊎ (c ≡ 169))
unfolding is_separator
is_separator-cons b [] h = absurd (ground arith)
is_separator-cons b (c1 ∷ []) h = absurd (ground arith)
is_separator-cons b (c1 ∷ c2 ∷ s) h =
    let e : c1 ≡ 128 = ground arith in (c2, ap (λ x. x ∷ c2 ∷ s) e, ground arith, ground arith)

pub separator_size :
    (b c : ℕ) (s : Bytes) → b ≡ 226 → (c ≡ 168) ⊎ (c ≡ 169) → rune_size b (128 ∷ c ∷ s) ≡ 3
unfolding rune_size rune_size_of
separator_size b c s e (inl f) = rw (e, f) refl
separator_size b c s e (inr f) = rw (e, f) refl

pub plain_step_rune :
    (b : ℕ) (s : Bytes)
    → ltb b 128 ≡ false
    → rune_size b s ≢ 0
    → plain_step b s ≡ (b ∷ [], copying (rune_size b s - 1))
unfolding plain_step
plain_step_rune b s h r =
    let off : (b == b'\\') ≡ false = ground arith in
    let some_size : (rune_size b s == 0) ≡ false = ground arith in rw (off, h, some_size) refl

pub Gives-separator :
    (c : ℕ)
    → (c ≡ 168) ⊎ (c ≡ 169)
    → Gives (codes "\\u202" ++ ((c - 168 + b'8') ∷ [])) (226 ∷ 128 ∷ c ∷ [])
unfolding unquote_from unquote_step plain_step unit_step encode_rune
Gives-separator c (inl e) rest = rw e refl
Gives-separator c (inr e) rest = rw e refl

pub copying_none : (s : Bytes) → unquote_from (copying 0) s ≡ unquote_from plain s
unfolding unquote_from unquote_step
copying_none [] = refl
copying_none (b ∷ s) = refl
