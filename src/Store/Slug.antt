-- ===== src/Store/Slug.antt =====
-- `validateID` of internal/store/store.go: the grammar of the ids that a caller may choose.
use mcp_chain.Base.{
  ℕ, suc, ◌≤◌, ◌≡◌, refl, ◌↔◌, ◌⊎◌, inl, inr, Bool, true, ◌&&◌, ◌||◌, [], ◌∷◌, arith, ltb, leb,
  ◌==◌, if◌then◌else◌, length, All, Bytes, Bool-cases,
}
use mcp_chain.Store.Errors.{
  Result, ok, err, invalid_length, invalid_byte, GoError, errors_is, err_invalid_id,
}

-- The test of one byte: `.`, `_` and `-` are allowed behind the first.
unfoldable pub byte_ok : ℕ → ℕ → Bool
byte_ok i c =
    let ok = (leb b'a' c && leb c b'z') || (leb b'0' c && leb c b'9') in
    if ltb 0 i then ok || (c == b'.') || (c == b'_') || (c == b'-') else ok

-- `for i := 0; i < n; i++`, from the byte `i` on, where `rest` begins.
unfoldable pub validate_bytes : Bytes → ℕ → Bytes → Result (Unit {0})
unfolding byte_ok
validate_bytes id i [] = ok tt
validate_bytes id i (c ∷ rest) =
    let later = validate_bytes id (suc i) rest in
    if byte_ok i c then later else err (invalid_byte id i c)

-- `validateID`.
unfoldable pub validate_id : Bytes → Result (Unit {0})
unfolding validate_bytes
validate_id id =
    let n = length id in
    if (n == 0) || ltb 64 n then err (invalid_length n) else validate_bytes id 0 id

-- The grammar by itself: a letter or digit, then letters, digits and `._-`, at most 64 bytes in all.
abbrev pub IsAlnum : ℕ → Type 0
IsAlnum c = ((b'a' ≤ c) × (c ≤ b'z')) ⊎ ((b'0' ≤ c) × (c ≤ b'9'))

abbrev pub IsSlugByte : ℕ → Type 0
IsSlugByte c = IsAlnum c ⊎ ((c ≡ b'.') ⊎ ((c ≡ b'_') ⊎ (c ≡ b'-')))

abbrev pub IsSlug : Bytes → Type 0
IsSlug [] = ⊥
IsSlug (c ∷ rest) = IsAlnum c × All IsSlugByte rest × (length rest ≤ 63)

byte_ok_first : (c : ℕ) → (byte_ok 0 c ≡ true) ↔ IsAlnum c
unfolding byte_ok
byte_ok_first c = (λ h. ground arith, λ h. ground arith)

byte_ok_later : (i c : ℕ) → (byte_ok (suc i) c ≡ true) ↔ IsSlugByte c
unfolding byte_ok
byte_ok_later i c = (λ h. ground arith, λ h. ground arith)

validate_bytes_iff :
    (id : Bytes) (i : ℕ) (rest : Bytes)
    → (validate_bytes id (suc i) rest ≡ ok tt) ↔ All IsSlugByte rest
unfolding validate_bytes
validate_bytes_iff id i [] = (λ _. tt, λ _. refl)
validate_bytes_iff id i (c ∷ rest) =
    let test = byte_ok_later i c in
    let ih = validate_bytes_iff id (suc i) rest in
    elim (Bool-cases (byte_ok (suc i) c)) [
      | inl good ↦ (λ e. (test.0 good, ih.0 (rw good at e)), λ h. rw good (ih.1 h.1))
      | inr bad ↦ (λ e. ground arith, λ h. ground (arith, test.1 h.0))
    ]

-- `validateID` accepts exactly the slugs: 1 to 64 bytes, the first one of a-z and 0-9, the others of
-- a-z, 0-9, `.`, `_` and `-`.
pub validate_id_iff : (id : Bytes) → (validate_id id ≡ ok tt) ↔ IsSlug id
unfolding validate_id
validate_id_iff [] = (λ e. cc, λ h. absurd h)
validate_id_iff (c ∷ rest) = (
  λ e. ground (arith, validate_bytes_iff (c ∷ rest) 0 rest),
  λ h. ground (arith, validate_bytes_iff (c ∷ rest) 0 rest),
)

validate_bytes-err :
    (id : Bytes) (i : ℕ) (rest : Bytes) (e : GoError)
    → validate_bytes id i rest ≡ err e
    → errors_is e err_invalid_id ≡ true
unfolding validate_bytes errors_is
validate_bytes-err id i [] e h = cc
validate_bytes-err id i (c ∷ rest) e h = ground (arith, validate_bytes-err id (suc i) rest e)

-- Every refusal wraps ErrInvalidID.
pub validate_id-err :
    (id : Bytes) (e : GoError) → validate_id id ≡ err e → errors_is e err_invalid_id ≡ true
unfolding validate_id errors_is
validate_id-err id e h = ground (arith, validate_bytes-err id 0 id e)

pub validate_id_cases :
    (id : Bytes)
    → (validate_id id ≡ ok tt)
      ⊎ ((e : GoError) × (validate_id id ≡ err e) × (errors_is e err_invalid_id ≡ true))
validate_id_cases id = go (validate_id id) refl
  where
    go :
        (r : Result (Unit {0}))
        → validate_id id ≡ r
        → (validate_id id ≡ ok tt)
          ⊎ ((e : GoError) × (validate_id id ≡ err e) × (errors_is e err_invalid_id ≡ true))
    go (ok tt) e = inl e
    go (err x) e = inr (x, e, validate_id-err id x e)
