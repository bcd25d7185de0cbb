-- ===== src/Idgen/WordsSound.antt =====
-- What `parseAndValidate` guarantees about every list that it returns.
use mcp_chain.Base.{
  ℕ, zero, suc, ◌≡◌, refl, ◌≢◌, true, false, some, List, [], ◌∷◌, arith, length, get_elem?, All,
  Bytes, str_eq, str_eq_iff, Bool-cases, Option-cases, ◌==◌, inl, inr, ap, ◌⊎◌, ◌++◌, ◌&&◌, ◌||◌,
  ◌≤◌, leb, subst,
}
use mcp_chain.Idgen.Words.{
  Parsed, ok, panic, emit, wordlist_size, is_valid_word, has_prefix, hex_dash, contains, cut_tab,
  validate_lines, parse_and_validate, split_lines, trim_newlines, replace_crlf,
}

-- A letter from a to z, or a hyphen, by its code.
abbrev pub IsLetter : ℕ → Type 0
IsLetter c = ((97 ≤ c) × (c ≤ 122)) ⊎ (c ≡ 45)

-- A word that `parseAndValidate` lets pass.
pub record IsWord (w : Bytes) : Type 0 where
  pub nonempty : w ≢ []
  pub letters : All IsLetter w
  pub no_prefix : (rest : Bytes) → w ≢ hex_dash ++ rest

is_valid_word-All : (w : Bytes) → is_valid_word w ≡ true → All IsLetter w
unfolding is_valid_word
is_valid_word-All [] h = tt
is_valid_word-All (c ∷ w) h = elim (Bool-cases ((leb b'a' c && leb c b'z') || (c == b'-'))) [
  | inl good ↦ (letter c good, is_valid_word-All w (rw good at h))
  | inr bad ↦ absurd (cc (rw bad at h))
]
  where
    letter : (c : ℕ) → ((leb b'a' c && leb c b'z') || (c == b'-')) ≡ true → IsLetter c
    letter c g = elim (Bool-cases (c == b'-')) [
      | inl dash ↦ inr (ground arith)
      | inr other ↦ inl (ground arith, ground arith)
    ]

has_prefix-append : (prefix rest : Bytes) → has_prefix (prefix ++ rest) prefix ≡ true
unfolding has_prefix
has_prefix-append [] rest = refl
has_prefix-append (c ∷ prefix) rest =
    let same : (c == c) ≡ true = ground arith in rw same (has_prefix-append prefix rest)

IsWord-made :
    (w : Bytes)
    → str_eq w [] ≡ false
    → is_valid_word w ≡ true
    → has_prefix w hex_dash ≡ false
    → IsWord w
IsWord-made w nonempty valid no_prefix = record {
  nonempty = λ e. absurd (ground (arith, str_eq_iff w [], nonempty, e));
  letters = is_valid_word-All w valid;
  no_prefix = λ rest e. absurd (
      cc (subst (λ x. has_prefix x hex_dash ≡ false) e no_prefix, has_prefix-append hex_dash rest));
}

-- Each word differs from those before it and from those in `seen`.
abbrev Apart : List Bytes → List Bytes → Type 0
Apart seen [] = Unit
Apart seen (w ∷ ws) = (contains w seen ≡ false) × Apart (w ∷ seen) ws

record Sound (seen lines ws : List Bytes) : Type 0 where
  size : length ws ≡ length lines
  words : All IsWord ws
  apart : Apart seen ws

emit_inv :
    (w : Bytes) (r : Parsed) {ws : List Bytes}
    → emit w r ≡ ok ws
    → (rest : List Bytes) × (r ≡ ok rest) × (ws ≡ w ∷ rest)
emit_inv w (ok rest) e = (rest, refl, ground arith)
emit_inv w (panic p) e = cc

-- One round of the loop that does not panic.
round_inv :
    (n : ℕ) (seen lines : List Bytes) (line w : Bytes) {ws : List Bytes}
    → cut_tab line ≡ some w
    → validate_lines n seen (line ∷ lines) ≡ ok ws
    → (str_eq w [] ≡ false)
      × (is_valid_word w ≡ true)
      × (has_prefix w hex_dash ≡ false)
      × (contains w seen ≡ false)
      × (emit w (validate_lines (suc n) (w ∷ seen) lines) ≡ ok ws)
unfolding validate_lines
round_inv n seen lines line w c e = ground arith

validate_lines-Sound :
    (n : ℕ) (seen lines : List Bytes) (ws : List Bytes)
    → validate_lines n seen lines ≡ ok ws
    → Sound seen lines ws
unfolding validate_lines
validate_lines-Sound n seen [] [] e = record { size = refl; words = tt; apart = tt }
validate_lines-Sound n seen [] (w ∷ ws) e = cc
validate_lines-Sound n seen (line ∷ lines) ws e = elim (Option-cases (cut_tab line)) [
  | inl c ↦ ground arith
  | inr (w, c) ↦
      let (nonempty, valid, no_prefix, fresh, e') = round_inv n seen lines line w c e in
      let (rest, r, q) = emit_inv w (validate_lines (suc n) (w ∷ seen) lines) e' in
      let s = validate_lines-Sound (suc n) (w ∷ seen) lines rest r in
      rw q (record {
        size = ap suc s.size;
        words = (IsWord-made w nonempty valid no_prefix, s.words);
        apart = (fresh, s.apart);
      })
]

contains-get_elem? :
    (seen ws : List Bytes) (j : ℕ) (a : Bytes)
    → Apart seen ws
    → contains a seen ≡ true
    → get_elem? ws j ≢ some a
unfolding contains
contains-get_elem? seen [] j a h c e = cc
contains-get_elem? seen (w ∷ ws) zero a h c e = ground arith
contains-get_elem? seen (w ∷ ws) (suc j) a h c e =
    contains-get_elem? (w ∷ seen) ws j a h.1 (ground (arith, str_eq_iff w a)) e

-- No word stands at two places.
Apart-get_elem? :
    (seen ws : List Bytes) (i j : ℕ) (a : Bytes)
    → Apart seen ws
    → get_elem? ws i ≡ some a
    → get_elem? ws j ≡ some a
    → i ≡ j
unfolding contains
Apart-get_elem? seen [] i j a h p q = cc
Apart-get_elem? seen (w ∷ ws) zero zero a h p q = refl
Apart-get_elem? seen (w ∷ ws) zero (suc j) a h p q =
    absurd (contains-get_elem? (w ∷ seen) ws j a h.1 (ground (arith, str_eq_iff w a)) q)
Apart-get_elem? seen (w ∷ ws) (suc i) zero a h p q =
    absurd (contains-get_elem? (w ∷ seen) ws i a h.1 (ground (arith, str_eq_iff w a)) p)
Apart-get_elem? seen (w ∷ ws) (suc i) (suc j) a h p q =
    ap suc (Apart-get_elem? (w ∷ seen) ws i j a h.1 p q)

-- What `init` relies on.
pub record IsWordlist (ws : List Bytes) : Type 0 where
  pub size : length ws ≡ wordlist_size
  pub words : All IsWord ws
  pub distinct : (i j : ℕ) (a : Bytes) → get_elem? ws i ≡ some a → get_elem? ws j ≡ some a → i ≡ j

-- For any content of the embedded file: if `parseAndValidate` returns a list and does not panic, the
-- list has 1296 words, each of them is not empty, has letters a-z and hyphens only and does not
-- begin with "hex-", and no word stands at two places.
pub parse_and_validate-IsWordlist :
    (raw : Bytes) (ws : List Bytes) → parse_and_validate raw ≡ ok ws → IsWordlist ws
unfolding parse_and_validate
parse_and_validate-IsWordlist raw ws e =
    let lines = split_lines (trim_newlines (replace_crlf raw)) in
    elim (Bool-cases (length lines == wordlist_size)) [
      | inl n ↦
          let s = validate_lines-Sound 1 [] lines ws (ground arith) in
          record {
            size = ground (arith, s.size);
            words = s.words;
            distinct = λ i j a p q. Apart-get_elem? [] ws i j a s.apart p q;
          }
      | inr n ↦ ground arith
    ]
