-- ===== src/Json/QuoteLaws.antt =====
-- Lemmas on the quoted form of a text and its decoding (encoding/json).
use mcp_chain.Base.{
  ℕ, zero, suc, ◌+◌, ◌-◌, ◌≡◌, ◌≢◌, refl, sym, ap, ◌∙◌, arith, Bytes, codes, Bool, true, false, not,
  [], ◌∷◌, ◌++◌, ◌||◌, ◌==◌, ltb, get_or, drop, Bool-cases, inl, inr,
}
use mcp_chain.Json.QuoteScan.{IsUtf8}
use mcp_chain.Json.Quote.{
  escape_byte, escape_front, following, is_separator, escape_from, escape, rune_size, plain,
  copying, unquote_step, unquote_from, unquote, plain_step,
}
use mcp_chain.Json.QuoteGives.{
  Gives-separator, rune_size-escape_from, is_separator-cons, Gives-escape_byte, plain_step_rune,
  copying_none, separator_size, unquote_next,
}

-- The text is read back from its escaped form, at each place in it.
abbrev Back : ℕ → Bytes → Type 0
Back k s =
    (unquote_from (copying k) (escape_from true k s) ≡ s)
    × (unquote_from plain (escape_from false k s) ≡ drop k s)

escape_from_first :
    (b : ℕ) (s front : Bytes) (keep : Bool) (k : ℕ)
    → escape_front b s ≡ front
    → is_separator b s ≡ not keep
    → following b s ≡ k
    → escape_from true 0 (b ∷ s) ≡ front ++ escape_from keep k s
unfolding escape_from
escape_from_first b s front true k p q r = rw (p, q, r) refl
escape_from_first b s front false k p q r = rw (p, q, r) refl

module _ (b : ℕ) (s : Bytes) (ih : Back (following b s) s) where
  ascii_back : ltb b 128 ≡ true → unquote_from plain (escape_from true 0 (b ∷ s)) ≡ b ∷ s
  unfolding escape_front following is_separator
  ascii_back h =
      let none_follow : following b s ≡ 0 = rw h refl in
      let back : unquote_from (copying 0) (escape_from true 0 s) ≡ s = rw none_follow at ih.0 in
      ap (unquote_from plain)
        (escape_from_first b s (escape_byte b) true 0 (rw h refl) (ground arith) none_follow)
      ∙ Gives-escape_byte b h (escape_from true 0 s)
      ∙ ap (λ t. b ∷ t) (sym (copying_none (escape_from true 0 s)) ∙ back)

  rune_back :
      ltb b 128 ≡ false
      → rune_size b s ≢ 0
      → is_separator b s ≡ false
      → unquote_from plain (escape_from true 0 (b ∷ s)) ≡ b ∷ s
  unfolding escape_front following unquote_step
  rune_back h r n =
      let size : (rune_size b s == 0) ≡ false = ground arith in
      let k : ℕ = rune_size b s - 1 in
      let follow : following b s ≡ k = rw h refl in
      let back : unquote_from (copying k) (escape_from true k s) ≡ s = rw follow at ih.0 in
      let same = rune_size-escape_from b s r in
      let first : plain_step b (escape_from true k s) ≡ (b ∷ [], copying k) =
        plain_step_rune b (escape_from true k s) h (λ e. r (sym same ∙ e))
        ∙ ap (λ m. (b ∷ [], copying (m - 1))) same in
      ap (unquote_from plain)
        (escape_from_first b s (b ∷ []) true k (rw (h, size, n) refl) n follow)
      ∙ unquote_next plain (copying k) b (escape_from true k s) (b ∷ []) first
      ∙ ap (λ t. b ∷ t) back

  separator_back :
      ltb b 128 ≡ false
      → rune_size b s ≢ 0
      → is_separator b s ≡ true
      → unquote_from plain (escape_from true 0 (b ∷ s)) ≡ b ∷ s
  unfolding escape_front following
  separator_back h r y =
      let size : (rune_size b s == 0) ≡ false = ground arith in
      let (c, whole, is_b, is_c) = is_separator-cons b s y in
      let follow : following b s ≡ 2 =
        ap (λ t. following b t) whole ∙ (rw (h, separator_size b c (drop 2 s) is_b is_c) refl) in
      let second : get_or s 1 0 ≡ c = ap (λ t. get_or t 1 0) whole in
      let back : unquote_from plain (escape_from false 2 s) ≡ drop 2 s = rw follow at ih.1 in
      ap (unquote_from plain) (
        escape_from_first b s (codes "\\u202" ++ ((c - 168 + b'8') ∷ [])) false 2
          (rw (h, size, y, second) refl) y follow)
      ∙ Gives-separator c is_c (escape_from false 2 s)
      ∙ ap (λ t. 226 ∷ 128 ∷ c ∷ t) back
      ∙ sym (ap (λ x. x ∷ s) is_b ∙ ap (λ t. 226 ∷ t) whole)

  first_back :
      (ltb b 128 || not (rune_size b s == 0)) ≡ true
      → unquote_from plain (escape_from true 0 (b ∷ s)) ≡ b ∷ s
  first_back h = elim (Bool-cases (ltb b 128)) [
    | inl small ↦ ascii_back small
    | inr large ↦
        let size : rune_size b s ≢ 0 = λ e. absurd (ground arith) in
        elim (Bool-cases (is_separator b s)) [
          | inl y ↦ separator_back large size y
          | inr n ↦ rune_back large size n
        ]
  ]

escape_from_either : (s : Bytes) → escape_from false 0 s ≡ escape_from true 0 s
unfolding escape_from
escape_from_either [] = refl
escape_from_either (b ∷ s) = refl

back : (k : ℕ) (s : Bytes) → IsUtf8 k s → Back k s
unfolding escape_from unquote_from unquote_step
back zero [] u = (refl, refl)
back (suc k) [] u = elim u [ ]
back (suc k) (b ∷ s) (tail, u) =
    let (copied, dropped) = back k s u in (ap (λ t. b ∷ t) copied, dropped)
back zero (b ∷ s) (first, u) =
    let whole = first_back b s (back (following b s) s u) first in
    (
      copying_none (escape_from true 0 (b ∷ s)) ∙ whole,
      ap (unquote_from plain) (escape_from_either (b ∷ s)) ∙ whole,
    )

-- Every well-formed UTF-8 text is read back from its escaped form.
pub unquote-escape : (s : Bytes) → IsUtf8 0 s → unquote (escape s) ≡ s
unfolding unquote escape
unquote-escape s u = sym (copying_none (escape_from true 0 s)) ∙ (back 0 s u).0
