-- ===== src/Idgen/Allocate/Laws.antt =====
-- Lemmas on the ids and their counters (internal/idgen/idgen.go).
use mcp_chain.Base.{
  ℕ, zero, suc, ◌+◌, ◌-◌, ◌%◌, ◌^◌, ◌≤◌, ◌<◌, ◌≡◌, sym, ◌∙◌, ap, ◌≢◌, inl, inr, true, false, some,
  List, [], ◌∷◌, ◌++◌, arith, tests, ltb, lt→ltb, length, get_elem?, get_elem?_in_range, get_or,
  All-get_elem?, Bytes, Bool-cases,
}
use mcp_chain.Idgen.Words.{hex_dash}
use mcp_chain.Idgen.WordsSound.{IsWord}
use mcp_chain.Idgen.Load.{words, words-IsWordlist}
use mcp_chain.Idgen.Hex.{format_04x, hex_value, hex_value-format_04x, length-format_04x}
use mcp_chain.Idgen.Allocate.{allocate}

length-words : length words ≡ 1296
length-words = words-IsWordlist.size

pub get_or-get_elem? :
    (ws : List Bytes) (i : ℕ) (a : Bytes) → get_elem? ws i ≡ some a → get_or ws i [] ≡ a
get_or-get_elem? [] i a e = cc
get_or-get_elem? (w ∷ ws) zero a e = cc
get_or-get_elem? (w ∷ ws) (suc i) a e = get_or-get_elem? ws i a e

-- Below 1296 the id is a word of the list.
pub allocate_word :
    (c : ℕ) → c < 1296 → (get_elem? words c ≡ some (allocate c)) × IsWord (allocate c)
unfolding allocate
allocate_word c h =
    let (w, e) = get_elem?_in_range words c (omega (arith, length-words)) in
    let test : ltb c (length words) ≡ true =
      lt→ltb c (length words) (omega (arith, length-words)) in
    rw (test, get_or-get_elem? words c w e)
      (e, All-get_elem? IsWord words c w words-IsWordlist.words e)

-- From 1296 on it is "hex-" and the offset from 1295 in hexadecimal.
pub allocate_hex : (c : ℕ) → 1296 ≤ c → c < 2 ^ 64 → allocate c ≡ hex_dash ++ format_04x (c - 1295)
unfolding allocate
allocate_hex c h k =
    let test : ltb c (length words) ≡ false = ground (arith, length-words) in
    let n : (c + 2 ^ 64 - (length words - 1)) % 2 ^ 64 ≡ c - 1295 = omega (arith, length-words) in
    rw (test, n)

drop_hex_dash : (s t : Bytes) → hex_dash ++ s ≡ hex_dash ++ t → s ≡ t
drop_hex_dash s t e = cc

word-ne-hex : (c d : ℕ) → c < 1296 → 1296 ≤ d → d < 2 ^ 64 → allocate c ≢ allocate d
word-ne-hex c d h k l e =
    let w = (allocate_word c h).1.no_prefix in w (format_04x (d - 1295)) (e ∙ allocate_hex d k l)

-- `Allocate` gives different ids for different uint64 counters: two words of the list, two fallback
-- ids, or one of each.
pub allocate-injective : (c d : ℕ) → c < 2 ^ 64 → d < 2 ^ 64 → allocate c ≡ allocate d → c ≡ d
allocate-injective c d hc hd e = elim (Bool-cases (ltb c 1296)) [
  | inl c_word ↦ elim (Bool-cases (ltb d 1296)) [
    | inl d_word ↦
        words-IsWordlist.distinct c d (allocate c) (allocate_word c (omega tests)).0
          (rw e (allocate_word d (omega tests)).0)
    | inr d_hex ↦ absurd (word-ne-hex c d (omega tests) (omega tests) hd e)
  ]
  | inr c_hex ↦ elim (Bool-cases (ltb d 1296)) [
    | inl d_word ↦ absurd (word-ne-hex d c (omega tests) (omega tests) hc (sym e))
    | inr d_hex ↦
        let same =
          drop_hex_dash (format_04x (c - 1295)) (format_04x (d - 1295))
            (sym (allocate_hex c (omega tests) hc) ∙ e ∙ allocate_hex d (omega tests) hd) in
        omega (
          tests,
          hex_value-format_04x (c - 1295) (omega tests),
          hex_value-format_04x (d - 1295) (omega tests),
          ap (hex_value 0) same,
        )
  ]
]

-- A fallback id has eight bytes exactly for the counters from 1296 to 66830: the counter 66831 is
-- the first with a fifth hexadecimal digit.
pub length-allocate_hex :
    (c : ℕ)
    → 1296 ≤ c
    → c < 2 ^ 64
    → (c ≤ 66830 → length (allocate c) ≡ 8) × (66831 ≤ c → 8 < length (allocate c))
length-allocate_hex c h k =
    let (_, _, short, long) = length-format_04x (c - 1295) in
    rw (allocate_hex c h k)
      (λ le. omega (arith, short (omega arith)), λ le. omega (arith, long (omega arith)))
