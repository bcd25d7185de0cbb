-- ===== src/Tests/Idgen.antt =====
-- Tests of the word list and the allocator, and their theorems at concrete counters.
use mcp_chain.Base.{◌≡◌, refl, codes, arith, length, ◌≤◌, ℕ, ◌<◌}
use mcp_chain.Idgen.Words.{
  panic, line_count, parse_and_validate, replace_crlf, trim_newlines, split_lines,
}
use mcp_chain.Idgen.Load.{raw_wordlist-eff_words, words-eff_words}
use mcp_chain.Idgen.WordsSound.{IsWordlist, parse_and_validate-IsWordlist}
use mcp_chain.Idgen.Allocate.Laws.{length-allocate_hex, allocate-injective}
use mcp_chain.Idgen.Allocate.{allocate}
use mcp_chain.Idgen.EffList.{eff_words, raw_wordlist}
use mcp_chain.Idgen.Hex.{format_04x}

first_word : allocate 0 ≡ codes "acid"
unfolding allocate
first_word = rw words-eff_words

last_word : allocate 1295 ≡ codes "zoom"
unfolding allocate
last_word = rw words-eff_words

first_hex : allocate 1296 ≡ codes "hex-0001"
unfolding allocate format_04x
first_hex = rw words-eff_words

-- The counter that the comment of `Allocate` gives as the last with four digits has five.
first_wide_hex : allocate 66831 ≡ codes "hex-10000"
unfolding allocate format_04x
first_wide_hex = rw words-eff_words

too_short : parse_and_validate (codes "1111\tacid\n") ≡ panic (line_count 1)
unfolding parse_and_validate replace_crlf trim_newlines split_lines
too_short = refl

allocate-injective_example : ◌≡◌ {A = ℕ} 7 7
allocate-injective_example = allocate-injective 7 7 (omega arith) (omega arith) refl

length-allocate_hex_example :
    (66830 ≤ 66830 → length (allocate 66830) ≡ 8) × (66831 ≤ 66830 → 8 < length (allocate 66830))
length-allocate_hex_example = length-allocate_hex 66830 (omega arith) (omega arith)

parse_and_validate-IsWordlist_example : IsWordlist eff_words
parse_and_validate-IsWordlist_example =
    parse_and_validate-IsWordlist raw_wordlist eff_words raw_wordlist-eff_words
