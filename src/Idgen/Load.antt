-- ===== src/Idgen/Load.antt =====
-- `init` of internal/idgen/wordlist.go on the embedded word list.
use mcp_chain.Base.{◌≡◌, refl, ap, List, [], Bytes, str_eq}
use mcp_chain.Idgen.Words.{
  Parsed, ok, panic, parse_and_validate, replace_crlf, trim_newlines, split_lines, validate_lines,
  cut_tab, is_valid_word, has_prefix, contains,
}
use mcp_chain.Idgen.EffList.{raw_wordlist, eff_words}
use mcp_chain.Idgen.WordsSound.{IsWordlist, parse_and_validate-IsWordlist}

pub raw_wordlist-eff_words : parse_and_validate raw_wordlist ≡ ok eff_words
unfolding parse_and_validate raw_wordlist replace_crlf trim_newlines split_lines validate_lines
    cut_tab is_valid_word has_prefix contains str_eq
raw_wordlist-eff_words = refl

-- A panic of `init` would leave no list.
abbrev parsed_words : Parsed → List Bytes
parsed_words (ok ws) = ws
parsed_words (panic p) = []

-- The package variable `words`, which `init` sets.
unfoldable pub words : List Bytes
words = parsed_words (parse_and_validate raw_wordlist)

pub words-eff_words : words ≡ eff_words
unfolding words
words-eff_words = ap parsed_words raw_wordlist-eff_words

pub words-IsWordlist : IsWordlist words
words-IsWordlist =
    rw words-eff_words (parse_and_validate-IsWordlist raw_wordlist eff_words raw_wordlist-eff_words)
