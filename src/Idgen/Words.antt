-- ===== src/Idgen/Words.antt =====
-- internal/idgen/wordlist.go: splitting and validating the embedded word list.
use mcp_chain.Base.{
  ℕ, suc, Bool, true, false, ◌&&◌, ◌||◌, Option, none, some, List, [], ◌∷◌, leb, ◌==◌,
  if◌then◌else◌, length, Bytes, codes, str_eq,
}

-- `wordlistSize`.
abbrev pub wordlist_size : ℕ
wordlist_size = 1296

-- Where `parseAndValidate` panics, with the line number that its message shows.
pub data Panic : Type 0 where
  line_count : ℕ → Panic
  missing_tab empty_word invalid_word hex_prefix duplicate_word : ℕ → Panic

pub data Parsed : Type 0 where
  ok : List Bytes → Parsed
  panic : Panic → Parsed

-- `strings.ReplaceAll(raw, "\r\n", "\n")`.
unfoldable pub replace_crlf : Bytes → Bytes
replace_crlf [] = []
replace_crlf (c ∷ []) = c ∷ []
replace_crlf (c ∷ d ∷ rest) =
    let skip = d ∷ replace_crlf rest in
    let keep = c ∷ replace_crlf (d ∷ rest) in if (c == b'\r') && (d == b'\n') then skip else keep

-- `strings.TrimRight(raw, "\n")`: a line feed goes where nothing but line feeds follows.
unfoldable pub trim_newlines : Bytes → Bytes
trim_newlines [] = []
trim_newlines (c ∷ rest) = elim (trim_newlines rest) [
  | [] ↦ if c == b'\n' then [] else c ∷ []
  | d ∷ more ↦ c ∷ d ∷ more
]

-- Puts a byte in front of the first line.
abbrev pub onto_first : ℕ → List Bytes → List Bytes
onto_first c [] = (c ∷ []) ∷ []
onto_first c (line ∷ lines) = (c ∷ line) ∷ lines

-- `strings.Split(s, "\n")`.
unfoldable pub split_lines : Bytes → List Bytes
split_lines [] = [] ∷ []
split_lines (c ∷ rest) =
    let lines = split_lines rest in if c == b'\n' then [] ∷ lines else onto_first c lines

-- `_, word, ok := strings.Cut(line, "\t")`: what stands behind the first tab.
unfoldable pub cut_tab : Bytes → Option Bytes
cut_tab [] = none
cut_tab (c ∷ rest) = let later = cut_tab rest in if c == b'\t' then some rest else later

-- `isValidWord`.
unfoldable pub is_valid_word : Bytes → Bool
is_valid_word [] = true
is_valid_word (r ∷ rest) =
    let others = is_valid_word rest in
    if (leb b'a' r && leb r b'z') || (r == b'-') then others else false

-- `strings.HasPrefix(word, prefix)`.
unfoldable pub has_prefix : Bytes → Bytes → Bool
has_prefix word [] = true
has_prefix [] (p ∷ prefix) = false
has_prefix (c ∷ word) (p ∷ prefix) =
    let rest = has_prefix word prefix in if c == p then rest else false

abbrev pub hex_dash : Bytes
hex_dash = codes "hex-"

-- `_, dup := seen[word]`.
unfoldable pub contains : Bytes → List Bytes → Bool
contains word [] = false
contains word (w ∷ seen) = let rest = contains word seen in if str_eq w word then true else rest

abbrev pub emit : Bytes → Parsed → Parsed
emit word (ok words) = ok (word ∷ words)
emit word (panic p) = panic p

-- The loop over the lines, with the line number, and `seen` as the words so far, newest first.
unfoldable pub validate_lines : ℕ → List Bytes → List Bytes → Parsed
validate_lines n seen [] = ok []
validate_lines n seen (line ∷ lines) = elim (cut_tab line) [
  | none ↦ panic (missing_tab n)
  | some word ↦
      let rest = validate_lines (suc n) (word ∷ seen) lines in
      if str_eq word []
      then panic (empty_word n)
      else if is_valid_word word
      then (if has_prefix word hex_dash
          then panic (hex_prefix n)
          else if contains word seen
          then panic (duplicate_word n)
          else emit word rest)
      else panic (invalid_word n)
]

-- `parseAndValidate`.
unfoldable pub parse_and_validate : Bytes → Parsed
parse_and_validate raw =
    let lines = split_lines (trim_newlines (replace_crlf raw)) in
    if length lines == wordlist_size
    then validate_lines 1 [] lines
    else panic (line_count (length lines))
