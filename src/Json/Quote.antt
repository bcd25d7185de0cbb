-- ===== src/Json/Quote.antt =====
-- The strings of `encoding/json` (internal/store/store.go): `appendString`, with the escapes for HTML, and
-- `unquote`.
use mcp_chain.Base.{
  ℕ, zero, suc, ◌+◌, ◌-◌, ◌*◌, ◌/◌, ◌%◌, Bytes, codes, Bool, true, false, [], ◌∷◌, ◌++◌, ◌&&◌, ◌||◌,
  ◌==◌, leb, ltb, get_or, if◌then◌else◌,
}
use mcp_chain.Idgen.Hex.{hex_digit}

abbrev pub within : ℕ → ℕ → ℕ → Bool
within lo hi c = leb lo c && leb c hi

abbrev pub is_tail : ℕ → Bool
is_tail c = within 128 191 c

-- The length of the UTF-8 sequence that starts with the byte `b` from 128 on, or 0 if there is none.
unfoldable pub rune_size_of : ℕ → ℕ → ℕ → ℕ → ℕ
rune_size_of b c1 c2 c3 =
    if within 194 223 b
    then (if is_tail c1 then 2 else 0)
    else if within 224 239 b
    then (if within (if b == 224 then 160 else 128) (if b == 237 then 159 else 191) c1 && is_tail c2
        then 3
        else 0)
    else if within 240 244 b
    then (if within (if b == 240 then 144 else 128) (if b == 244 then 143 else 191) c1
          && (is_tail c2 && is_tail c3)
        then 4
        else 0)
    else 0

unfoldable pub rune_size : ℕ → Bytes → ℕ
unfolding rune_size_of
rune_size b s = rune_size_of b (get_or s 0 0) (get_or s 1 0) (get_or s 2 0)

-- A byte below 128.
unfoldable pub escape_byte : ℕ → Bytes
unfolding hex_digit
escape_byte b =
    if (b == b'"') || (b == b'\\')
    then b'\\' ∷ b ∷ []
    else if b == 8
    then codes "\\b"
    else if b == 12
    then codes "\\f"
    else if b == 10
    then codes "\\n"
    else if b == 13
    then codes "\\r"
    else if b == 9
    then codes "\\t"
    else if ltb b 32 || (b == b'<') || (b == b'>') || (b == b'&')
    then b'\\' ∷ b'u' ∷ b'0' ∷ b'0' ∷ hex_digit (b / 16) ∷ hex_digit (b % 16) ∷ []
    else b ∷ []

-- U+2028 or U+2029.
unfoldable pub is_separator : ℕ → Bytes → Bool
is_separator b s =
    (b == 226) && ((get_or s 0 0 == 128) && ((get_or s 1 0 == 168) || (get_or s 1 0 == 169)))

-- What is written at the first byte of a character.
unfoldable pub escape_front : ℕ → Bytes → Bytes
unfolding escape_byte is_separator rune_size
escape_front b s =
    if ltb b 128
    then escape_byte b
    else if rune_size b s == 0
    then codes "\\ufffd"
    else if is_separator b s
    then codes "\\u202" ++ ((get_or s 1 0 - 168 + b'8') ∷ [])
    else b ∷ []

-- How many of the following bytes belong to that character.
unfoldable pub following : ℕ → Bytes → ℕ
unfolding rune_size
following b s = if ltb b 128 then 0 else rune_size b s - 1

-- The text, whose first `k` bytes belong to a character that has begun, and are copied if `keep`.
unfoldable pub escape_from : Bool → ℕ → Bytes → Bytes
unfolding escape_front following is_separator
escape_from keep k [] = []
escape_from keep (suc k) (b ∷ s) =
    let rest = escape_from keep k s in if keep then b ∷ rest else rest
escape_from keep zero (b ∷ s) =
    escape_front b s ++ escape_from (if is_separator b s then false else true) (following b s) s

unfoldable pub escape : Bytes → Bytes
unfolding escape_from
escape s = escape_from true 0 s

-- `appendString`.
abbrev pub quote : Bytes → Bytes
quote s = b'"' ∷ (escape s ++ (b'"' ∷ []))

-- Where `unquote` stands: at the start of a character, within one of which `k` bytes are to come, behind
-- a backslash, within the four digits of `\u`, of which `k` follow behind the next one, and behind the
-- high half of a surrogate pair. `high` is the high half that waits for its low half, or 0.
pub data Unquoting : Type 0 where
  plain : Unquoting
  copying : ℕ → Unquoting
  slashed : ℕ → Unquoting
  digits : ℕ → ℕ → ℕ → Unquoting
  half : ℕ → Unquoting

abbrev pub replacement : Bytes
replacement = 239 ∷ 191 ∷ 189 ∷ []

-- `utf8.EncodeRune`, for a code point that is no surrogate.
unfoldable pub encode_rune : ℕ → Bytes
encode_rune r =
    if ltb r 128
    then r ∷ []
    else if ltb r 2048
    then (192 + r / 64) ∷ (128 + r % 64) ∷ []
    else if ltb r 65536
    then (224 + r / 4096) ∷ (128 + (r / 64) % 64) ∷ (128 + r % 64) ∷ []
    else (240 + r / 262144) ∷ (128 + (r / 4096) % 64) ∷ (128 + (r / 64) % 64) ∷ (128 + r % 64) ∷ []

abbrev pub hex_digit_value : ℕ → ℕ
hex_digit_value c =
    if leb c b'9' then c - b'0' else if leb c b'F' then c - b'A' + 10 else c - b'a' + 10

abbrev pub unescaped : ℕ → ℕ
unescaped c =
    if c == b'b'
    then 8
    else if c == b'f'
    then 12
    else if c == b'n'
    then 10
    else if c == b'r'
    then 13
    else if c == b't'
    then 9
    else c

-- The replacement of a high half that stays alone.
abbrev pub alone : ℕ → Bytes
alone high = if high == 0 then [] else replacement

-- A byte at the start of a character: what is written, and where that leads.
unfoldable pub plain_step : ℕ → Bytes → Bytes × Unquoting
unfolding rune_size
plain_step b s =
    if b == b'\\'
    then ([], slashed 0)
    else if ltb b 128
    then (b ∷ [], plain)
    else if rune_size b s == 0
    then (replacement, plain)
    else (b ∷ [], copying (rune_size b s - 1))

-- A code unit that `\u` gives, behind a high half or none.
unfoldable pub unit_step : ℕ → ℕ → Bytes × Unquoting
unfolding encode_rune
unit_step high r =
    if within 55296 56319 r
    then (alone high, half r)
    else if within 56320 57343 r
    then (
      (if high == 0
          then replacement
          else encode_rune ((high - 55296) * 1024 + (r - 56320) + 65536)),
      plain,
    )
    else (alone high ++ encode_rune r, plain)

unfoldable pub unquote_step : Unquoting → ℕ → Bytes → Bytes × Unquoting
unfolding plain_step unit_step
unquote_step plain b s = plain_step b s
unquote_step (copying zero) b s = plain_step b s
unquote_step (copying (suc k)) b s = (b ∷ [], copying k)
unquote_step (slashed high) b s =
    if b == b'u' then ([], digits 3 0 high) else (alone high ++ (unescaped b ∷ []), plain)
unquote_step (digits zero acc high) b s = unit_step high (acc * 16 + hex_digit_value b)
unquote_step (digits (suc k) acc high) b s = ([], digits k (acc * 16 + hex_digit_value b) high)
unquote_step (half high) b s =
    if b == b'\\'
    then ([], slashed high)
    else (replacement ++ (plain_step b s).0, (plain_step b s).1)

abbrev pub unquote_end : Unquoting → Bytes
unquote_end plain = []
unquote_end (copying k) = []
unquote_end (slashed high) = []
unquote_end (digits k acc high) = []
unquote_end (half high) = replacement

unfoldable pub unquote_from : Unquoting → Bytes → Bytes
unfolding unquote_step
unquote_from u [] = unquote_end u
unquote_from u (b ∷ s) = let next = unquote_step u b s in next.0 ++ unquote_from next.1 s

-- `unquote` of the text of a string that the scanner has let through.
unfoldable pub unquote : Bytes → Bytes
unfolding unquote_from
unquote raw = unquote_from plain raw
