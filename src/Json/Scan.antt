-- ===== src/Json/Scan.antt =====
-- The scanner of `json.Unmarshal` (internal/store/store.go): one step for each byte, with the containers
-- that are open on a stack. A string or a number is kept as its text.
use mcp_chain.Base.{
  ℕ, zero, suc, Bytes, codes, Bool, true, false, Option, none, some, List, [], ◌∷◌, ◌&&◌, ◌||◌,
  ◌==◌, leb, ltb, length, if◌then◌else◌,
}

-- A JSON value; the elements of an array and the members of an object are kept with the last first.
mutual
  pub data Value : Type 0 where
    null : Value
    boolean : Bool → Value
    number quoted : Bytes → Value
    array : Values → Value
    object : Members → Value

  pub data Values : Type 0 where
    no_values : Values
    element : Value → Values → Values

  pub data Members : Type 0 where
    no_members : Members
    member : Bytes → Value → Members → Members

-- An open array with its elements, and an open object with its members and the key of the next one.
pub data Frame : Type 0 where
  in_array : Values → Frame
  in_object : Members → Bytes → Frame

-- What the end of a string makes: a key of an object, or a value.
pub data Target : Type 0 where
  as_key : Members → List Frame → Target
  as_value : List Frame → Target

-- Which part of a number has been read last.
pub data Part : Type 0 where
  sign_part zero_part int_part dot_part frac_part e_part e_sign_part e_int_part : Part

-- The state behind a number of bytes. The text of a string or number has its last byte first.
pub data Scan : Type 0 where
  begins begins_or_closes : List Frame → Scan
  key_or_closes : List Frame → Scan
  key_wanted : Members → List Frame → Scan
  colon_wanted : Bytes → Members → List Frame → Scan
  in_string in_escape : Target → Bytes → Scan
  in_hex : ℕ → Target → Bytes → Scan
  in_number : Part → Bytes → List Frame → Scan
  in_literal : Bytes → Value → List Frame → Scan
  after : Value → List Frame → Scan
  failed : Scan

abbrev pub is_space : ℕ → Bool
is_space c = (c == 32) || (c == 9) || (c == 10) || (c == 13)

abbrev pub is_digit : ℕ → Bool
is_digit c = leb b'0' c && leb c b'9'

abbrev pub is_hex : ℕ → Bool
is_hex c = is_digit c || (leb b'a' c && leb c b'f') || (leb b'A' c && leb c b'F')

abbrev pub back_onto : Bytes → Bytes → Bytes
back_onto [] acc = acc
back_onto (c ∷ s) acc = back_onto s (c ∷ acc)

abbrev pub closed : Target → Bytes → Scan
closed (as_key ms st) acc = colon_wanted (back_onto acc []) ms st
closed (as_value st) acc = after (quoted (back_onto acc [])) st

-- `maxNestingDepth`.
abbrev pub max_depth : ℕ
max_depth = 10000

-- The first byte of a value.
unfoldable pub begin_value : List Frame → ℕ → Scan
begin_value st c =
    if is_space c
    then begins st
    else if c == b'{'
    then (if ltb (length st) max_depth then key_or_closes st else failed)
    else if c == b'['
    then (if ltb (length st) max_depth then begins_or_closes (in_array no_values ∷ st) else failed)
    else if c == b'"'
    then in_string (as_value st) []
    else if c == b'-'
    then in_number sign_part (c ∷ []) st
    else if c == b'0'
    then in_number zero_part (c ∷ []) st
    else if is_digit c
    then in_number int_part (c ∷ []) st
    else if c == b't'
    then in_literal (codes "rue") (boolean true) st
    else if c == b'f'
    then in_literal (codes "alse") (boolean false) st
    else if c == b'n'
    then in_literal (codes "ull") null st
    else failed

abbrev pub begin_or_close : List Frame → ℕ → Scan
begin_or_close [] c = failed
begin_or_close (in_object ms k ∷ st) c = failed
begin_or_close (in_array vs ∷ st) c =
    if c == b']' then after (array vs) st else begin_value (in_array vs ∷ st) c

-- What follows a value: the end, or a comma or bracket of its container.
unfoldable pub after_value : Value → List Frame → ℕ → Scan
after_value v [] c = if is_space c then after v [] else failed
after_value v (in_array vs ∷ st) c =
    if is_space c
    then after v (in_array vs ∷ st)
    else if c == b','
    then begins (in_array (element v vs) ∷ st)
    else if c == b']'
    then after (array (element v vs)) st
    else failed
after_value v (in_object ms k ∷ st) c =
    if is_space c
    then after v (in_object ms k ∷ st)
    else if c == b','
    then key_wanted (member k v ms) st
    else if c == b'}'
    then after (object (member k v ms)) st
    else failed

abbrev pub in_key_place : Members → List Frame → ℕ → Scan → Scan → Scan
in_key_place ms st c space other =
    if is_space c then space else if c == b'"' then in_string (as_key ms st) [] else other

-- A byte within a number.
unfoldable pub next_part : Part → Bytes → List Frame → ℕ → Scan
unfolding after_value
next_part sign_part acc st c =
    if c == b'0'
    then in_number zero_part (c ∷ acc) st
    else if is_digit c
    then in_number int_part (c ∷ acc) st
    else failed
next_part zero_part acc st c =
    if c == b'.'
    then in_number dot_part (c ∷ acc) st
    else if (c == b'e') || (c == b'E')
    then in_number e_part (c ∷ acc) st
    else after_value (number (back_onto acc [])) st c
next_part int_part acc st c =
    if is_digit c
    then in_number int_part (c ∷ acc) st
    else if c == b'.'
    then in_number dot_part (c ∷ acc) st
    else if (c == b'e') || (c == b'E')
    then in_number e_part (c ∷ acc) st
    else after_value (number (back_onto acc [])) st c
next_part dot_part acc st c = if is_digit c then in_number frac_part (c ∷ acc) st else failed
next_part frac_part acc st c =
    if is_digit c
    then in_number frac_part (c ∷ acc) st
    else if (c == b'e') || (c == b'E')
    then in_number e_part (c ∷ acc) st
    else after_value (number (back_onto acc [])) st c
next_part e_part acc st c =
    if (c == b'+') || (c == b'-')
    then in_number e_sign_part (c ∷ acc) st
    else if is_digit c
    then in_number e_int_part (c ∷ acc) st
    else failed
next_part e_sign_part acc st c = if is_digit c then in_number e_int_part (c ∷ acc) st else failed
next_part e_int_part acc st c =
    if is_digit c
    then in_number e_int_part (c ∷ acc) st
    else after_value (number (back_onto acc [])) st c

abbrev pub next_of_literal : Bytes → Value → List Frame → ℕ → Scan
next_of_literal [] v st c = failed
next_of_literal (d ∷ []) v st c = if c == d then after v st else failed
next_of_literal (d ∷ e ∷ ds) v st c = if c == d then in_literal (e ∷ ds) v st else failed

abbrev pub next_hex : ℕ → Target → Bytes → Scan
next_hex zero t acc = in_string t acc
next_hex (suc k) t acc = in_hex k t acc

-- One byte.
unfoldable pub scan_step : Scan → ℕ → Scan
unfolding begin_value after_value next_part
scan_step (begins st) c = begin_value st c
scan_step (begins_or_closes st) c = if is_space c then begins_or_closes st else begin_or_close st c
scan_step (key_or_closes st) c =
    in_key_place no_members st c (key_or_closes st)
      (if c == b'}' then after (object no_members) st else failed)
scan_step (key_wanted ms st) c = in_key_place ms st c (key_wanted ms st) failed
scan_step (colon_wanted k ms st) c =
    if is_space c
    then colon_wanted k ms st
    else if c == b':'
    then begins (in_object ms k ∷ st)
    else failed
scan_step (in_string t acc) c =
    if c == b'"'
    then closed t acc
    else if c == b'\\'
    then in_escape t (c ∷ acc)
    else if ltb c 32
    then failed
    else in_string t (c ∷ acc)
scan_step (in_escape t acc) c =
    if (c == b'b')
      || (c == b'f')
      || (c == b'n')
      || (c == b'r')
      || (c == b't')
      || (c == b'\\')
      || (c == b'/')
      || (c == b'"')
    then in_string t (c ∷ acc)
    else if c == b'u'
    then in_hex 3 t (c ∷ acc)
    else failed
scan_step (in_hex k t acc) c = if is_hex c then next_hex k t (c ∷ acc) else failed
scan_step (in_number p acc st) c = next_part p acc st c
scan_step (in_literal ds v st) c = next_of_literal ds v st c
scan_step (after v st) c = after_value v st c
scan_step failed c = failed

unfoldable pub scan : Scan → Bytes → Scan
scan s [] = s
scan s (c ∷ text) = scan (scan_step s c) text

abbrev pub scanned : Scan → Option Value
scanned (after v []) = some v
scanned (after v (f ∷ st)) = none
scanned (begins st) = none
scanned (begins_or_closes st) = none
scanned (key_or_closes st) = none
scanned (key_wanted ms st) = none
scanned (colon_wanted k ms st) = none
scanned (in_string t acc) = none
scanned (in_escape t acc) = none
scanned (in_hex k t acc) = none
scanned (in_number p acc st) = none
scanned (in_literal ds v st) = none
scanned failed = none

-- The value of a text, if it is JSON; the end counts as a space.
unfoldable pub parse : Bytes → Option Value
unfolding scan scan_step
parse text = scanned (scan_step (scan (begins []) text) 32)
