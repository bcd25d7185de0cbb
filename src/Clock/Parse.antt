-- ===== src/Clock/Parse.antt =====
-- `parseRFC3339` of the package time, which `Time.UnmarshalJSON` tries first, and `Date`.
use mcp_chain.Base.{
  ℕ, zero, suc, ◌+◌, ◌-◌, ◌*◌, ◌^◌, Bytes, Bool, Option, none, some, [], ◌∷◌, ◌&&◌, ◌||◌, length,
  take, drop, get_or, ltb, leb, ◌==◌, if◌then◌else◌,
}
use mcp_chain.Base.Chain.{◌>>=◌}
use mcp_chain.Clock.Calendar.{Civil, days_from_civil, days_in, year_zero}
use mcp_chain.Clock.Format.{Reading, billion}
use mcp_chain.Json.Scan.{is_digit}
use mcp_chain.Store.Schema.{Time}

-- `s[i:j]`.
abbrev pub slice : ℕ → ℕ → Bytes → Bytes
slice i j s = take (j - i) (drop i s)

unfoldable pub digits_value : Bytes → ℕ → Option ℕ
digits_value [] x = some x
digits_value (c ∷ s) x =
    let rest = digits_value s (x * 10 + (c - b'0')) in if is_digit c then rest else none

-- The function `parseUint` within `parseRFC3339`.
unfoldable pub ranged : Bytes → ℕ → ℕ → Option ℕ
unfolding digits_value
ranged s lo hi = do x ← digits_value s 0; if leb lo x && leb x hi then some x else none

-- The digits at the front, and what follows them.
unfoldable pub span_digits : Bytes → Bytes × Bytes
span_digits [] = ([], [])
span_digits (c ∷ s) =
    let rest = span_digits s in if is_digit c then (c ∷ rest.0, rest.1) else ([], c ∷ s)

-- The first `w` digits of a fraction, as a count of its `w`-th places.
unfoldable pub fraction_value : ℕ → Bytes → ℕ
fraction_value zero s = 0
fraction_value (suc w) [] = 0
fraction_value (suc w) (c ∷ s) = (c - b'0') * 10 ^ w + fraction_value w s

-- The nanoseconds, and what follows the fraction.
unfoldable pub parse_fraction : Bytes → ℕ × Bytes
unfolding span_digits fraction_value
parse_fraction [] = (0, [])
parse_fraction (c ∷ s) =
    if (c == b'.') && is_digit (get_or s 0 0)
    then (fraction_value 9 (span_digits s).0, (span_digits s).1)
    else (0, c ∷ s)

-- `Date`, in UTC.
unfoldable pub moment : Reading → Time
moment r =
    (days_from_civil r.date * 86400 + r.hour * 3600 + r.minute * 60 + r.second) * billion
    + r.nanosecond

-- The zone behind a time that has been read as one in UTC.
unfoldable pub parse_zone : Bytes → Time → Option Time
unfolding ranged
parse_zone s t =
    if (length s == 1) && (get_or s 0 0 == b'Z')
    then some t
    else if (length s == 6)
        && (((get_or s 0 0 == b'-') || (get_or s 0 0 == b'+')) && (get_or s 3 0 == b':'))
    then (do
      hr ← ranged (slice 1 3 s) 0 23
      mm ← ranged (slice 4 6 s) 0 59
      some (
          if get_or s 0 0 == b'-'
          then t + (hr * 60 + mm) * 60 * billion
          else t - (hr * 60 + mm) * 60 * billion))
    else none

-- `s[4] == '-' && s[7] == '-' && s[10] == 'T' && s[13] == ':' && s[16] == ':'`.
abbrev pub has_marks : Bytes → Bool
has_marks s =
    (get_or s 4 0 == b'-')
    && ((get_or s 7 0 == b'-')
        && ((get_or s 10 0 == b'T') && ((get_or s 13 0 == b':') && (get_or s 16 0 == b':'))))

-- What follows the test of the length.
unfoldable pub parse_fields : Bytes → Option Time
parse_fields s = do
  year ← ranged (slice 0 4 s) 0 9999
  month ← ranged (slice 5 7 s) 1 12
  day ← ranged (slice 8 10 s) 1 (days_in (year_zero + year) month)
  hour ← ranged (slice 11 13 s) 0 23
  minute ← ranged (slice 14 16 s) 0 59
  second ← ranged (slice 17 19 s) 0 59
  let fraction = parse_fraction (drop 19 s)
  let date : Civil = record { year = year_zero + year; month = month; day = day }
  let r : Reading = record {
    date = date;
    hour = hour;
    minute = minute;
    second = second;
    nanosecond = fraction.0;
  }
  if has_marks s then parse_zone fraction.1 (moment r) else none

unfoldable pub parse_rfc3339 : Bytes → Option Time
parse_rfc3339 s = if ltb (length s) 19 then none else parse_fields s
