-- ===== src/Clock/Format.antt =====
-- `Time.Date`, `Time.Clock` and `appendFormatRFC3339` of the package time, in UTC, and `Time.MarshalJSON`
-- without its quotes.
use mcp_chain.Base.{
  ℕ, zero, suc, ◌+◌, ◌-◌, ◌/◌, ◌%◌, ◌^◌, Bytes, codes, Bool, [], ◌∷◌, ◌++◌, ◌||◌, ltb, ◌==◌,
  if◌then◌else◌, true, false,
}
use mcp_chain.Clock.Calendar.{Civil, civil_from_days, year_zero}
use mcp_chain.Json.Number.{decimal}
use mcp_chain.Store.Errors.{Result, ok, err, failed, marshal}
use mcp_chain.Store.Schema.{Time}

abbrev pub billion : ℕ
billion = 1000000000

-- What a calendar and a clock show.
pub record Reading : Type 0 where
  pub date : Civil
  pub hour : ℕ
  pub minute : ℕ
  pub second : ℕ
  pub nanosecond : ℕ

unfoldable pub clock_reading : Time → Reading
clock_reading t = record {
  date = civil_from_days (t / billion / 86400);
  hour = t / billion % 86400 / 3600;
  minute = t / billion % 3600 / 60;
  second = t / billion % 60;
  nanosecond = t % billion;
}

-- `appendInt(b, n, 2)` and `appendInt(b, n, 4)`, in front of what follows.
abbrev pub two : ℕ → Bytes → Bytes
two n out = (b'0' + n / 10) ∷ (b'0' + n % 10) ∷ out

abbrev pub four : ℕ → Bytes → Bytes
four n out = two (n / 100) (two (n % 100) out)

-- The digits of a fraction that has `w` of them, without the zeros at its end.
unfoldable pub fraction_digits : ℕ → ℕ → Bytes
fraction_digits zero n = []
fraction_digits (suc w) n =
    let rest = fraction_digits w (n % 10 ^ w) in if n == 0 then [] else (b'0' + n / 10 ^ w) ∷ rest

-- `appendNano(b, nanosec, stdFracSecond9)`.
unfoldable pub append_nano : ℕ → Bytes
append_nano n = if n == 0 then [] else b'.' ∷ fraction_digits 9 n

-- What `appendFormatRFC3339(b, nanos)` writes behind the year.
abbrev pub append_rest : Bool → Reading → Bytes
append_rest nanos r =
    b'-'
    ∷ two r.date.month (
        b'-'
        ∷ two r.date.day (
            b'T'
            ∷ two r.hour (
                b':'
                ∷ two r.minute (
                    b':'
                    ∷ two r.second
                        ((if nanos then append_nano r.nanosecond else []) ++ (b'Z' ∷ []))))))

-- `appendFormatRFC3339(b, nanos)`, for the years 0 to 9999.
unfoldable pub append_rfc3339 : Bool → Reading → Bytes
append_rfc3339 nanos r = four (r.date.year - year_zero) (append_rest nanos r)

-- `appendInt(b, n, 4)` for a number that is not negative.
unfoldable pub append_four : ℕ → Bytes → Bytes
append_four n out = if ltb n 10000 then four n out else decimal n ++ out

-- `appendInt(b, year, 4)`.
unfoldable pub append_year : ℕ → Bytes → Bytes
append_year y out =
    if ltb y year_zero
    then b'-' ∷ append_four (year_zero - y) out
    else append_four (y - year_zero) out

-- `Time.Format` with the layout of RFC 3339 and no fraction.
unfoldable pub format_rfc3339 : Time → Bytes
format_rfc3339 t = append_year (clock_reading t).date.year (append_rest false (clock_reading t))

-- `Time.MarshalJSON`, without the quotes.
unfoldable pub print_time : Time → Result Bytes
print_time t =
    if ltb (clock_reading t).date.year year_zero
      || ltb (year_zero + 9999) (clock_reading t).date.year
    then err (failed marshal (codes "Time.MarshalJSON: year outside of range [0,9999]"))
    else ok (append_rfc3339 true (clock_reading t))
