-- ===== src/Clock/RoundTrip.antt =====
-- Lemmas on `Time.UnmarshalJSON` and the text of `Time.MarshalJSON` (package time).
use native.Mathlib.Nat.{mod-lt}
use native.Mathlib.Decide.{dec_lt}
use mcp_chain.Base.{
  ℕ, zero, suc, ◌+◌, ◌-◌, ◌/◌, ◌%◌, ◌^◌, ◌≤◌, ◌<◌, ◌≡◌, refl, ap, ◌∙◌, arith, true, false, Bytes,
  some, [], ◌∷◌, ◌++◌, All, ltb, length, All-append, Bool, if◌then◌else◌,
}
use mcp_chain.Clock.Format.{
  two, fraction_digits, Reading, append_nano, append_rfc3339, clock_reading, billion, print_time,
  format_rfc3339, append_year, append_four,
}
use mcp_chain.Clock.Parse.{parse_rfc3339, moment, parse_zone, parse_fields}
use mcp_chain.Clock.CalendarLaws.{IsDate, days_from_civil-civil_from_days, civil_from_days-IsDate}
use mcp_chain.Store.Schema.{Time}
use mcp_chain.Clock.Calendar.{year_zero, days_in}
use mcp_chain.Store.Marshal.{is_plain}
use mcp_chain.Store.Errors.{ok}
use mcp_chain.Clock.Fraction.{
  parse_fraction-append_nano, ranged-four, ranged-two, append_nano_next, no_fraction,
  append_nano_end, fraction_next, lead_digit, pow_pos, fraction_end,
}

-- The bounds of a reading whose year has four digits.
record IsReading (r : Reading) : Type 0 where
  is_date : IsDate r.date
  first_year : year_zero ≤ r.date.year
  last_year : r.date.year ≤ year_zero + 9999
  hour : r.hour < 24
  minute : r.minute < 60
  second : r.second < 60
  nanosecond : r.nanosecond < billion

days_in_bound : (y m : ℕ) → days_in y m ≤ 31
unfolding days_in
days_in_bound y m = ground arith

long : (r : Reading) → ltb (length (append_rfc3339 true r)) 19 ≡ false
unfolding append_rfc3339
long r = ground arith

utc : (t : Time) → parse_zone (b'Z' ∷ []) t ≡ some t
unfolding parse_zone
utc t = refl

parse_fields-append_rfc3339 :
    (r : Reading) → IsReading r → parse_fields (append_rfc3339 true r) ≡ some (moment r)
unfolding parse_fields append_rfc3339
parse_fields-append_rfc3339 r h =
    let date = h.is_date in
    let y = r.date.year - year_zero in
    let year : year_zero + y ≡ r.date.year = omega arith in
    let short = days_in_bound r.date.year r.date.month in
    rw
      (
        ranged-four y 9999 (omega arith) (omega arith),
        ranged-two r.date.month 1 12 (omega arith) (omega arith) (omega arith),
        year,
        ranged-two r.date.day 1 (days_in r.date.year r.date.month) (omega arith) (omega arith)
            (omega arith),
        ranged-two r.hour 0 23 (omega arith) (omega arith) (omega arith),
        ranged-two r.minute 0 59 (omega arith) (omega arith) (omega arith),
        ranged-two r.second 0 59 (omega arith) (omega arith) (omega arith),
        parse_fraction-append_nano r.nanosecond h.nanosecond,
      )
      (utc (moment r))

parse_rfc3339-append_rfc3339 :
    (r : Reading) → IsReading r → parse_rfc3339 (append_rfc3339 true r) ≡ some (moment r)
unfolding parse_rfc3339
parse_rfc3339-append_rfc3339 r h = rw (long r) (parse_fields-append_rfc3339 r h)

moment-clock_reading : (t : Time) → moment (clock_reading t) ≡ t
unfolding moment clock_reading
moment-clock_reading t = rw (days_from_civil-civil_from_days (t / billion / 86400)) (omega arith)

clock_reading-IsReading :
    (t : Time)
    → year_zero ≤ (clock_reading t).date.year
    → (clock_reading t).date.year ≤ year_zero + 9999
    → IsReading (clock_reading t)
unfolding clock_reading
clock_reading-IsReading t first last = record {
  is_date = civil_from_days-IsDate (t / billion / 86400);
  first_year = first;
  last_year = last;
  hour = omega arith;
  minute = omega arith;
  second = omega arith;
  nanosecond = omega arith;
}

abbrev IsPlain : Bytes → Type 0
IsPlain = All (λ c. is_plain c ≡ true)

plain_digit : (d : ℕ) → d < 10 → is_plain (b'0' + d) ≡ true
plain_digit d h = ground arith

two-IsPlain : (n : ℕ) (out : Bytes) → n < 100 → IsPlain out → IsPlain (two n out)
two-IsPlain n out h plain =
    (plain_digit (n / 10) (omega arith), (plain_digit (n % 10) (omega arith), plain))

fraction_digits-IsPlain : (w n : ℕ) → n < 10 ^ w → IsPlain (fraction_digits w n)
fraction_digits-IsPlain zero n h = rw (no_fraction n) tt
fraction_digits-IsPlain (suc w) n h = elim (dec_lt 0 n) [
  | yes pos ↦ rw (fraction_next w n pos) (
    plain_digit (n / 10 ^ w) (lead_digit w n h),
    fraction_digits-IsPlain w (n % 10 ^ w) (mod-lt n (pow_pos w)),
  )
  | no zero_n ↦ let z : n ≡ 0 = omega arith in rw (z, fraction_end (suc w)) tt
]

append_nano-IsPlain : (n : ℕ) → n < billion → IsPlain (append_nano n)
append_nano-IsPlain n h = elim (dec_lt 0 n) [
  | yes pos ↦ rw (append_nano_next n pos) (refl, fraction_digits-IsPlain 9 n h)
  | no zero_n ↦ let z : n ≡ 0 = omega arith in rw z (rw append_nano_end tt)
]

end-IsPlain :
    (nanos : Bool) (n : ℕ)
    → n < billion
    → IsPlain ((if nanos then append_nano n else []) ++ (b'Z' ∷ []))
end-IsPlain true n h =
    All-append (λ c. is_plain c ≡ true) (append_nano n) (b'Z' ∷ []) (append_nano-IsPlain n h)
      (refl, tt)
end-IsPlain false n h = (refl, tt)

append_rfc3339-IsPlain :
    (nanos : Bool) (r : Reading) → IsReading r → IsPlain (append_rfc3339 nanos r)
unfolding append_rfc3339
append_rfc3339-IsPlain nanos r h =
    let date = h.is_date in
    let y = r.date.year - year_zero in
    let short = days_in_bound r.date.year r.date.month in
    let end = (if nanos then append_nano r.nanosecond else []) ++ (b'Z' ∷ []) in
    let s1 = two r.second end in
    let s2 = two r.minute (b':' ∷ s1) in
    let s3 = two r.hour (b':' ∷ s2) in
    let s4 = two r.date.day (b'T' ∷ s3) in
    let s5 = two r.date.month (b'-' ∷ s4) in
    let p0 = end-IsPlain nanos r.nanosecond h.nanosecond in
    let p1 = two-IsPlain r.second end (omega arith) p0 in
    let p2 = two-IsPlain r.minute (b':' ∷ s1) (omega arith) (refl, p1) in
    let p3 = two-IsPlain r.hour (b':' ∷ s2) (omega arith) (refl, p2) in
    let p4 = two-IsPlain r.date.day (b'T' ∷ s3) (omega arith) (refl, p3) in
    let p5 = two-IsPlain r.date.month (b'-' ∷ s4) (omega arith) (refl, p4) in
    two-IsPlain (y / 100) (two (y % 100) (b'-' ∷ s5)) (omega arith)
      (two-IsPlain (y % 100) (b'-' ∷ s5) (omega arith) (refl, p5))

-- A printed time lies in the years 0 to 9999.
print_time-IsReading :
    (t : Time) (s : Bytes)
    → print_time t ≡ ok s
    → IsReading (clock_reading t) × (s ≡ append_rfc3339 true (clock_reading t))
unfolding print_time
print_time-IsReading t s e =
    let first : year_zero ≤ (clock_reading t).date.year = ground arith in
    let last : (clock_reading t).date.year ≤ year_zero + 9999 = ground arith in
    (clock_reading-IsReading t first last, ground arith)

-- A printed time is read back, and its bytes stand for themselves in a string.
pub parse_rfc3339-print_time :
    (t : Time) (s : Bytes)
    → print_time t ≡ ok s
    → (parse_rfc3339 s ≡ some t) × All (λ c. is_plain c ≡ true) s
parse_rfc3339-print_time t s e =
    let (h, same) = print_time-IsReading t s e in
    rw same (
      parse_rfc3339-append_rfc3339 (clock_reading t) h ∙ ap (λ x. some x) (moment-clock_reading t),
      append_rfc3339-IsPlain true (clock_reading t) h,
    )

format_in_years :
    (t : Time)
    → year_zero ≤ (clock_reading t).date.year
    → (clock_reading t).date.year ≤ year_zero + 9999
    → format_rfc3339 t ≡ append_rfc3339 false (clock_reading t)
unfolding format_rfc3339 append_year append_four append_rfc3339
format_in_years t first last =
    let late : ltb (clock_reading t).date.year year_zero ≡ false = ground arith in
    let short : ltb ((clock_reading t).date.year - year_zero) 10000 ≡ true = ground arith in
    rw (late, short) refl

-- A time of the years 0 to 9999 is printed without a byte that ends a cell of a table.
pub format_rfc3339-IsPlain :
    (t : Time)
    → year_zero ≤ (clock_reading t).date.year
    → (clock_reading t).date.year ≤ year_zero + 9999
    → All (λ c. is_plain c ≡ true) (format_rfc3339 t)
format_rfc3339-IsPlain t first last =
    rw (format_in_years t first last)
      (append_rfc3339-IsPlain false (clock_reading t) (clock_reading-IsReading t first last))
