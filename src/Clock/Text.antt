-- ===== src/Clock/Text.antt =====
-- The text of a `time.Time` in the state file.
use mcp_chain.Base.{refl, Bytes, Option, none, some, All, ◌+◌, ◌≡◌, true}
use mcp_chain.Clock.Calendar.{Civil, year_zero}
use mcp_chain.Clock.Format.{print_time}
use mcp_chain.Clock.Parse.{moment, parse_rfc3339}
use mcp_chain.Clock.RoundTrip.{parse_rfc3339-print_time}
use mcp_chain.Store.Marshal.{TimeText, is_plain}
use mcp_chain.Store.Errors.{ok}
use mcp_chain.Store.Schema.{Time}

-- `time.Time{}`: the first of January of the year 1.
unfoldable pub zero_time : Time
zero_time =
    let date : Civil = record { year = year_zero + 1; month = 1; day = 1 } in
    moment (record { date = date; hour = 0; minute = 0; second = 0; nanosecond = 0 })

-- `parse_layout` stands for `time.Parse(time.RFC3339, s)`, which is asked where the strict form is not met.
module _ (parse_layout : Bytes → Option Time) where
  -- `parseStrictRFC3339`, and so `Time.UnmarshalJSON`.
  unfoldable pub parse_strict : Bytes → Option Time
  parse_strict s = elim (parse_rfc3339 s) [ some t ↦ some t | none ↦ parse_layout s ]

  pub parse_strict-print_time :
      (t : Time) (s : Bytes)
      → print_time t ≡ ok s
      → (parse_strict s ≡ some t) × All (λ c. is_plain c ≡ true) s
  unfolding parse_strict
  parse_strict-print_time t s e =
      let (parsed, plain) = parse_rfc3339-print_time t s e in
      (rw (parsed, parse_strict) refl, plain)

  abbrev pub time_text : TimeText
  time_text = record {
    print_time = print_time;
    parse_time = parse_strict;
    zero_time = zero_time;
    round_trip = parse_strict-print_time;
  }
