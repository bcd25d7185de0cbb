-- ===== src/Clock/Calendar.antt =====
-- The dates of `time.Time`: years of the Gregorian calendar, counted from the year -400, and days, counted
-- from the first of January of that year.
use mcp_chain.Base.{
  ℕ, zero, suc, ◌+◌, ◌-◌, ◌*◌, ◌/◌, ◌%◌, Bool, true, false, not, ◌&&◌, ◌||◌, ◌==◌, ltb,
  if◌then◌else◌,
}

-- The year 0 of the calendar.
abbrev pub year_zero : ℕ
year_zero = 400

unfoldable pub is_leap : ℕ → Bool
is_leap y = (y % 4 == 0) && (not (y % 100 == 0) || (y % 400 == 0))

unfoldable pub days_in_year : ℕ → ℕ
unfolding is_leap
days_in_year y = if is_leap y then 366 else 365

-- `daysIn`, for the months 1 to 12; a month 0 before them has no day.
unfoldable pub days_in : ℕ → ℕ → ℕ
unfolding is_leap
days_in y m =
    if m == 0
    then 0
    else if m == 2
    then (if is_leap y then 29 else 28)
    else if (m == 4) || ((m == 6) || ((m == 9) || (m == 11)))
    then 30
    else 31

unfoldable pub days_before_year : ℕ → ℕ
days_before_year y = 365 * y + (y + 3) / 4 + (y + 399) / 400 - (y + 99) / 100

unfoldable pub days_before_month : ℕ → ℕ → ℕ
unfolding days_in
days_before_month y zero = 0
days_before_month y (suc m) = days_before_month y m + days_in y m

pub record Civil : Type 0 where
  pub year : ℕ
  pub month : ℕ
  pub day : ℕ

-- The days before a date, as in `Date`.
unfoldable pub days_from_civil : Civil → ℕ
days_from_civil c = days_before_year c.year + days_before_month c.year c.month + (c.day - 1)

-- The month and its day, from the day of the year.
unfoldable pub month_loop : ℕ → ℕ → ℕ → ℕ → Civil
unfolding days_in
month_loop zero y m d = record { year = y; month = m; day = d + 1 }
month_loop (suc f) y m d = elim (ltb d (days_in y m)) [
  | true ↦ record { year = y; month = m; day = d + 1 }
  | false ↦ month_loop f y (m + 1) (d - days_in y m)
]

-- The year and its day, from a day behind the start of the year `y`.
unfoldable pub year_loop : ℕ → ℕ → ℕ → ℕ × ℕ
unfolding days_in_year
year_loop zero y d = (y, d)
year_loop (suc f) y d = elim (ltb d (days_in_year y)) [
  | true ↦ (y, d)
  | false ↦ year_loop f (y + 1) (d - days_in_year y)
]

-- Four hundred years have 146097 days. Of these years 399 may be passed, and of the months eleven.
unfoldable pub civil_from_days : ℕ → Civil
civil_from_days d =
    let year = year_loop 399 (400 * (d / 146097)) (d % 146097) in month_loop 11 year.0 1 year.1
