-- ===== src/Clock/CalendarLaws.antt =====
-- Lemmas on days and dates (package time).
use mcp_chain.Base.{
  refl, ℕ, ◌+◌, ◌*◌, ◌≡◌, arith, ◌%◌, ◌∙◌, ◌-◌, ◌≤◌, ◌<◌, ◌/◌, Bool-cases, ltb, suc, true, false,
  inl, tests, inr, zero,
}
use mcp_chain.Clock.Calendar.{
  is_leap, days_in_year, days_in, days_before_year, days_before_month, Civil, year_loop,
  civil_from_days, days_from_civil, month_loop,
}

next_year : (y : ℕ) → days_before_year (y + 1) ≡ days_before_year y + days_in_year y
unfolding days_before_year days_in_year is_leap
next_year y = ground arith

cycle : (q : ℕ) → days_before_year (400 * q) ≡ 146097 * q
unfolding days_before_year
cycle q = omega arith

next_month : (y m : ℕ) → days_before_month y (m + 1) ≡ days_before_month y m + days_in y m
unfolding days_before_month
next_month y m = ground arith

whole_year : (y : ℕ) → days_before_month y 13 ≡ days_in_year y
unfolding days_before_month days_in days_in_year
whole_year y = ground arith

year_last : (f y d : ℕ) → ltb d (days_in_year y) ≡ true → year_loop (suc f) y d ≡ (y, d)
unfolding year_loop
year_last f y d h = ground arith

year_round :
    (f y d : ℕ)
    → ltb d (days_in_year y) ≡ false
    → year_loop (suc f) y d ≡ year_loop f (y + 1) (d - days_in_year y)
unfolding year_loop
year_round f y d h = ground arith

-- Where the loop over the years ends.
record YearFound (y d : ℕ) (r : ℕ × ℕ) : Type 0 where
  same_day : days_before_year r.0 + r.1 ≡ days_before_year y + d
  in_year : r.1 < days_in_year r.0

year_loop-YearFound :
    (f y d : ℕ)
    → days_before_year y + d < days_before_year (y + suc f)
    → YearFound y d (year_loop f y d)
unfolding year_loop
year_loop-YearFound zero y d h = record { same_day = refl; in_year = omega (arith, next_year y) }
year_loop-YearFound (suc f) y d h = elim (Bool-cases (ltb d (days_in_year y))) [
  | inl small ↦ rw (year_last f y d small) (record { same_day = refl; in_year = omega tests })
  | inr large ↦
      let next : days_before_year (y + 1) + (d - days_in_year y) ≡ days_before_year y + d =
        omega (tests, next_year y, large) in
      let same : y + 1 + suc f ≡ y + suc (suc f) = omega arith in
      let found = year_loop-YearFound f (y + 1) (d - days_in_year y) (rw (next, same) h) in
      rw (year_round f y d large)
        (record { same_day = found.same_day ∙ next; in_year = found.in_year })
]

month_last :
    (f y m d : ℕ)
    → ltb d (days_in y m) ≡ true
    → month_loop (suc f) y m d ≡ record { year = y; month = m; day = d + 1 }
unfolding month_loop
month_last f y m d h = ground arith

month_round :
    (f y m d : ℕ)
    → ltb d (days_in y m) ≡ false
    → month_loop (suc f) y m d ≡ month_loop f y (m + 1) (d - days_in y m)
unfolding month_loop
month_round f y m d h = ground arith

-- Where the loop over the months ends.
record MonthFound (y m d last : ℕ) (c : Civil) : Type 0 where
  same_year : c.year ≡ y
  same_day : days_before_month y c.month + c.day ≡ days_before_month y m + d + 1
  first_day : 1 ≤ c.day
  in_month : c.day ≤ days_in y c.month
  from_month : m ≤ c.month
  to_month : c.month ≤ last

month_loop-MonthFound :
    (f y m d : ℕ)
    → days_before_month y m + d < days_before_month y (m + suc f)
    → MonthFound y m d (m + f) (month_loop f y m d)
unfolding month_loop
month_loop-MonthFound zero y m d h = record {
  same_year = refl;
  same_day = omega arith;
  first_day = omega arith;
  in_month = omega (arith, next_month y m);
  from_month = omega arith;
  to_month = omega arith;
}
month_loop-MonthFound (suc f) y m d h = elim (Bool-cases (ltb d (days_in y m))) [
  | inl small ↦ rw (month_last f y m d small) (record {
    same_year = refl;
    same_day = omega arith;
    first_day = omega arith;
    in_month = omega tests;
    from_month = omega arith;
    to_month = omega arith;
  })
  | inr large ↦
      let next : days_before_month y (m + 1) + (d - days_in y m) ≡ days_before_month y m + d =
        omega (tests, next_month y m, large) in
      let same : m + 1 + suc f ≡ m + suc (suc f) = omega arith in
      let found = month_loop-MonthFound f y (m + 1) (d - days_in y m) (rw (next, same) h) in
      rw (month_round f y m d large) (record {
        same_year = found.same_year;
        same_day = omega (arith, found.same_day);
        first_day = found.first_day;
        in_month = found.in_month;
        from_month = omega (arith, found.from_month);
        to_month = omega (arith, found.to_month);
      })
]

-- A date of the calendar.
pub record IsDate (c : Civil) : Type 0 where
  pub first_month : 1 ≤ c.month
  pub last_month : c.month ≤ 12
  pub first_day : 1 ≤ c.day
  pub last_day : c.day ≤ days_in c.year c.month

year_found :
    (d : ℕ)
    → YearFound (400 * (d / 146097)) (d % 146097) (year_loop 399 (400 * (d / 146097)) (d % 146097))
year_found d =
    let q = d / 146097 in
    let next : 400 * q + 400 ≡ 400 * (q + 1) = omega arith in
    year_loop-YearFound 399 (400 * q) (d % 146097) (rw (next, cycle q, cycle (q + 1)) (omega arith))

no_days : (y : ℕ) → days_before_month y 1 ≡ 0
unfolding days_before_month days_in
no_days y = refl

month_found : (y d : ℕ) → d < days_in_year y → MonthFound y 1 d 12 (month_loop 11 y 1 d)
month_found y d h = month_loop-MonthFound 11 y 1 d (omega (arith, whole_year y, no_days y, h))

found_day :
    (d : ℕ) (year : ℕ × ℕ) (c : Civil)
    → YearFound (400 * (d / 146097)) (d % 146097) year
    → MonthFound year.0 1 year.1 12 c
    → days_from_civil c ≡ d
unfolding days_from_civil
found_day d year c y m =
    rw m.same_year
      (omega (arith, y.same_day, m.same_day, m.first_day, cycle (d / 146097), no_days year.0))

-- Each day is the date that `civil_from_days` gives it.
pub days_from_civil-civil_from_days : (d : ℕ) → days_from_civil (civil_from_days d) ≡ d
unfolding civil_from_days
days_from_civil-civil_from_days d =
    let y = year_found d in
    let year = year_loop 399 (400 * (d / 146097)) (d % 146097) in
    found_day d year (month_loop 11 year.0 1 year.1) y (month_found year.0 year.1 y.in_year)

pub civil_from_days-IsDate : (d : ℕ) → IsDate (civil_from_days d)
unfolding civil_from_days
civil_from_days-IsDate d =
    let y = year_found d in
    let year = year_loop 399 (400 * (d / 146097)) (d % 146097) in
    let m = month_found year.0 year.1 y.in_year in
    record {
      first_month = m.from_month;
      last_month = m.to_month;
      first_day = m.first_day;
      last_day = rw m.same_year m.in_month;
    }
