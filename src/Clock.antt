-- ===== src/Clock.antt =====
-- The text of a `time.Time` in the state file and in the table: the calendar, `Time.MarshalJSON`,
-- `Time.UnmarshalJSON` and `Time.Format` of the package time (internal/store/schema.go,
-- internal/cli/format/table.go).
pub mod Calendar
pub mod CalendarLaws
pub mod Format
pub mod Parse
pub mod Fraction
pub mod RoundTrip
pub mod Text
