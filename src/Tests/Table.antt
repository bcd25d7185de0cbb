-- ===== src/Tests/Table.antt =====
-- The table of two records.
use mcp_chain.Base.{
  ◌≡◌, refl, codes, some, none, [], ◌∷◌, ◌++◌, Bytes, Bool, true, ◌&&◌, arith, map, str_lt,
}
use mcp_chain.Clock.Calendar.{
  Civil, civil_from_days, month_loop, year_loop, days_from_civil, days_before_year,
  days_before_month,
}
use mcp_chain.Store.Schema.{Time, ExportedRecord, status_pending, status_resolved}
use mcp_chain.Cli.Output.{text}
use mcp_chain.Cli.Aligned.{
  InYears, IsPlainRecord, flush_all-write_table, header_line, line_of, aligned,
}
use mcp_chain.Cli.TabwriterLaws.{IsCell, is_inner}
use mcp_chain.Clock.Parse.{moment}
use mcp_chain.Cli.Tabwriter.{
  flush_all, align, table_text, split_rows, split_byte, rune_count, widen, column_width,
  print_column, print_columns, most_cells, join_rows,
}
use mcp_chain.Clock.Format.{clock_reading, format_rfc3339, append_year, append_four}
use mcp_chain.Cli.Table.{
  slice_stable, write_table, insert_stable, less, rows, row, truncate, format_resolved_at,
}
use mcp_chain.Json.Quote.{following}
use mcp_chain.Json.Print.{spaces}

-- 2026-04-30T12:34:56.078Z.
noon : Time
noon =
    let date : Civil = record { year = 2426; month = 4; day = 30 } in
    moment (record { date = date; hour = 12; minute = 34; second = 56; nanosecond = 78000000 })

noon_year : (clock_reading noon).date.year ≡ 2426
unfolding noon moment clock_reading civil_from_days month_loop year_loop days_from_civil
    days_before_year days_before_month
noon_year = refl

noon_text : format_rfc3339 noon ≡ codes "2026-04-30T12:34:56Z"
unfolding noon moment clock_reading civil_from_days month_loop year_loop days_from_civil
    days_before_year days_before_month format_rfc3339 append_year append_four
noon_text = refl

all_inner : Bytes → Bool
all_inner [] = true
all_inner (c ∷ s) = is_inner c && all_inner s

all_inner-IsCell : (s : Bytes) → all_inner s ≡ true → IsCell s
unfolding all_inner
all_inner-IsCell [] h = tt
all_inner-IsCell (c ∷ s) h = (ground arith, all_inner-IsCell s (ground arith))

abbrev waiting : ExportedRecord
waiting = record {
  id = codes "ash";
  condition = codes "build done";
  status = status_pending;
  owner_token = codes "a1";
  created_at = noon;
  resolved_at = none;
}

abbrev settled : ExportedRecord
settled = record {
  id = codes "hex-0001";
  condition = codes "a condition that is longer than the column of the table can hold";
  status = status_resolved;
  owner_token = codes "b2";
  created_at = noon;
  resolved_at = some noon;
}

noon-InYears : InYears noon
noon-InYears = rw noon_year (omega arith)

waiting-IsPlainRecord : IsPlainRecord waiting
unfolding all_inner
waiting-IsPlainRecord = record {
  id = all_inner-IsCell (codes "ash") refl;
  status = all_inner-IsCell status_pending refl;
  condition = all_inner-IsCell (codes "build done") refl;
  created_at = noon-InYears;
  resolved_at = tt;
}

settled-IsPlainRecord : IsPlainRecord settled
unfolding all_inner
settled-IsPlainRecord = record {
  id = all_inner-IsCell (codes "hex-0001") refl;
  status = all_inner-IsCell status_resolved refl;
  condition = all_inner-IsCell (settled.condition) refl;
  created_at = noon-InYears;
  resolved_at = noon-InYears;
}

flush_all-write_table_example :
    let ls = header_line ∷ map line_of (slice_stable (settled ∷ waiting ∷ [])) in
    flush_all (write_table (settled ∷ waiting ∷ [])) ≡ (text (aligned ls ls) ∷ [], none)
flush_all-write_table_example =
    flush_all-write_table settled (waiting ∷ [])
      (settled-IsPlainRecord, (waiting-IsPlainRecord, tt))

printed_table : flush_all (write_table (settled ∷ waiting ∷ [])) ≡ (
  text (
        codes
          "ID        STATUS    CONDITION                                         CREATED               RESOLVED\n"
        ++ codes
            "ash       pending   build done                                        2026-04-30T12:34:56Z  -\n"
        ++ codes
            "hex-0001  resolved  a condition that is longer than the column of...  2026-04-30T12:34:56Z  2026-04-30T12:34:56Z\n")
      ∷ [],
  none,
)
unfolding flush_all align table_text write_table slice_stable insert_stable less str_lt rows row
    truncate format_resolved_at split_rows split_byte rune_count following widen column_width
    print_column print_columns most_cells join_rows spaces noon moment days_from_civil
    days_before_year days_before_month
printed_table = rw noon_text refl
