-- ===== src/Tests/JsonFile.antt =====
-- Tests of the text of the state file, and its theorems on a file with one resolved record.
use mcp_chain.Base.{
  ◌≡◌, refl, ◌++◌, Bytes, codes, Option, none, some, [], ◌∷◌, inr, List, All, arith, str_eq, str_lt,
  false, take, true, drop, get_or,
}
use mcp_chain.Clock.Calendar.{
  Civil, civil_from_days, month_loop, year_loop, days_from_civil, days_before_year,
  days_before_month,
}
use mcp_chain.Store.Schema.{Time, State, Record, status_resolved}
use mcp_chain.Clock.Parse.{moment}
use mcp_chain.Clock.Format.{print_time, clock_reading, append_rfc3339, append_nano, fraction_digits}
use mcp_chain.Store.Errors.{ok, err, corrupt_json}
use mcp_chain.Store.JsonFile.{load_state-save_state, execute_all-json, load_state-cut, file_json}
use mcp_chain.Store.Invariant.{fresh_state-IsValid, IsValid, insert-IsValid}
use mcp_chain.Store.StateText.{StateIsEncodable}
use mcp_chain.Store.Encodable.{RequestIsEncodable}
use mcp_chain.Store.Machine.{Request, register, register_with_id, resolve, run, purge}
use mcp_chain.Json.QuoteScan.{ascii-IsUtf8}
use mcp_chain.Store.Marshal.{
  marshal_state, entry_printers, record_printer, created_printer, resolved_printer,
}
use mcp_chain.Clock.Text.{time_text}
use mcp_chain.Base.GoMap.{insert, lookup}
use mcp_chain.Store.Disk.{load_state, save_state, fresh_state}
use mcp_chain.Store.Transaction.{content, quiet}
use mcp_chain.Store.Refinement.{execute_all}
use mcp_chain.Json.Print.{print_object, print_member, print_members, spaces}
use mcp_chain.Json.Quote.{escape}
use mcp_chain.Json.Number.{decimal, decimal_loop}
use mcp_chain.Store.RecordText.{IsPrintable}
use mcp_chain.Mcpserver.Sessions.{take_turns-run, Turn, requests_of, take_turns, request_of}
use mcp_chain.Mcpserver.Server.{run_tools}

abbrev no_layout : Bytes → Option Time
no_layout s = none

-- 2026-04-30T12:34:56.078Z.
noon : Time
noon =
    let date : Civil = record { year = 2426; month = 4; day = 30 } in
    moment (record { date = date; hour = 12; minute = 34; second = 56; nanosecond = 78000000 })

noon_text : print_time noon ≡ ok (codes "2026-04-30T12:34:56.078Z")
unfolding print_time noon moment clock_reading civil_from_days month_loop year_loop days_from_civil
    days_before_year days_before_month append_rfc3339 append_nano fraction_digits
noon_text = refl

abbrev dated : Record
dated = record {
  id = codes "ash";
  condition = codes "a<b \"c\"\n";
  status = status_resolved;
  owner_token = codes "a1";
  created_at = noon;
  resolved_at = some noon;
}

abbrev dated_state : State
dated_state = record { version = 1; counter = 5; records = (codes "ash", dated) ∷ [] }

abbrev dated_text : Bytes
dated_text =
    codes
      "{\n  \"version\": 1,\n  \"counter\": 5,\n  \"records\": {\n    \"ash\": {\n      \"id\": \"ash\",\n"
    ++ codes "      \"condition\": \"a\\u003cb \\\"c\\\"\\n\",\n      \"status\": \"resolved\",\n"
    ++ codes "      \"owner_token\": \"a1\",\n      \"created_at\": \"2026-04-30T12:34:56.078Z\",\n"
    ++ codes "      \"resolved_at\": \"2026-04-30T12:34:56.078Z\"\n    }\n  }\n}"

marshal_dated : (file_json no_layout).marshal_indent dated_state ≡ ok dated_text
unfolding marshal_state entry_printers record_printer created_printer resolved_printer print_object
    print_member print_members spaces escape decimal decimal_loop
marshal_dated = rw noon_text refl

dated_encodable : StateIsEncodable (time_text no_layout) dated_state
dated_encodable = record {
  version = omega arith;
  counter = omega arith;
  records = (
    (
      ascii-IsUtf8 (codes "ash") refl,
      record {
        id = ascii-IsUtf8 (codes "ash") refl;
        condition = ascii-IsUtf8 (dated.condition) refl;
        status = ascii-IsUtf8 status_resolved refl;
        owner_token = ascii-IsUtf8 (codes "a1") refl;
        created_at = (codes "2026-04-30T12:34:56.078Z", noon_text);
        resolved_at = (codes "2026-04-30T12:34:56.078Z", noon_text);
      },
    ),
    tt,
  );
}

dated-IsValid : IsValid dated_state
unfolding insert str_eq str_lt
dated-IsValid =
    insert-IsValid fresh_state 5 (codes "ash") dated
      (record { keyed = refl; status = inr (noon, refl, refl) }) fresh_state-IsValid

load_state-save_state_example :
    let r = save_state (file_json no_layout) (quiet 0) dated_state none in
    (r.0 ≡ ok tt) × (load_state (file_json no_layout) (quiet 0) r.1 ≡ ok dated_state)
load_state-save_state_example =
    load_state-save_state no_layout (quiet 0) (quiet 0) dated_state none dated-IsValid
      dated_encodable refl refl

-- The file without its last two brackets.
load_state-cut_example :
    load_state (file_json no_layout) (quiet 0) (some (take 200 dated_text)) ≡ err corrupt_json
load_state-cut_example =
    load_state-cut no_layout (quiet 0) dated_state dated_text (take 200 dated_text)
      (drop 201 dated_text) (get_or dated_text 200 0) dated-IsValid dated_encodable marshal_dated
      refl refl

requests : List (Time × Request)
requests =
    (noon, register (codes "a1") (codes "build done"))
    ∷ (noon, register_with_id (codes "a1") (codes "ash") (codes "review"))
    ∷ (noon, resolve (codes "ash") (codes "a1") (record { force = false }))
    ∷ (noon, purge (record { id = []; all = false; resolved = true }))
    ∷ []

requests_encodable : All (RequestIsEncodable (time_text no_layout)) requests
unfolding requests RequestIsEncodable
requests_encodable =
    let printable : IsPrintable (time_text no_layout) noon =
      (codes "2026-04-30T12:34:56.078Z", noon_text) in
    let token = ascii-IsUtf8 (codes "a1") refl in
    (
      (token, ascii-IsUtf8 (codes "build done") refl, printable),
      ((token, ascii-IsUtf8 (codes "review") refl, printable), (printable, (tt, tt))),
    )

execute_all-json_example :
    content (file_json no_layout) (execute_all (file_json no_layout) requests none)
    ≡ ok (run fresh_state requests)
execute_all-json_example = execute_all-json no_layout requests requests_encodable

-- Two sessions; the second one cannot resolve what the first one has registered.
abbrev turns : List Turn
turns =
    record {
      now = noon;
      owner_token = codes "a1";
      tool_call = record {
        name = codes "register_with_id";
        id = codes "ash";
        condition = codes "build done";
      };
    }
    ∷ record {
      now = noon;
      owner_token = codes "b2";
      tool_call = record { name = codes "resolve"; id = codes "ash"; condition = [] };
    }
    ∷ record {
      now = noon;
      owner_token = codes "b2";
      tool_call = record { name = codes "purge"; id = codes "ash"; condition = [] };
    }
    ∷ []

turns_requests :
    requests_of turns
    ≡ (noon, register_with_id (codes "a1") (codes "ash") (codes "build done"))
      ∷ (noon, resolve (codes "ash") (codes "b2") (record { force = false }))
      ∷ []
unfolding requests_of request_of run_tools lookup insert str_eq str_lt
turns_requests = refl

turns_encodable : All (RequestIsEncodable (time_text no_layout)) (requests_of turns)
unfolding RequestIsEncodable
turns_encodable =
    let printable : IsPrintable (time_text no_layout) noon =
      (codes "2026-04-30T12:34:56.078Z", noon_text) in
    rw turns_requests (
      (ascii-IsUtf8 (codes "a1") refl, ascii-IsUtf8 (codes "build done") refl, printable),
      (printable, tt),
    )

take_turns-run_example :
    content (file_json no_layout) (take_turns (file_json no_layout) turns none)
    ≡ ok (run fresh_state (requests_of turns))
take_turns-run_example = take_turns-run no_layout turns turns_encodable
