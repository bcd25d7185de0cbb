-- ===== src/Store/Marshal.antt =====
-- `json.MarshalIndent(s, "", "  ")` of `saveState` (internal/store/store.go), for the fields and tags of
-- internal/store/schema.go.
use mcp_chain.Base.{
  ℕ, Bytes, codes, Bool, true, Option, none, some, List, [], ◌∷◌, ◌++◌, All, ◌≡◌, ◌&&◌, not, ◌==◌,
  leb,
}
use mcp_chain.Base.GoMap.{GoMap}
use mcp_chain.Json.Print.{Printer, print_string, print_uint, print_null, print_object}
use mcp_chain.Store.Errors.{Result, ok, ◌>>=◌}
use mcp_chain.Store.Schema.{Time, Record, State}

-- A byte that stands for itself in a string.
abbrev pub is_plain : ℕ → Bool
is_plain c = leb 32 c && (not (c == b'"') && not (c == b'\\'))

-- The interface to the text of a `time.Time`, without its quotes: `Time.MarshalJSON` and
-- `Time.UnmarshalJSON`.
pub record TimeText : Type 0 where
  pub print_time : Time → Result Bytes
  pub parse_time : Bytes → Option Time
  -- `time.Time{}`.
  pub zero_time : Time
  pub round_trip :
      (t : Time) (s : Bytes)
      → print_time t ≡ ok s
      → (parse_time s ≡ some t) × All (λ c. is_plain c ≡ true) s

abbrev pub print_plain : Bytes → Printer
print_plain s out = b'"' ∷ (s ++ (b'"' ∷ out))

module _ (times : TimeText) where
  open times use {print_time}

  unfoldable pub created_printer : Time → Result Printer
  created_printer t = do s ← print_time t; ok (print_plain s)

  unfoldable pub resolved_printer : Option Time → Result Printer
  unfolding created_printer
  resolved_printer none = ok print_null
  resolved_printer (some t) = created_printer t

  abbrev pub record_members : Record → Printer → Printer → List (Bytes × Printer)
  record_members r created resolved =
      (codes "id", print_string r.id)
      ∷ (codes "condition", print_string r.condition)
      ∷ (codes "status", print_string r.status)
      ∷ (codes "owner_token", print_string r.owner_token)
      ∷ (codes "created_at", created)
      ∷ (codes "resolved_at", resolved)
      ∷ []

  unfoldable pub record_printer : Record → Result Printer
  unfolding created_printer resolved_printer
  record_printer r = do
    created ← created_printer r.created_at
    resolved ← resolved_printer r.resolved_at
    ok (print_object 2 (record_members r created resolved))

  -- The map, in the order of its keys.
  unfoldable pub entry_printers : GoMap Record → Result (List (Bytes × Printer))
  unfolding record_printer
  entry_printers [] = ok []
  entry_printers ((k, r) ∷ m) = do
    print ← record_printer r
    prints ← entry_printers m
    ok ((k, print) ∷ prints)

  abbrev pub state_members : State → List (Bytes × Printer) → List (Bytes × Printer)
  state_members st entries =
      (codes "version", print_uint st.version)
      ∷ (codes "counter", print_uint st.counter)
      ∷ (codes "records", print_object 1 entries)
      ∷ []

  unfoldable pub marshal_state : State → Result Bytes
  unfolding entry_printers print_object
  marshal_state st = do
    entries ← entry_printers st.records
    ok (print_object 0 (state_members st entries) [])
