-- ===== src/Store/Unmarshal.antt =====
-- `json.Unmarshal(data, &s)` of `loadState` (internal/store/store.go), for the fields and tags of
-- internal/store/schema.go. A key that names no field is passed over, and `null` leaves a field as it is.
use mcp_chain.Base.{ℕ, Bytes, codes, Option, none, some, [], if◌then◌else◌}
use mcp_chain.Base.Chain.{◌>>=◌}
use mcp_chain.Base.GoMap.{GoMap, insert}
use mcp_chain.Json.Fold.{names_field}
use mcp_chain.Json.Number.{parse_uint}
use mcp_chain.Json.Quote.{unquote}
use mcp_chain.Json.Scan.{
  Value, Members, null, boolean, number, quoted, array, object, no_members, member, parse,
}
use mcp_chain.Store.Disk.{Decoded, or_empty}
use mcp_chain.Store.Marshal.{TimeText}
use mcp_chain.Store.Schema.{Time, Record}

-- A value for a `uint64` that holds `old`.
unfoldable pub into_uint : ℕ → Value → Option ℕ
into_uint old null = some old
into_uint old (number w) = parse_uint w
into_uint old (boolean b) = none
into_uint old (quoted w) = none
into_uint old (array vs) = none
into_uint old (object ms) = none

-- A value for a string.
unfoldable pub into_string : Bytes → Value → Option Bytes
into_string old null = some old
into_string old (quoted w) = some (unquote w)
into_string old (boolean b) = none
into_string old (number w) = none
into_string old (array vs) = none
into_string old (object ms) = none

module _ (times : TimeText) where
  open times use {parse_time, zero_time}

  -- A value for a `time.Time`: `UnmarshalJSON` gets the text as it stands in the file.
  unfoldable pub into_time : Time → Value → Option Time
  into_time old null = some old
  into_time old (quoted w) = parse_time w
  into_time old (boolean b) = none
  into_time old (number w) = none
  into_time old (array vs) = none
  into_time old (object ms) = none

  -- A value for a `*time.Time`; `null` makes it nil.
  unfoldable pub into_pointer : Value → Option (Option Time)
  into_pointer null = some none
  into_pointer (quoted w) = do t ← parse_time w; some (some t)
  into_pointer (boolean b) = none
  into_pointer (number w) = none
  into_pointer (array vs) = none
  into_pointer (object ms) = none

  abbrev pub zero_record : Record
  zero_record = record {
    id = [];
    condition = [];
    status = [];
    owner_token = [];
    created_at = zero_time;
    resolved_at = none;
  }

  -- One member of a record's object.
  unfoldable pub set_member : Bytes → Value → Record → Option Record
  unfolding names_field into_string into_time into_pointer
  set_member key v r =
      if names_field key (codes "id")
      then (do s ← into_string r.id v; some (record r { id = s }))
      else if names_field key (codes "condition")
      then (do s ← into_string r.condition v; some (record r { condition = s }))
      else if names_field key (codes "status")
      then (do s ← into_string r.status v; some (record r { status = s }))
      else if names_field key (codes "owner_token")
      then (do s ← into_string r.owner_token v; some (record r { owner_token = s }))
      else if names_field key (codes "created_at")
      then (do t ← into_time r.created_at v; some (record r { created_at = t }))
      else if names_field key (codes "resolved_at")
      then (do t ← into_pointer v; some (record r { resolved_at = t }))
      else some r

  -- The members, the last of which comes first here.
  unfoldable pub into_record : Members → Option Record
  unfolding set_member
  into_record no_members = some zero_record
  into_record (member k v ms) = do r ← into_record ms; set_member (unquote k) v r

  -- A value for an element of the map, which starts as a zero record.
  unfoldable pub record_of : Value → Option Record
  unfolding into_record
  record_of null = some zero_record
  record_of (object ms) = into_record ms
  record_of (boolean b) = none
  record_of (number w) = none
  record_of (quoted w) = none
  record_of (array vs) = none

  -- The members of the map's object, into the map `m`.
  unfoldable pub into_records : GoMap Record → Members → Option (GoMap Record)
  unfolding insert record_of
  into_records m no_members = some m
  into_records m (member k v ms) = do
    m' ← into_records m ms
    r ← record_of v
    some (insert (unquote k) r m')

  -- A value for the map, which may be nil; `null` makes it nil.
  unfoldable pub into_map : Option (GoMap Record) → Value → Option (Option (GoMap Record))
  unfolding into_records
  into_map old null = some none
  into_map old (object ms) = do m ← into_records (or_empty old) ms; some (some m)
  into_map old (boolean b) = none
  into_map old (number w) = none
  into_map old (quoted w) = none
  into_map old (array vs) = none

  abbrev pub zero_state : Decoded
  zero_state = record { version = 0; counter = 0; records = none }

  -- One member of the state's object.
  unfoldable pub set_part : Bytes → Value → Decoded → Option Decoded
  unfolding names_field into_uint into_map
  set_part key v d =
      if names_field key (codes "version")
      then (do n ← into_uint d.version v; some (record d { version = n }))
      else if names_field key (codes "counter")
      then (do n ← into_uint d.counter v; some (record d { counter = n }))
      else if names_field key (codes "records")
      then (do m ← into_map d.records v; some (record d { records = m }))
      else some d

  unfoldable pub into_state : Members → Option Decoded
  unfolding set_part
  into_state no_members = some zero_state
  into_state (member k v ms) = do d ← into_state ms; set_part (unquote k) v d

  unfoldable pub state_of : Value → Option Decoded
  unfolding into_state
  state_of null = some zero_state
  state_of (object ms) = into_state ms
  state_of (boolean b) = none
  state_of (number w) = none
  state_of (quoted w) = none
  state_of (array vs) = none

  unfoldable pub unmarshal_state : Bytes → Option Decoded
  unfolding parse state_of
  unmarshal_state text = do v ← parse text; state_of v
