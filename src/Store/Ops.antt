-- ===== src/Store/Ops.antt =====
-- The closures that the methods of internal/store/store.go run on the decoded state, under the lock:
-- each returns the new state and what the closure leaves in the captured variables, or an error.
use mcp_chain.Base.{
  ℕ, ◌+◌, ◌%◌, ◌^◌, not, ◌&&◌, Option, none, some, List, [], ◌∷◌, ◌==◌, if◌then◌else◌, length, map,
  Bytes, str_eq,
}
use mcp_chain.Base.GoMap.{GoMap, lookup, insert, delete}
use mcp_chain.Idgen.Allocate.{allocate}
use mcp_chain.Store.Errors.{
  Result, ok, err, sentinel, err_unknown_id, err_already_resolved, err_not_owner, id_taken,
}
use mcp_chain.Store.Schema.{
  Time, Record, State, ExportedRecord, PurgeOptions, ResolveOptions, status_pending,
  status_resolved, record_to_record,
}

-- The record that `Register` and `RegisterWithID` store.
abbrev pub pending_record : Bytes → Bytes → Bytes → Time → Record
pending_record id condition owner_token now = record {
  id = id;
  condition = condition;
  status = status_pending;
  owner_token = owner_token;
  created_at = now;
  resolved_at = none;
}

-- `Register`: the id is allocated before the uint64 counter is incremented.
unfoldable pub register_fn : Bytes → Bytes → Time → State → Result (State × Bytes)
register_fn owner_token condition now st =
    let id = allocate st.counter in
    ok (
      record st {
        counter = (st.counter + 1) % 2 ^ 64;
        records = insert id (pending_record id condition owner_token now) st.records;
      },
      id,
    )

-- `RegisterWithID`, behind `validateID`.
unfoldable pub register_with_id_fn :
    Bytes → Bytes → Bytes → Time → State → Result (State × Unit {0})
register_with_id_fn owner_token id condition now st = elim (lookup id st.records) [
  | some r ↦ err (id_taken id)
  | none ↦ ok (
    record st { records = insert id (pending_record id condition owner_token now) st.records },
    tt,
  )
]

-- `subtle.ConstantTimeCompare`: 1 if the two contents are equal, and 0 otherwise.
unfoldable pub constant_time_compare : Bytes → Bytes → ℕ
constant_time_compare x y = if str_eq x y then 1 else 0

-- `Resolve`, once the record is found.
unfoldable pub resolve_record :
    Bytes → Bytes → ResolveOptions → Time → State → Record → Result (State × Unit {0})
unfolding constant_time_compare
resolve_record id owner_token opts now st r =
    if str_eq r.status status_resolved
    then err (sentinel err_already_resolved)
    else if not opts.force && not (constant_time_compare owner_token r.owner_token == 1)
    then err (sentinel err_not_owner)
    else ok (
      record st {
        records =
            insert id (record r { status = status_resolved; resolved_at = some now }) st.records;
      },
      tt,
    )

unfoldable pub resolve_fn :
    Bytes → Bytes → ResolveOptions → Time → State → Result (State × Unit {0})
unfolding resolve_record
resolve_fn id owner_token opts now st = elim (lookup id st.records) [
  | none ↦ err (sentinel err_unknown_id)
  | some r ↦ resolve_record id owner_token opts now st r
]

-- `Get`.
unfoldable pub get_fn : Bytes → State → Result ExportedRecord
get_fn id st = elim (lookup id st.records) [
  | none ↦ err (sentinel err_unknown_id)
  | some r ↦ ok (record_to_record r)
]

-- `List`: the records in the order in which the map is iterated.
unfoldable pub list_fn : State → Result (List ExportedRecord)
list_fn st = ok (map (λ e. record_to_record e.1) st.records)

-- `for id, r := range st.Records { if r.Status == statusResolved { delete(st.Records, id); removed++ } }`
-- over the entries `todo`, with the map and the count so far.
unfoldable pub purge_loop : GoMap Record → GoMap Record → ℕ → GoMap Record × ℕ
purge_loop [] m removed = (m, removed)
purge_loop ((id, r) ∷ todo) m removed =
    let hit = str_eq r.status status_resolved in
    purge_loop todo (if hit then delete id m else m) (if hit then removed + 1 else removed)

-- How many of the targets are set.
unfoldable pub purge_targets : PurgeOptions → ℕ
purge_targets opts =
    (if str_eq opts.id [] then 0 else 1)
    + (if opts.all then 1 else 0)
    + (if opts.resolved then 1 else 0)

-- `case opts.ID != "":` with the lookup of that id.
unfoldable pub purge_one : Bytes → State → Option Record → Result (State × ℕ)
purge_one id st none = err (sentinel err_unknown_id)
purge_one id st (some r) = ok (record st { records = delete id st.records }, 1)

-- The closure of `Purge`, for options with exactly one target.
unfoldable pub purge_fn : PurgeOptions → State → Result (State × ℕ)
unfolding purge_loop purge_one
purge_fn opts st =
    if not (str_eq opts.id [])
    then purge_one opts.id st (lookup opts.id st.records)
    else if opts.all
    then ok (record st { records = [] }, length st.records)
    else if opts.resolved
    then (let (m, removed) = purge_loop st.records st.records 0 in
        ok (record st { records = m }, removed))
    else ok (st, 0)
