-- ===== src/Store/Disk.antt =====
-- Loading and saving the state file, and the two locked sections around them: `loadState`,
-- `saveState` (internal/store/store.go), `writeStateAtomic` (internal/store/atomic_unix.go),
-- `withLockedState` and `withSharedLock` (internal/store/lock.go).
use mcp_chain.Base.{ℕ, ◌≡◌, Option, none, some, [], ◌==◌, if◌then◌else◌, Bytes}
use mcp_chain.Base.GoMap.{GoMap, IsSorted}
use mcp_chain.Store.Errors.{
  Result, ok, err, ◌>>=◌, corrupt_json, schema_version, failed, Call, acquire_exclusive,
  acquire_shared, release_exclusive, release_shared, read, write,
}
use mcp_chain.Store.Schema.{Time, Record, State, current_version}

-- What `json.Unmarshal` leaves in a `state`: the map is nil (`none`) if the document gives none.
pub record Decoded : Type 0 where
  pub version : ℕ
  pub counter : ℕ
  pub records : Option (GoMap Record)

abbrev pub decoded : State → Decoded
decoded st = record { version = st.version; counter = st.counter; records = some st.records }

-- The interface to the JSON text of a state, over the documents `Doc`. `IsEncodable` is what a state
-- needs so that its text gives it back.
pub record Codec (Doc : Type 0) : Type 1 where
  -- `json.MarshalIndent(s, "", "  ")`.
  pub marshal_indent : State → Result Doc
  -- `append(data, '\n')`.
  pub append_newline : Doc → Doc
  -- `json.Unmarshal(data, &s)`.
  pub unmarshal : Doc → Option Decoded
  pub IsEncodable : State → Type 0
  pub round_trip :
      (st : State)
      → IsEncodable st
      → IsSorted st.records
      → (doc : Doc) × (marshal_indent st ≡ ok doc)
        × (unmarshal (append_newline doc) ≡ some (decoded st))

-- What the operating system answers during one call, and the time that `time.Now().UTC()` reads. An
-- error is given by its text; a write that fails leaves the old file in place, as renameio and
-- rename(2) promise.
pub record Env : Type 0 where
  pub now : Time
  pub lock_error : Option Bytes
  pub read_error : Option Bytes
  pub write_error : Option Bytes
  pub unlock_error : Option Bytes

-- The state of a path at which there is no file.
abbrev pub fresh_state : State
fresh_state = record { version = current_version; counter = 0; records = [] }

-- `if s.Records == nil { s.Records = map[string]record{} }`.
abbrev pub or_empty : Option (GoMap Record) → GoMap Record
or_empty none = []
or_empty (some m) = m

-- The checks of `loadState` behind the decoding.
unfoldable pub check_decoded : Decoded → Result State
check_decoded d =
    if d.version == current_version
    then ok (record { version = d.version; counter = d.counter; records = or_empty d.records })
    else err (schema_version d.version current_version)

-- The file's content, or `none` where there is no file.
abbrev pub Disk : Type 0 → Type 0
Disk Doc = Option Doc

-- `writeStateAtomic`: the new content is in place, or the old one is.
unfoldable pub write_state_atomic :
    {Doc : Type 0} → Env → Doc → Disk Doc → Result (Unit {0}) × Disk Doc
write_state_atomic env doc disk = elim env.write_error [
  | none ↦ (ok tt, some doc)
  | some e ↦ (err (failed write e), disk)
]

-- The deferred `fl.Unlock()`: its error becomes the call's error if the call has none.
unfoldable pub release {ℓ} : {A : Type ℓ} → Call → Option Bytes → Result A → Result A
release call none r = r
release call (some e) (ok a) = err (failed call e)
release call (some e) (err x) = err x

module _ {Doc : Type 0} (json : Codec Doc) where
  open json use {marshal_indent, append_newline, unmarshal}

  decode_state : Doc → Result State
  decode_state doc = elim (unmarshal doc) [ none ↦ err corrupt_json | some d ↦ check_decoded d ]

  -- `loadState`.
  unfoldable pub load_state : Env → Disk Doc → Result State
  unfolding check_decoded decode_state
  load_state env disk = elim env.read_error [
    | some e ↦ err (failed read e)
    | none ↦ elim disk [ none ↦ ok fresh_state | some doc ↦ decode_state doc ]
  ]

  -- `saveState`.
  unfoldable pub save_state : Env → State → Disk Doc → Result (Unit {0}) × Disk Doc
  unfolding write_state_atomic
  save_state env st disk = elim (marshal_indent st) [
    | err e ↦ (err e, disk)
    | ok doc ↦ write_state_atomic env (append_newline doc) disk
  ]

module _ {Doc A : Type 0} (json : Codec Doc) where
  -- What follows the closure in `withLockedState`.
  unfoldable pub save_outcome : Env → Disk Doc → Result (State × A) → Result A × Disk Doc
  unfolding save_state
  save_outcome env disk (err e) = (err e, disk)
  save_outcome env disk (ok (st, a)) =
      let (written, disk') = save_state json env st disk in (written >>= (λ _. ok a), disk')

  -- `withLockedState`. What the closure leaves in the captured variables is returned only when the
  -- call as a whole returns no error, as its callers do.
  unfoldable pub with_locked_state :
      (State → Result (State × A)) → Env → Disk Doc → Result A × Disk Doc
  unfolding load_state save_outcome release
  with_locked_state fn env disk = elim env.lock_error [
    | some e ↦ (err (failed acquire_exclusive e), disk)
    | none ↦
        let (r, disk') = save_outcome env disk (load_state json env disk >>= fn) in
        (release release_exclusive env.unlock_error r, disk')
  ]

  -- `withSharedLock`: it writes nothing.
  unfoldable pub with_shared_lock : (State → Result A) → Env → Disk Doc → Result A
  unfolding load_state release
  with_shared_lock fn env disk = elim env.lock_error [
    | some e ↦ err (failed acquire_shared e)
    | none ↦ release release_shared env.unlock_error (load_state json env disk >>= fn)
  ]
