-- ===== src/Store/Schema.antt =====
-- internal/store/schema.go and the exported types of internal/store/store.go.
use mcp_chain.Base.{str_eq, ◌≡◌, refl, false, ℕ, Bool, Option, Bytes, codes}
use mcp_chain.Base.GoMap.{GoMap}

-- `schemaVersion`.
abbrev pub current_version : ℕ
current_version = 1

-- `statusPending` and `statusResolved`.
abbrev pub status_pending : Bytes
status_pending = codes "pending"

abbrev pub status_resolved : Bytes
status_resolved = codes "resolved"

-- A `time.Time` in UTC, as a count of nanoseconds from the first of January of the year -400.
abbrev pub Time : Type 0
Time = ℕ

-- `record`.
pub record Record : Type 0 where
  pub id : Bytes
  pub condition : Bytes
  pub status : Bytes
  pub owner_token : Bytes
  pub created_at : Time
  pub resolved_at : Option Time

-- `state`.
pub record State : Type 0 where
  pub version : ℕ
  pub counter : ℕ
  pub records : GoMap Record

-- `Record`, what `Get` and `List` return.
pub record ExportedRecord : Type 0 where
  pub id : Bytes
  pub condition : Bytes
  pub status : Bytes
  pub owner_token : Bytes
  pub created_at : Time
  pub resolved_at : Option Time

-- `PurgeOptions`.
pub record PurgeOptions : Type 0 where
  pub id : Bytes
  pub all : Bool
  pub resolved : Bool

-- `ResolveOptions`.
pub record ResolveOptions : Type 0 where
  pub force : Bool

-- `recordToRecord`. The copy of `*r.ResolvedAt` is a new value here as there.
unfoldable pub record_to_record : Record → ExportedRecord
record_to_record r = record {
  id = r.id;
  condition = r.condition;
  status = r.status;
  owner_token = r.owner_token;
  created_at = r.created_at;
  resolved_at = r.resolved_at;
}

pub pending-ne-resolved : str_eq status_pending status_resolved ≡ false
unfolding str_eq
pending-ne-resolved = refl
