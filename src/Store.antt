-- ===== src/Store.antt =====
-- internal/store: the versioned state file and its operations.
pub mod Errors
pub mod Schema
pub mod Slug
pub mod Ops
pub mod Disk
pub mod Marshal
pub mod Unmarshal
pub mod FieldLaws
pub mod RecordText
pub mod Joins
pub mod StateText
pub mod Encodable
pub mod JsonFile
pub mod Methods
pub mod Machine
pub mod PurgeLaws
pub mod Effect
pub mod Invariant
pub mod Identity
pub mod Fate
pub mod Collision
pub mod Transaction
pub mod Refinement
pub mod Faults
pub mod Loads
pub mod Durable
pub mod Quiet
pub mod Windows
pub mod WindowsLaws
pub mod Concurrent
pub mod Exclusion
pub mod Serial
pub mod Phases
pub mod Progress
pub mod Leaks
pub mod Liveness
pub mod Bounded
