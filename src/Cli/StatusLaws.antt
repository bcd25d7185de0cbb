-- ===== src/Cli/StatusLaws.antt =====
-- The contract of `mcp-chain status`: what its exit code says of the state file.
use mcp_chain.Base.{
  ◌≡◌, refl, none, some, arith, Bytes, ◌≢◌, Option, inl, inr, ◌∷◌, ◌++◌, ◌∙◌, str_eq_iff, [],
  str_eq_ne, codes, str_eq_refl, Option-cases,
}
use mcp_chain.Store.Errors.{ok, err, Result, errors_is, unwrap, Result-cases}
use mcp_chain.Store.Methods
use mcp_chain.Cli.Output.{text, Outcome, complains}
use mcp_chain.Cli.Status.{status_outcome, run_status}
use mcp_chain.Store.Disk.{Codec, Disk, Env, with_shared_lock}
use mcp_chain.Store.Schema.{
  Record, State, pending-ne-resolved, Time, ExportedRecord, status_resolved, record_to_record,
  status_pending,
}
use mcp_chain.Store.Invariant.{IsValid}
use mcp_chain.Store.Ops.{get_fn}
use mcp_chain.Store.Transaction.{content, quiet, load_quiet}
use mcp_chain.Base.GoMap.{lookup}
use mcp_chain.Store.Refinement.{shared_quiet}
use mcp_chain.Store.Loads.{shared_is_current}

-- The promised outcome, by the time of resolution of the record.
abbrev pub promised : Bytes → Option Record → Outcome
promised id none = complains (codes "unknown id: " ++ id)
promised id (some r) = elim r.resolved_at [
  | some t ↦ record { out = text (codes "resolved\n") ∷ []; err_out = []; exit_code = 0 }
  | none ↦ record { out = text (codes "pending\n") ∷ []; err_out = []; exit_code = 2 }
]

pub open_store-ok : (path : Bytes) → path ≢ [] → Methods.open_store path ≡ ok path
unfolding Methods.open_store
open_store-ok path ne = rw (str_eq_ne path [] ne)

status_promised :
    (id : Bytes) (st : State) (o : Option Record)
    → lookup id st.records ≡ o
    → IsValid st
    → status_outcome id (get_fn id st) ≡ promised id o
unfolding status_outcome get_fn record_to_record errors_is unwrap
status_promised id st none e v = rw (e, status_outcome, get_fn)
status_promised id st (some r) e v = elim (v.entries id r e).status [
  | inl (pending, no_time) ↦ ground (arith, pending-ne-resolved, str_eq_refl status_pending)
  | inr (t, resolved, time) ↦ ground (arith, str_eq_refl status_resolved)
]

-- Without errors of the operating system, on a non-empty path and a file that holds a well-formed
-- state: exit code 1 and a line on stderr for an unknown id, exit code 0 and "resolved" on stdout for
-- a record with a time of resolution, exit code 2 and "pending" on stdout for one without.
pub run_status-promised :
    {Doc : Type 0} (json : Codec Doc) (path id : Bytes) (now : Time) (disk : Disk Doc) (st : State)
    → path ≢ []
    → content json disk ≡ ok st
    → IsValid st
    → run_status json path id (quiet now) disk ≡ promised id (lookup id st.records)
unfolding run_status Methods.get
run_status-promised json path id now disk st ne held v =
    let loaded = load_quiet json (quiet now) disk refl ∙ held in
    let got = shared_quiet json (get_fn id) now disk st loaded in
    rw (open_store-ok path ne, got, run_status)
      (status_promised id st (lookup id st.records) refl v)

zero_needs_resolved :
    (id : Bytes) (r : Result ExportedRecord)
    → (status_outcome id r).exit_code ≡ 0
    → (x : ExportedRecord) × (r ≡ ok x) × (x.status ≡ status_resolved)
unfolding status_outcome
zero_needs_resolved id (ok x) h = (
  x,
  refl,
  ground (arith, str_eq_iff x.status status_resolved, str_eq_iff x.status status_pending),
)
zero_needs_resolved id (err e) h = absurd (ground arith)

get_fn-inv :
    (id : Bytes) (st : State) (x : ExportedRecord)
    → get_fn id st ≡ ok x
    → (r : Record) × (lookup id st.records ≡ some r) × (x.status ≡ r.status)
unfolding get_fn record_to_record
get_fn-inv id st x e = elim (Option-cases (lookup id st.records)) [
  | inl missing ↦ absurd (ground arith)
  | inr (r, found) ↦ (r, found, ground arith)
]

-- Whatever errors the operating system reports, exit code 0 is never given without a record of that
-- id in the file whose status is "resolved".
pub run_status_zero :
    {Doc : Type 0} (json : Codec Doc) (path id : Bytes) (env : Env) (disk : Disk Doc)
    → (run_status json path id env disk).exit_code ≡ 0
    → (st : State) × (r : Record) × (content json disk ≡ ok st)
      × (lookup id st.records ≡ some r)
      × (r.status ≡ status_resolved)
unfolding run_status Methods.get
run_status_zero json path id env disk h = elim (Result-cases (Methods.open_store path)) [
  | inl (e, bad) ↦ absurd (ground arith)
  | inr (_, good) ↦
      let (x, value, resolved) =
        zero_needs_resolved id (with_shared_lock json (get_fn id) env disk) (ground arith) in
      let (st, held, got) = shared_is_current json (get_fn id) env disk x value in
      let (r, found, same) = get_fn-inv id st x got in (st, r, held, found, ground arith)
]
