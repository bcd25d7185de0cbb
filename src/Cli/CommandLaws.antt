-- ===== src/Cli/CommandLaws.antt =====
-- What the exit codes of `mcp-chain resolve` and `mcp-chain purge` say of the state file.
use mcp_chain.Base.{
  ◌≡◌, refl, some, arith, Bytes, ◌≢◌, inl, inr, false, Bool, [], ◌⊎◌, Option-cases, Bool-cases,
  codes, str_eq, str_eq_ne, sym, ◌==◌, subst,
}
use mcp_chain.Store.Errors.{
  errors_is, ok, err, sentinel, GoError, Result-cases, err_unknown_id, err_already_resolved,
  err_not_owner, Result,
}
use mcp_chain.Store.Methods
use mcp_chain.Cli.Resolve.{resolve_outcome, run_resolve}
use mcp_chain.Cli.Purge.{purge_outcome, run_purge}
use mcp_chain.Store.Disk.{Env, Disk, Codec, with_locked_state}
use mcp_chain.Store.Schema.{
  PurgeOptions, Time, Record, State, status_resolved, ResolveOptions, current_version,
}
use mcp_chain.Store.Invariant.{IsValid}
use mcp_chain.Store.Ops.{purge_targets, resolve_fn}
use mcp_chain.Store.Transaction.{content}
use mcp_chain.Base.GoMap.{lookup, IsSorted, insert-IsSorted}
use mcp_chain.Cli.Output.{complains}
use mcp_chain.Store.Loads.{refused_anyway}
use mcp_chain.Store.Quiet.{settled}
use mcp_chain.Store.Machine.{Request, step, serve, resolve}
use mcp_chain.Store.Faults.{execute-err}
use mcp_chain.Cli.StatusLaws.{open_store-ok}
use mcp_chain.Store.Refinement.{execute}
use mcp_chain.Store.Durable.{ok_is_durable}

resolve_outcome-err : (id : Bytes) (e : GoError) → (resolve_outcome id (err e)).exit_code ≡ 1
unfolding resolve_outcome
resolve_outcome-err id e = ground arith

purge_outcome-err : (id : Bytes) (e : GoError) → (purge_outcome id (err e)).exit_code ≡ 1
unfolding purge_outcome
purge_outcome-err id e = ground arith

-- Without the empty token on the record there is no way past the owner check but `--force`.
unforced_refused :
    (id : Bytes) (now : Time) (st : State)
    → ((r : Record) → lookup id st.records ≡ some r → r.owner_token ≢ [])
    → (e : GoError) × (resolve_fn id [] (record { force = false }) now st ≡ err e)
unfolding resolve_fn
unforced_refused id now st owned = elim (Option-cases (lookup id st.records)) [
  | inl missing ↦ (sentinel err_unknown_id, ground arith)
  | inr (r, found) ↦ elim (Bool-cases (str_eq r.status status_resolved)) [
    | inl already ↦ (sentinel err_already_resolved, ground arith)
    | inr pending ↦ (
      sentinel err_not_owner,
      ground (arith, str_eq_ne [] r.owner_token (λ e. owned r found (sym e))),
    )
  ]
]

-- `mcp-chain resolve <id>` without `--force`, on a file whose record of that id, if there is one, has
-- an owner token: the exit code is 1 and the file is as it was, whatever errors the operating system
-- reports.
pub run_resolve_unforced :
    {Doc : Type 0} (json : Codec Doc) (path id : Bytes) (env : Env) (disk : Disk Doc) (st : State)
    → content json disk ≡ ok st
    → ((r : Record) → lookup id st.records ≡ some r → r.owner_token ≢ [])
    → ((run_resolve json path id false env disk).0.exit_code ≡ 1)
      × ((run_resolve json path id false env disk).1 ≡ disk)
unfolding run_resolve Methods.resolve
run_resolve_unforced json path id env disk st held owned =
    elim (Result-cases (Methods.open_store path)) [
      | inl (e, bad) ↦ (ground arith, ground arith)
      | inr (_, good) ↦
          let (e, refused) = unforced_refused id env.now st owned in
          let fn = resolve_fn id [] (record { force = false }) env.now in
          let (x, whole) = refused_anyway json fn env disk st e held refused in
          (ground (arith, whole, resolve_outcome-err id x), ground (arith, whole))
    ]

resolve_zero :
    (id : Bytes) (r : Result (Unit {0})) → (resolve_outcome id r).exit_code ≡ 0 → r ≡ ok tt
resolve_zero id (ok tt) h = refl
resolve_zero id (err e) h = absurd (omega (arith, resolve_outcome-err id e))

-- A successful `Resolve` found a record that was not resolved.
resolve_fn-inv :
    (id token : Bytes) (opts : ResolveOptions) (now : Time) (st st' : State)
    → resolve_fn id token opts now st ≡ ok (st', tt)
    → (r : Record) × (lookup id st.records ≡ some r)
      × (str_eq r.status status_resolved ≡ false)
      × (st' ≡ settled st id r now)
unfolding resolve_fn
resolve_fn-inv id token opts now st st' h = elim (Option-cases (lookup id st.records)) [
  | inl missing ↦ absurd (ground arith)
  | inr (r, found) ↦ elim (Bool-cases (str_eq r.status status_resolved)) [
    | inl already ↦ absurd (ground arith)
    | inr pending ↦ (r, found, pending, ground arith)
  ]
]

-- `mcp-chain resolve <id>` with or without `--force`, on a file that held a well-formed state, where
-- the state behind the resolution is encodable: exit code 0 is given only where the file held an
-- unresolved record of that id, and the file then holds the same state with that record resolved at
-- the time of the call.
pub run_resolve_zero :
    {Doc : Type 0} (json : Codec Doc) (path id : Bytes) (force : Bool) (env : Env) (disk : Disk Doc)
    (st : State)
    → (run_resolve json path id force env disk).0.exit_code ≡ 0
    → content json disk ≡ ok st
    → IsValid st
    → json.IsEncodable (step st (env.now, resolve id [] (record { force = force })))
    → (r : Record) × (lookup id st.records ≡ some r)
      × (str_eq r.status status_resolved ≡ false)
      × (content json (run_resolve json path id force env disk).1 ≡ ok (settled st id r env.now))
unfolding run_resolve Methods.resolve step serve
run_resolve_zero json path id force env disk st zero held v enc =
    let fn = resolve_fn id [] (record { force = force }) env.now in
    elim (Result-cases (Methods.open_store path)) [
      | inl (e, bad) ↦ absurd (ground arith)
      | inr (_, good) ↦
          let value = resolve_zero id (with_locked_state json fn env disk).0 (ground arith) in
          let (st', fn_ok, durable) = ok_is_durable json fn env disk tt st value held in
          let (r, found, pending, e) =
            resolve_fn-inv id [] (record { force = force }) env.now st st' fn_ok in
          (
            r,
            found,
            pending,
            rw (good, run_resolve)
                (subst (λ (x : State). content json (with_locked_state json fn env disk).1 ≡ ok x) e
                  (durable (rw fn_ok at enc)
                    (subst (λ (x : State). IsSorted x.records) (sym e)
                      (insert-IsSorted id _ st.records v.sorted))
                    (subst (λ (x : State). x.version ≡ current_version) (sym e) v.version))),
          )
    ]

-- A `mcp-chain purge` that does not name exactly one target fails before it looks at the file.
pub run_purge_targets :
    {Doc : Type 0} (json : Codec Doc) (path : Bytes) (opts : PurgeOptions) (env : Env)
    (disk : Disk Doc)
    → path ≢ []
    → purge_targets opts ≢ 1
    → run_purge json path opts.id opts.all opts.resolved env disk
      ≡ (complains (codes "purge requires <id>, --all, or --resolved"), disk)
unfolding run_purge purge_outcome Methods.purge errors_is
run_purge_targets json path opts env disk ne several =
    let refused : (purge_targets opts == 1) ≡ false = ground arith in
    rw (open_store-ok path ne, refused, run_purge, Methods.purge)

-- A `mcp-chain purge` with an exit code other than 0 has left the file as it was, unless the release
-- of the lock failed.
pub run_purge_nonzero :
    {Doc : Type 0} (json : Codec Doc) (path : Bytes) (opts : PurgeOptions) (env : Env)
    (disk : Disk Doc)
    → (run_purge json path opts.id opts.all opts.resolved env disk).0.exit_code ≢ 0
    → ((run_purge json path opts.id opts.all opts.resolved env disk).1 ≡ disk)
      ⊎ ((text : Bytes) × (env.unlock_error ≡ some text))
unfolding run_purge
run_purge_nonzero json path opts env disk ne = elim (Result-cases (Methods.open_store path)) [
  | inl (e, bad) ↦ inl (ground arith)
  | inr (_, good) ↦ elim (Result-cases (Methods.purge json opts env disk).0) [
    | inr (n, value) ↦ absurd (ne (unfold purge_outcome in ground arith))
    | inl (e, value) ↦
        elim (execute-err json (Request.purge opts) env disk e (unfold execute in ground arith)) [
          | inl kept ↦ inl (unfold execute in ground arith)
          | inr failure ↦ inr (failure.0, failure.1)
        ]
  ]
]
