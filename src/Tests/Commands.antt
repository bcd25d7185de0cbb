-- ===== src/Tests/Commands.antt =====
-- Tests of the tools and the commands, and their theorems on the sample file.
use mcp_chain.Store.Methods
use mcp_chain.Base.{
  ◌≡◌, refl, codes, ◌≢◌, some, none, arith, false, true, [], ◌∷◌, ◌⊎◌, Bytes, All, str_eq, length,
  sym,
}
use mcp_chain.Store.Errors.{ok, id_taken, unwrap, errors_is}
use mcp_chain.Cli.Output.{text, complains}
use mcp_chain.Mcpserver.Errors.{code-map_store_error, map_store_error}
use mcp_chain.Store.Schema.{PurgeOptions, Record, State, status_resolved, record_to_record}
use mcp_chain.Tests.Samples.{
  sample-held, sample-IsValid, path, sample, direct, ash, tokens_differ, path_set,
}
use mcp_chain.Mcpserver.Owner.{IsByte, new_owner_token, new_owner_token_lem}
use mcp_chain.Idgen.Hex.{IsHexDigit}
use mcp_chain.Base.GoMap.{lookup}
use mcp_chain.Cli.Status.{run_status}
use mcp_chain.Mcpserver.Handlers.{register_handler, resolve_handler}
use mcp_chain.Store.Transaction.{content, quiet}
use mcp_chain.Cli.Resolve.{run_resolve}
use mcp_chain.Store.Ops.{purge_targets, get_fn, resolve_fn, purge_fn}
use mcp_chain.Cli.Purge.{run_purge}
use mcp_chain.Store.Disk.{with_locked_state, with_shared_lock}
use mcp_chain.Cli.StatusLaws.{promised, run_status_zero, run_status-promised}
use mcp_chain.Cli.CommandLaws.{
  run_resolve_unforced, run_purge_nonzero, run_purge_targets, run_resolve_zero,
}
use mcp_chain.Store.Quiet.{settled}
use mcp_chain.Idgen.Allocate.{allocate}
use mcp_chain.Rendezvous.{rendezvous}

ash_found : lookup (codes "ash") sample.records ≡ some ash
unfolding lookup str_eq
ash_found = refl

status_pending_run :
    run_status direct path (codes "ash") (quiet 30) (some sample)
    ≡ record { out = text (codes "pending\n") ∷ []; err_out = []; exit_code = 2 }
unfolding run_status Methods.open_store Methods.get with_shared_lock get_fn lookup record_to_record
    str_eq
status_pending_run = refl

status_zero_run : (run_status direct path (codes "oak") (quiet 30) (some sample)).exit_code ≡ 0
unfolding run_status Methods.open_store Methods.get with_shared_lock get_fn lookup record_to_record
    str_eq
status_zero_run = refl

rendezvous_example :
    let id = allocate 5 in
    let registering =
      register_handler direct
        (codes "a1")
        (record { condition = codes "green" })
        (quiet 1)
        (some sample) in
    let resolving =
      resolve_handler direct (codes "a1") (record { id = id }) (quiet 4) registering.1 in
    run_status direct path id (quiet 5) resolving.1
    ≡ record { out = text (codes "resolved\n") ∷ []; err_out = []; exit_code = 0 }
rendezvous_example =
    (rendezvous direct (codes "a1") (codes "b2") (codes "green") path 1 2 3 4 5 (some sample) sample
      path_set sample-held sample-IsValid tt tt tokens_differ).4

run_status-promised_example :
    run_status direct path (codes "ash") (quiet 30) (some sample)
    ≡ promised (codes "ash") (lookup (codes "ash") sample.records)
run_status-promised_example =
    run_status-promised direct path (codes "ash") 30 (some sample) sample path_set sample-held
      sample-IsValid

run_status_zero_example :
    (st : State) × (r : Record) × (content direct (some sample) ≡ ok st)
    × (lookup (codes "oak") st.records ≡ some r)
    × (r.status ≡ status_resolved)
run_status_zero_example =
    run_status_zero direct path (codes "oak") (quiet 30) (some sample) status_zero_run

owned : (r : Record) → lookup (codes "ash") sample.records ≡ some r → r.owner_token ≢ []
owned r e none_left = cc (sym ash_found, e, none_left)

run_resolve_unforced_example :
    ((run_resolve direct path (codes "ash") false (quiet 30) (some sample)).0.exit_code ≡ 1)
    × ((run_resolve direct path (codes "ash") false (quiet 30) (some sample)).1 ≡ some sample)
run_resolve_unforced_example =
    run_resolve_unforced direct path (codes "ash") (quiet 30) (some sample) sample sample-held owned

forced_zero : (run_resolve direct path (codes "ash") true (quiet 30) (some sample)).0.exit_code ≡ 0
unfolding run_resolve Methods.open_store Methods.resolve with_locked_state resolve_fn lookup str_eq
forced_zero = refl

run_resolve_zero_example :
    (r : Record) × (lookup (codes "ash") sample.records ≡ some r)
    × (str_eq r.status status_resolved ≡ false)
    × (content direct (run_resolve direct path (codes "ash") true (quiet 30) (some sample)).1
        ≡ ok (settled sample (codes "ash") r 30))
run_resolve_zero_example =
    run_resolve_zero direct path (codes "ash") true (quiet 30) (some sample) sample forced_zero
      sample-held sample-IsValid tt

abbrev no_target : PurgeOptions
no_target = record { id = []; all = false; resolved = false }

no_target_count : purge_targets no_target ≢ 1
unfolding purge_targets str_eq
no_target_count e = omega arith

run_purge_targets_example :
    run_purge direct path [] false false (quiet 30) (some sample)
    ≡ (complains (codes "purge requires <id>, --all, or --resolved"), some sample)
run_purge_targets_example =
    run_purge_targets direct path no_target (quiet 30) (some sample) path_set no_target_count

abbrev unknown : PurgeOptions
unknown = record { id = codes "yew"; all = false; resolved = false }

unknown_nonzero :
    (run_purge direct path (codes "yew") false false (quiet 30) (some sample)).0.exit_code ≢ 0
unfolding run_purge Methods.open_store Methods.purge with_locked_state purge_fn purge_targets lookup
    str_eq errors_is
unknown_nonzero e = omega arith

run_purge_nonzero_example :
    ((run_purge direct path (codes "yew") false false (quiet 30) (some sample)).1 ≡ some sample)
    ⊎ ((text : Bytes) × (none ≡ some text))
run_purge_nonzero_example =
    run_purge_nonzero direct path unknown (quiet 30) (some sample) unknown_nonzero

code-map_store_error_example : (map_store_error (id_taken (codes "ash"))).code ≡ codes "id_taken"
unfolding unwrap
code-map_store_error_example = code-map_store_error (id_taken (codes "ash"))

abbrev random_bytes : Bytes
random_bytes = 0 ∷ 255 ∷ 2 ∷ 3 ∷ 4 ∷ 5 ∷ 6 ∷ 7 ∷ 8 ∷ 9 ∷ 10 ∷ 11 ∷ 12 ∷ 13 ∷ 14 ∷ 171 ∷ []

new_owner_token_lem_example :
    (token : Bytes) × (new_owner_token (ok random_bytes) ≡ ok token)
    × (length token ≡ 32)
    × All IsHexDigit token
    × ((other : Bytes)
        → All IsByte other
        → new_owner_token (ok other) ≡ ok token
        → other ≡ random_bytes)
new_owner_token_lem_example = new_owner_token_lem random_bytes (omega arith) refl
