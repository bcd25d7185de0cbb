-- ===== src/Cli/Resolve.antt =====
-- internal/cli/resolve.go: `mcp-chain resolve <id> [--force]`.
use mcp_chain.Base.{[], ◌++◌, Bytes, codes, if◌then◌else◌, Bool}
use mcp_chain.Store.Errors.{
  Result, ok, err, errors_is, err_unknown_id, err_not_owner, err_already_resolved,
}
use mcp_chain.Store.Methods
use mcp_chain.Cli.Output.{Outcome, complains, fails_with, silent}
use mcp_chain.Store.Disk.{Disk, Codec, Env}
use mcp_chain.Store.Methods.{on_result}

-- The switch of `runResolve` on what `st.Resolve` returned.
unfoldable pub resolve_outcome : Bytes → Result (Unit {0}) → Outcome
resolve_outcome id (ok _) = silent
resolve_outcome id (err e) =
    if errors_is e err_unknown_id
    then complains (codes "unknown id: " ++ id)
    else if errors_is e err_not_owner
    then complains (codes "not owner (use --force to override)")
    else if errors_is e err_already_resolved
    then complains (codes "already resolved")
    else fails_with e

module _ {Doc : Type 0} (json : Codec Doc) where
  -- `runResolve`: the owner token is empty.
  unfoldable pub run_resolve : Bytes → Bytes → Bool → Env → Disk Doc → Outcome × Disk Doc
  unfolding resolve_outcome
  run_resolve path id force env disk = elim (Methods.open_store path) [
    | err e ↦ (fails_with e, disk)
    | ok _ ↦
        on_result (resolve_outcome id)
          (Methods.resolve json id [] (record { force = force }) env disk)
  ]
