-- ===== src/Cli/Purge.antt =====
-- internal/cli/purge.go: `mcp-chain purge [<id>|--all|--resolved]`.
use mcp_chain.Base.{ℕ, ◌++◌, Bytes, codes, if◌then◌else◌, Bool}
use mcp_chain.Store.Errors.{Result, ok, err, errors_is, err_unknown_id, err_purge_arg_required}
use mcp_chain.Store.Methods
use mcp_chain.Cli.Output.{Outcome, complains, fails_with, silent}
use mcp_chain.Store.Disk.{Disk, Codec, Env}
use mcp_chain.Store.Methods.{on_result}

-- The switch of `runPurge` on what `st.Purge` returned.
unfoldable pub purge_outcome : Bytes → Result ℕ → Outcome
purge_outcome id (ok _) = silent
purge_outcome id (err e) =
    if errors_is e err_purge_arg_required
    then complains (codes "purge requires <id>, --all, or --resolved")
    else if errors_is e err_unknown_id
    then complains (codes "unknown id: " ++ id)
    else fails_with e

module _ {Doc : Type 0} (json : Codec Doc) where
  -- `runPurge`.
  unfoldable pub run_purge : Bytes → Bytes → Bool → Bool → Env → Disk Doc → Outcome × Disk Doc
  unfolding purge_outcome
  run_purge path id all resolved_only env disk = elim (Methods.open_store path) [
    | err e ↦ (fails_with e, disk)
    | ok _ ↦
        on_result (purge_outcome id)
          (Methods.purge json (record { id = id; all = all; resolved = resolved_only }) env disk)
  ]
