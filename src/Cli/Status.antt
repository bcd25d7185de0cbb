-- ===== src/Cli/Status.antt =====
-- internal/cli/status.go: `mcp-chain status <id>`.
use mcp_chain.Base.{[], ◌∷◌, ◌++◌, Bytes, codes, if◌then◌else◌, str_eq}
use mcp_chain.Store.Errors.{Result, ok, err, errors_is, err_unknown_id}
use mcp_chain.Store.Methods
use mcp_chain.Cli.Output.{Outcome, text, complains, fails_with}
use mcp_chain.Store.Disk.{Disk, Codec, Env}
use mcp_chain.Store.Schema.{ExportedRecord}

-- The switch of `runStatus` on what `st.Get(id)` returned. A record with a third status goes to the
-- last branch, which prints the nil error.
unfoldable pub status_outcome : Bytes → Result ExportedRecord → Outcome
status_outcome id (ok r) =
    if str_eq r.status (codes "resolved")
    then record { out = text (codes "resolved\n") ∷ []; err_out = []; exit_code = 0 }
    else if str_eq r.status (codes "pending")
    then record { out = text (codes "pending\n") ∷ []; err_out = []; exit_code = 2 }
    else complains (codes "<nil>")
status_outcome id (err e) =
    if errors_is e err_unknown_id then complains (codes "unknown id: " ++ id) else fails_with e

module _ {Doc : Type 0} (json : Codec Doc) where
  -- `runStatus`.
  unfoldable pub run_status : Bytes → Bytes → Env → Disk Doc → Outcome
  unfolding status_outcome
  run_status path id env disk = elim (Methods.open_store path) [
    | err e ↦ fails_with e
    | ok _ ↦ status_outcome id (Methods.get json id env disk)
  ]
