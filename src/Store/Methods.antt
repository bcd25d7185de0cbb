-- ===== src/Store/Methods.antt =====
-- The methods of `Store` (internal/store/store.go) over a state file.
use mcp_chain.Base.{◌==◌, if◌then◌else◌, not, List, [], Bytes, ℕ, str_eq}
use mcp_chain.Store.Errors.{Result, ok, err, sentinel, err_purge_arg_required, empty_path}
use mcp_chain.Store.Schema.{ExportedRecord, PurgeOptions, ResolveOptions}
use mcp_chain.Store.Slug.{validate_id}
use mcp_chain.Store.Ops.{
  register_fn, register_with_id_fn, resolve_fn, get_fn, list_fn, purge_fn, purge_targets,
}
use mcp_chain.Store.Disk.{Codec, Env, Disk, with_locked_state, with_shared_lock}

-- `Open`: the handle is the path.
unfoldable pub open_store : Bytes → Result Bytes
open_store path = if str_eq path [] then err empty_path else ok path

-- What a caller makes of a method's answer.
abbrev pub on_result : {A B Doc : Type 0} → (Result A → B) → Result A × Disk Doc → B × Disk Doc
on_result f (r, disk) = (f r, disk)

module _ {Doc : Type 0} (json : Codec Doc) where
  -- `Register`.
  unfoldable pub register : Bytes → Bytes → Env → Disk Doc → Result Bytes × Disk Doc
  register owner_token condition env disk =
      with_locked_state json (register_fn owner_token condition env.now) env disk

  -- `RegisterWithID`.
  unfoldable pub register_with_id :
      Bytes → Bytes → Bytes → Env → Disk Doc → Result (Unit {0}) × Disk Doc
  register_with_id owner_token id condition env disk = elim (validate_id id) [
    | err e ↦ (err e, disk)
    | ok _ ↦ with_locked_state json (register_with_id_fn owner_token id condition env.now) env disk
  ]

  -- `Resolve`.
  unfoldable pub resolve :
      Bytes → Bytes → ResolveOptions → Env → Disk Doc → Result (Unit {0}) × Disk Doc
  resolve id owner_token opts env disk =
      with_locked_state json (resolve_fn id owner_token opts env.now) env disk

  -- `Get`.
  unfoldable pub get : Bytes → Env → Disk Doc → Result ExportedRecord
  get id env disk = with_shared_lock json (get_fn id) env disk

  -- `List`.
  unfoldable pub list : Env → Disk Doc → Result (List ExportedRecord)
  list env disk = with_shared_lock json list_fn env disk

  -- `Purge`.
  unfoldable pub purge : PurgeOptions → Env → Disk Doc → Result ℕ × Disk Doc
  purge opts env disk =
      if not (purge_targets opts == 1)
      then (err (sentinel err_purge_arg_required), disk)
      else with_locked_state json (purge_fn opts) env disk
