-- ===== src/Mcpserver/Errors.antt =====
-- internal/mcpserver/errors.go: the error codes that a client reads.
use mcp_chain.Base.{◌≡◌, refl, Option, none, some, if◌then◌else◌, Bytes, codes}
use mcp_chain.Store.Errors.{
  GoError, Sentinel, errors_is, unwrap, sentinel, invalid_length, err_unknown_id,
  err_already_resolved, err_not_owner, err_schema_version, err_id_taken, err_invalid_id,
  err_corrupt_json, err_purge_arg_required,
}

-- `errorBody`, in a tool result with `IsError` set. The message is a fixed text or that of an error.
pub data Message : Type 0 where
  plain : Bytes → Message
  error_text : GoError → Message

pub record ErrorBody : Type 0 where
  pub code : Bytes
  pub message : Message

-- `errorContent`.
abbrev pub error_content : Bytes → Message → ErrorBody
error_content code message = record { code = code; message = message }

-- `mapStoreError`.
unfoldable pub map_store_error : GoError → ErrorBody
map_store_error e =
    if errors_is e err_unknown_id
    then error_content (codes "unknown_id") (plain (codes "unknown lock id"))
    else if errors_is e err_already_resolved
    then error_content (codes "already_resolved") (plain (codes "lock is already resolved"))
    else if errors_is e err_not_owner
    then error_content (codes "not_owner") (plain (codes "this session did not register this lock"))
    else if errors_is e err_schema_version
    then error_content (codes "schema_error") (error_text e)
    else if errors_is e err_id_taken
    then error_content (codes "id_taken") (error_text e)
    else if errors_is e err_invalid_id
    then error_content (codes "invalid_id") (error_text e)
    else error_content (codes "internal") (error_text e)

-- The codes by sentinel: ErrCorruptJSON and ErrPurgeArgRequired have none of their own.
abbrev pub code_of : Option Sentinel → Bytes
code_of none = codes "internal"
code_of (some err_unknown_id) = codes "unknown_id"
code_of (some err_already_resolved) = codes "already_resolved"
code_of (some err_not_owner) = codes "not_owner"
code_of (some err_schema_version) = codes "schema_error"
code_of (some err_id_taken) = codes "id_taken"
code_of (some err_invalid_id) = codes "invalid_id"
code_of (some err_corrupt_json) = codes "internal"
code_of (some err_purge_arg_required) = codes "internal"

-- The code that a client reads depends on nothing but the sentinel that the error wraps: six
-- sentinels have a code each, and every other error, ErrCorruptJSON and ErrPurgeArgRequired
-- included, is "internal".
pub code-map_store_error : (e : GoError) → (map_store_error e).code ≡ code_of (unwrap e)
unfolding map_store_error errors_is unwrap
code-map_store_error (sentinel err_unknown_id) = refl
code-map_store_error (sentinel err_already_resolved) = refl
code-map_store_error (sentinel err_not_owner) = refl
code-map_store_error (sentinel err_schema_version) = refl
code-map_store_error (sentinel err_corrupt_json) = refl
code-map_store_error (sentinel err_purge_arg_required) = refl
code-map_store_error (sentinel err_id_taken) = refl
code-map_store_error (sentinel err_invalid_id) = refl
code-map_store_error (invalid_length n) = refl
code-map_store_error _ = refl
