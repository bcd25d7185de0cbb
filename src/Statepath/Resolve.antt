-- ===== src/Statepath/Resolve.antt =====
-- `Resolve` of internal/statepath/resolve.go.
use mcp_chain.Base.{Bytes, codes, Option, none, some, [], if◌then◌else◌, str_eq}
use mcp_chain.Statepath.Paths.{join}

abbrev pub state_file_name : Bytes
state_file_name = codes "state.json"

abbrev pub dir_name : Bytes
dir_name = codes "mcp-chain"

abbrev pub home_subdir : Bytes
home_subdir = codes ".mcp-chain"

-- A path or an error: `ErrHomeUnset`, or the error of `os.MkdirAll` with the directory.
pub data Resolved : Type 0 where
  path : Bytes → Resolved
  err_home_unset : Resolved
  mkdir_failed : Bytes → Bytes → Resolved

-- `parent`, by `os.Getenv`, which gives the empty string for an unset variable.
unfoldable pub parent_dir : (Bytes → Bytes) → Option Bytes
parent_dir getenv =
    let x = getenv (codes "XDG_STATE_HOME") in
    let h = getenv (codes "HOME") in
    if str_eq x []
    then (if str_eq h [] then none else some (join h home_subdir))
    else some (join x dir_name)

-- `Resolve`: the directory that `os.MkdirAll` is called with, if it is, and what is returned.
unfoldable pub resolve : (Bytes → Bytes) → Option Bytes → Option Bytes × Resolved
unfolding parent_dir
resolve getenv mkdir_error = elim (parent_dir getenv) [
  | none ↦ (none, err_home_unset)
  | some parent ↦ (
    some parent,
    elim mkdir_error [ some e ↦ mkdir_failed parent e | none ↦ path (join parent state_file_name) ],
  )
]
