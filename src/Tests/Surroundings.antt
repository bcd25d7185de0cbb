-- ===== src/Tests/Surroundings.antt =====
-- The subcommands in concrete surroundings.
use mcp_chain.Base.{
  ◌≡◌, ◌≢◌, refl, codes, Bytes, true, false, some, none, [], if◌then◌else◌, str_eq,
}
use mcp_chain.Cli.Commands.{
  Files, Surroundings, state_path, status_command, list_command, resolve_command, purge_command,
  serves, serve_command, exits_without,
}
use mcp_chain.Cli.CommandsLaws.{Kept, commands_share_file, commands_without_path}
use mcp_chain.Cli.Listing.{Flush, run_list}
use mcp_chain.Cli.Purge.{run_purge}
use mcp_chain.Cli.Resolve.{run_resolve}
use mcp_chain.Cli.Status.{run_status}
use mcp_chain.Mcpserver.Owner.{new_owner_token, encode_to_string}
use mcp_chain.Statepath.Paths.{clean, join, split_slash, walk, step_into, path_text}
use mcp_chain.Statepath.Resolve
use mcp_chain.Statepath.Resolve.{path, parent_dir}
use mcp_chain.Store.Errors.{Result, ok}
use mcp_chain.Store.Methods
use mcp_chain.Store.Schema.{State}
use mcp_chain.Store.Transaction.{quiet}
use mcp_chain.Tests.Samples.{sample, direct}

-- XDG_STATE_HOME is set.
abbrev with_xdg : Bytes → Bytes
with_xdg name = if str_eq name (codes "XDG_STATE_HOME") then codes "/s" else []

abbrev pub here : Surroundings
here = record { getenv = with_xdg; mkdir_error = none; env = quiet 30; opened_anyway = false }

abbrev pub place : Bytes
place = codes "/s/mcp-chain/state.json"

abbrev pub files : Files State
files p = if str_eq p place then some sample else none

-- The content of an empty file, for which the codec of the samples has no document of its own.
abbrev pub nothing : State
nothing = record sample { version = 0 }

abbrev pub whole : Flush
whole written = (written, none)

abbrev pub random : Result Bytes
random = ok (codes "0123456789abcdef")

started : serve_command here random ≡ serves place (encode_to_string (codes "0123456789abcdef"))
unfolding serve_command Resolve.resolve parent_dir join clean split_slash walk step_into path_text
    str_eq Methods.open_store new_owner_token
started = refl

abbrev lock_place : Bytes
lock_place = codes "/s/mcp-chain/state.json.lock"

-- The first `status` makes the lock file.
makes_lock_file :
    (status_command direct nothing here (codes "ash") files).1 lock_place ≡ some nothing
unfolding status_command Resolve.resolve parent_dir join clean split_slash walk step_into path_text
    str_eq Methods.open_store
makes_lock_file = refl

lock_elsewhere : lock_place ≢ place
lock_elsewhere e = cc

commands_share_file_example :
    let asking = status_command direct nothing here (codes "ash") files in
    let listing = list_command direct nothing here whole files in
    let resolving = resolve_command direct nothing here (codes "ash") true files in
    let purging = purge_command direct nothing here (codes "ash") false false files in
    let resolve_run = run_resolve direct place (codes "ash") true (quiet 30) (files place) in
    let purge_run = run_purge direct place (codes "ash") false false (quiet 30) (files place) in
    ((asking.0 ≡ run_status direct place (codes "ash") (quiet 30) (files place))
      × (asking.1 place ≡ files place)
      × Kept nothing place lock_place files asking.1)
    × ((listing.0 ≡ run_list direct whole place (quiet 30) (files place))
        × (listing.1 place ≡ files place)
        × Kept nothing place lock_place files listing.1)
    × ((resolving.0 ≡ resolve_run.0)
        × (resolving.1 place ≡ resolve_run.1)
        × Kept nothing place lock_place files resolving.1)
    × ((purging.0 ≡ purge_run.0)
        × (purging.1 place ≡ purge_run.1)
        × Kept nothing place lock_place files purging.1)
commands_share_file_example =
    commands_share_file direct nothing here here random place
      (encode_to_string (codes "0123456789abcdef")) lock_place (codes "ash") true false false whole
      files started refl refl lock_elsewhere

-- No variable is set.
abbrev bare : Surroundings
bare = record { getenv = λ name. []; mkdir_error = none; env = quiet 30; opened_anyway = false }

no_path_there : (p : Bytes) → state_path bare ≢ path p
unfolding Resolve.resolve parent_dir str_eq
no_path_there p e = cc

commands_without_path_example :
    (status_command direct nothing bare (codes "ash") files
      ≡ (exits_without (state_path bare), files))
    × (list_command direct nothing bare whole files ≡ (exits_without (state_path bare), files))
    × (resolve_command direct nothing bare (codes "ash") true files
        ≡ (exits_without (state_path bare), files))
    × (purge_command direct nothing bare (codes "ash") false false files
        ≡ (exits_without (state_path bare), files))
commands_without_path_example =
    commands_without_path direct nothing bare (codes "ash") true false false whole files
      no_path_there
