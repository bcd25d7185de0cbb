-- ===== src/Cli/Commands.antt =====
-- The `Run` methods of the subcommands, from the environment variables to the exit code, over the
-- files of the machine: internal/cli/status.go, list.go, resolve.go, purge.go and stubs.go.
use mcp_chain.Base.{
  Bytes, codes, Bool, Option, [], ◌∷◌, if◌then◌else◌, str_eq, ◌++◌, ◌&&◌, ◌==◌, some, false, true,
  none,
}
use mcp_chain.Store.Errors.{GoError, Result, ok, err}
use mcp_chain.Store.Methods
use mcp_chain.Store.Disk.{Codec, Disk, Env}
use mcp_chain.Statepath.Resolve.{Resolved, path, err_home_unset, mkdir_failed}
use mcp_chain.Statepath.Resolve
use mcp_chain.Mcpserver.Owner.{new_owner_token}
use mcp_chain.Cli.Output.{Outcome, text, path_error, newline}
use mcp_chain.Cli.Status.{run_status}
use mcp_chain.Cli.Resolve.{run_resolve}
use mcp_chain.Cli.Purge.{run_purge}
use mcp_chain.Cli.Listing.{run_list, Flush}
use mcp_chain.Store.Schema.{PurgeOptions}
use mcp_chain.Store.Ops.{purge_targets}

-- What lies at each path.
abbrev pub Files : Type 0 → Type 0
Files Doc = Bytes → Disk Doc

-- What a process finds around it: the environment variables, the error of `os.MkdirAll` if it gives
-- one, the answers of the operating system to the calls of the store, and whether a lock call that fails
-- has opened the lock file before.
pub record Surroundings : Type 0 where
  pub getenv : Bytes → Bytes
  pub mkdir_error : Option Bytes
  pub env : Env
  pub opened_anyway : Bool

-- `statepath.Resolve()` as the subcommands call it.
abbrev pub state_path : Surroundings → Resolved
state_path m = (Resolve.resolve m.getenv m.mkdir_error).1

-- `fmt.Fprintf(os.Stderr, "mcp-chain: %v\n", err)` and `os.Exit(1)`.
abbrev pub exits_without : Resolved → Outcome
exits_without e = record {
  out = [];
  err_out = text (codes "mcp-chain: ") ∷ path_error e ∷ newline ∷ [];
  exit_code = 1;
}

-- `lockFilePath`.
abbrev pub lock_file_path : Bytes → Bytes
lock_file_path p = p ++ codes ".lock"

-- Whether the lock call of the store opens the lock file.
abbrev pub opens_lock_file : Surroundings → Bool
opens_lock_file m = elim m.env.lock_error [ none ↦ true | some _ ↦ m.opened_anyway ]

-- Whether a call reaches the lock: `Open` comes before it, and in `Purge` the check of the options.
abbrev pub reaches_lock : Bytes → Bool
reaches_lock p = elim (Methods.open_store p) [ err _ ↦ false | ok _ ↦ true ]

abbrev pub purge_reaches_lock : PurgeOptions → Bytes → Bool
purge_reaches_lock opts p = if purge_targets opts == 1 then reaches_lock p else false

-- `empty` stands for the content of an empty file.
module _ {Doc : Type 0} (empty : Doc) where
  -- `fl.Lock()` and `fl.RLock()` open the lock file, which makes an empty one if there is none.
  abbrev pub opened : Disk Doc → Disk Doc
  opened none = some empty
  opened (some doc) = some doc

  abbrev pub with_lock_file : Bool → Bytes → Files Doc → Files Doc
  with_lock_file opens p files q =
      if opens && str_eq q (lock_file_path p) then opened (files q) else files q

  -- A decision tree that writes, at the path if there is one. The Boolean function says at which path its
  -- call opens the lock file.
  abbrev pub writes :
      Resolved
      → (Bytes → Bool)
      → (Bytes → Disk Doc → Outcome × Disk Doc)
      → Files Doc
      → Outcome × Files Doc
  writes (path p) opens run files =
      let (o, disk) = run p (files p) in
      (o, λ q. if str_eq q p then disk else with_lock_file (opens p) p files q)
  writes err_home_unset opens run files = (exits_without err_home_unset, files)
  writes (mkdir_failed parent e) opens run files = (exits_without (mkdir_failed parent e), files)

  -- A decision tree that reads, at the path if there is one.
  abbrev pub reads :
      Resolved → (Bytes → Bool) → (Bytes → Disk Doc → Outcome) → Files Doc → Outcome × Files Doc
  reads r opens run files = writes r opens (λ p disk. (run p disk, disk)) files

module _ {Doc : Type 0} (json : Codec Doc) (empty : Doc) (m : Surroundings) where
  abbrev pub opens_at : Bytes → Bool
  opens_at p = opens_lock_file m && reaches_lock p

  -- `StatusCmd.Run`.
  unfoldable pub status_command : Bytes → Files Doc → Outcome × Files Doc
  status_command id files =
      reads empty (state_path m) opens_at (λ p disk. run_status json p id m.env disk) files

  -- `ListCmd.Run`.
  unfoldable pub list_command : Flush → Files Doc → Outcome × Files Doc
  list_command flush files =
      reads empty (state_path m) opens_at (λ p disk. run_list json flush p m.env disk) files

  -- `ResolveCmd.Run`.
  unfoldable pub resolve_command : Bytes → Bool → Files Doc → Outcome × Files Doc
  resolve_command id force files =
      writes empty (state_path m) opens_at (λ p disk. run_resolve json p id force m.env disk) files

  -- `PurgeCmd.Run`.
  unfoldable pub purge_command : Bytes → Bool → Bool → Files Doc → Outcome × Files Doc
  purge_command id all resolved files =
      let opts : PurgeOptions = record { id = id; all = all; resolved = resolved } in
      writes empty (state_path m) (λ p. opens_lock_file m && purge_reaches_lock opts p)
        (λ p disk. run_purge json p id all resolved m.env disk) files

-- How `ServeCmd.Run` starts: with the store at a path and an owner token, or with a wrapped error.
pub data Serving : Type 0 where
  serves : Bytes → Bytes → Serving
  no_path : Resolved → Serving
  no_store : GoError → Serving
  no_token : GoError → Serving

abbrev pub with_token : Bytes → Result Bytes → Serving
with_token p (ok token) = serves p token
with_token p (err e) = no_token e

abbrev pub with_store : Result Bytes → Result Bytes → Serving
with_store (ok p) token = with_token p token
with_store (err e) token = no_store e

abbrev pub at_path : Resolved → Result Bytes → Serving
at_path (path p) token = with_store (Methods.open_store p) token
at_path err_home_unset token = no_path err_home_unset
at_path (mkdir_failed parent e) token = no_path (mkdir_failed parent e)

-- `ServeCmd.Run` up to `mcpserver.Run`, from what the random source returns.
unfoldable pub serve_command : Surroundings → Result Bytes → Serving
serve_command m random = at_path (state_path m) (new_owner_token random)
