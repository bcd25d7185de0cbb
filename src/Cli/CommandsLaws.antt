-- ===== src/Cli/CommandsLaws.antt =====
-- The file that the server and the subcommands of one environment work on.
use mcp_chain.Base.{
  ◌≡◌, ◌≢◌, refl, ap, ◌∙◌, arith, Bytes, Bool, none, str_eq_ne, str_eq_refl, ◌⊎◌, ◌&&◌, Bool-cases,
  Option-cases, str_eq_iff, some, str_eq, inr, inl, true,
}
use mcp_chain.Store.Errors.{Result, ok, err}
use mcp_chain.Store.Methods
use mcp_chain.Store.Disk.{Codec, Disk}
use mcp_chain.Cli.Output.{Outcome}
use mcp_chain.Statepath.Resolve.{Resolved, path, err_home_unset, mkdir_failed}
use mcp_chain.Statepath.ResolveLaws.{resolve_in_made}
use mcp_chain.Mcpserver.Owner.{new_owner_token}
use mcp_chain.Cli.Status.{run_status}
use mcp_chain.Cli.Resolve.{run_resolve}
use mcp_chain.Cli.Purge.{run_purge}
use mcp_chain.Cli.Listing.{run_list, Flush}
use mcp_chain.Cli.Commands.{
  Files, Surroundings, state_path, status_command, list_command, resolve_command, purge_command,
  serves, serve_command, with_store, at_path, writes, exits_without, with_lock_file, lock_file_path,
}

with_store-inv :
    (p' p token : Bytes) (opened random : Result Bytes)
    → opened ≡ Methods.open_store p'
    → with_store opened random ≡ serves p token
    → p' ≡ p
unfolding Methods.open_store
with_store-inv p' p token (err e) random o h = absurd (ground arith)
with_store-inv p' p token (ok x) (err e) o h = absurd (ground arith)
with_store-inv p' p token (ok x) (ok t) o h = ground arith

at_path-inv :
    (r : Resolved) (p token : Bytes) (random : Result Bytes)
    → at_path r random ≡ serves p token
    → r ≡ path p
at_path-inv (path p') p token random h =
    ap path (with_store-inv p' p token (Methods.open_store p') random refl h)
at_path-inv err_home_unset p token random h = absurd (ground arith)
at_path-inv (mkdir_failed parent e) p token random h = absurd (ground arith)

same_path :
    (m0 m : Surroundings) (random : Result Bytes) (p token : Bytes)
    → serve_command m0 random ≡ serves p token
    → m.getenv ≡ m0.getenv
    → m.mkdir_error ≡ none
    → state_path m ≡ path p
unfolding serve_command
same_path m0 m random p token h env_same made =
    let found = at_path-inv (state_path m0) p token (new_owner_token random) h in
    let (_, _, fine, _, _) = resolve_in_made m0.getenv m0.mkdir_error p found in
    let same : state_path m ≡ state_path m0 = rw (env_same, made, fine) refl in same ∙ found

-- A file is as it was, or it is the lock file, which was missing and is now there, empty.
abbrev pub Kept : {Doc : Type 0} → Doc → Bytes → Bytes → Files Doc → Files Doc → Type 0
Kept empty p q before after =
    (after q ≡ before q) ⊎ ((q ≡ lock_file_path p) × (before q ≡ none) × (after q ≡ some empty))

with_lock_file-Kept :
    {Doc : Type 0} (empty : Doc) (opens : Bool) (p q : Bytes) (files : Files Doc)
    → Kept empty p q files (with_lock_file empty opens p files)
with_lock_file-Kept empty opens p q files =
    elim (Bool-cases (opens && str_eq q (lock_file_path p))) [
      | inr off ↦ inl (rw off refl)
      | inl on ↦
          let at_lock : str_eq q (lock_file_path p) ≡ true = ground arith in
          elim (Option-cases (files q)) [
            | inl missing ↦
                inr ((str_eq_iff q (lock_file_path p)).0 at_lock, missing, rw (on, missing) refl)
            | inr (doc, there) ↦ inl (rw (on, there) refl)
          ]
    ]

module _ {Doc : Type 0} (empty : Doc) (r : Resolved) (opens : Bytes → Bool)
    (run : Bytes → Disk Doc → Outcome × Disk Doc) (files : Files Doc) where
  -- A decision tree at its path: its outcome, its file, and the others.
  pub writes_at :
      (p q : Bytes)
      → r ≡ path p
      → q ≢ p
      → let w = writes empty r opens run files in
        (w.0 ≡ (run p (files p)).0) × (w.1 p ≡ (run p (files p)).1) × Kept empty p q files w.1
  writes_at p q at ne =
      let here = str_eq_refl p in
      let away = str_eq_ne q p ne in
      rw at (refl, rw here refl, rw away (with_lock_file-Kept empty (opens p) p q files))

  pub writes_nothing :
      ((p : Bytes) → r ≢ path p) → writes empty r opens run files ≡ (exits_without r, files)
  writes_nothing nowhere = writes_nowhere r refl
    where
      writes_nowhere :
          (x : Resolved) → r ≡ x → writes empty x opens run files ≡ (exits_without x, files)
      writes_nowhere (path p) e = absurd (nowhere p e)
      writes_nowhere err_home_unset e = refl
      writes_nowhere (mkdir_failed parent e) h = refl

  -- What a decision tree may do to a file, wherever its path is.
  pub writes_touches :
      (q : Bytes)
      → let w = writes empty r opens run files in
        (w.1 q ≡ files q)
        ⊎ ((p : Bytes) × (r ≡ path p)
            × (((q ≡ p) × (w.1 q ≡ (run p (files p)).1))
                ⊎ ((q ≡ lock_file_path p) × (files q ≡ none) × (w.1 q ≡ some empty))))
  writes_touches q = touches r refl
    where
      touches :
          (x : Resolved)
          → r ≡ x
          → let w = writes empty x opens run files in
            (w.1 q ≡ files q)
            ⊎ ((p : Bytes) × (r ≡ path p)
                × (((q ≡ p) × (w.1 q ≡ (run p (files p)).1))
                    ⊎ ((q ≡ lock_file_path p) × (files q ≡ none) × (w.1 q ≡ some empty))))
      touches (path p) e = elim (Bool-cases (str_eq q p)) [
        | inl same ↦ inr (p, e, inl ((str_eq_iff q p).0 same, rw same refl))
        | inr other ↦ elim (with_lock_file-Kept empty (opens p) p q files) [
          | inl kept ↦ inl (rw other kept)
          | inr (at_lock, missing, now_there) ↦
              inr (p, e, inr (at_lock, missing, rw other now_there))
        ]
      ]
      touches err_home_unset e = inl refl
      touches (mkdir_failed parent x) e = inl refl

-- Where a server has started, each subcommand that is run with the same environment variables and can
-- make the directory is its decision tree on the file of that server; `status` and `list` leave that file,
-- and none of them changes another one, apart from the lock file beside it, which each of them may make,
-- empty, if it is missing. (The temporary file of renameio is not among the files of the model.)
pub commands_share_file :
    {Doc : Type 0} (json : Codec Doc) (empty : Doc) (m0 m : Surroundings) (random : Result Bytes)
    (p token q id : Bytes) (force all resolved : Bool) (flush : Flush) (files : Files Doc)
    → serve_command m0 random ≡ serves p token
    → m.getenv ≡ m0.getenv
    → m.mkdir_error ≡ none
    → q ≢ p
    → let asking = status_command json empty m id files in
      let listing = list_command json empty m flush files in
      let resolving = resolve_command json empty m id force files in
      let purging = purge_command json empty m id all resolved files in
      let resolve_run = run_resolve json p id force m.env (files p) in
      let purge_run = run_purge json p id all resolved m.env (files p) in
      ((asking.0 ≡ run_status json p id m.env (files p))
        × (asking.1 p ≡ files p)
        × Kept empty p q files asking.1)
      × ((listing.0 ≡ run_list json flush p m.env (files p))
          × (listing.1 p ≡ files p)
          × Kept empty p q files listing.1)
      × ((resolving.0 ≡ resolve_run.0)
          × (resolving.1 p ≡ resolve_run.1)
          × Kept empty p q files resolving.1)
      × ((purging.0 ≡ purge_run.0) × (purging.1 p ≡ purge_run.1) × Kept empty p q files purging.1)
unfolding status_command list_command resolve_command purge_command
commands_share_file json empty m0 m random p token q id force all resolved flush files h env_same
      made ne =
    let at = same_path m0 m random p token h env_same made in
    (
      writes_at empty (state_path m) _ _ files p q at ne,
      writes_at empty (state_path m) _ _ files p q at ne,
      writes_at empty (state_path m) _ _ files p q at ne,
      writes_at empty (state_path m) _ _ files p q at ne,
    )

-- Where `statepath.Resolve` gives no path, every subcommand exits with 1, the error on stderr and
-- nothing on stdout, and leaves all files as they were.
pub commands_without_path :
    {Doc : Type 0} (json : Codec Doc) (empty : Doc) (m : Surroundings) (id : Bytes)
    (force all resolved : Bool) (flush : Flush) (files : Files Doc)
    → ((p : Bytes) → state_path m ≢ path p)
    → (status_command json empty m id files ≡ (exits_without (state_path m), files))
      × (list_command json empty m flush files ≡ (exits_without (state_path m), files))
      × (resolve_command json empty m id force files ≡ (exits_without (state_path m), files))
      × (purge_command json empty m id all resolved files ≡ (exits_without (state_path m), files))
unfolding status_command list_command resolve_command purge_command
commands_without_path json empty m id force all resolved flush files nowhere = (
  writes_nothing empty (state_path m) _ _ files nowhere,
  writes_nothing empty (state_path m) _ _ files nowhere,
  writes_nothing empty (state_path m) _ _ files nowhere,
  writes_nothing empty (state_path m) _ _ files nowhere,
)
