-- ===== src/MainLaws.antt =====
-- Which arguments let `main` (cmd/mcp-chain/main.go) write to stdout, and which let it change a file.
use mcp_chain.Base.{
  ◌≡◌, refl, ◌∙◌, sym, arith, Bytes, Bool, true, false, List, [], ◌⊎◌, inl, inr, Bool-cases, ℕ,
  str_eq_iff, ◌≢◌, ◌∷◌, str_eq, get_elem?, some, codes, ap, suc, zero, ◌++◌, none,
}
use mcp_chain.Cli.Commands.{
  Files, writes, Serving, Surroundings, serve_command, serves, no_path, no_store, no_token,
  purge_command, resolve_command, state_path, lock_file_path, reads, status_command, list_command,
}
use mcp_chain.Store.Errors.{Result-cases, Result, err}
use mcp_chain.Store.Disk.{Codec, Disk, Env}
use mcp_chain.Statepath.Resolve.{Resolved, path, mkdir_failed, err_home_unset}
use mcp_chain.Cli.Output.{Outcome, text}
use mcp_chain.Cli.Resolve.{resolve_outcome, run_resolve}
use mcp_chain.Cli.Purge.{purge_outcome, run_purge}
use mcp_chain.Main.{parsed, status, purge, resolve, list}
use mcp_chain.Main.{
  ParseResult, parsed, exited, serve, status, list, purge, resolve, Ending, exits, runs, run_serve,
  dispatch, run_command, main, Kong, WritesStderr, asks_version, version_line,
}
use mcp_chain.Store.Methods
use mcp_chain.Store.Errors.{Result, ok, err, Result-cases}
use mcp_chain.Cli.Listing.{Flush}
use mcp_chain.Cli.CommandsLaws.{writes_touches}

resolve_outcome-out : (id : Bytes) (r : Result (Unit {0})) → (resolve_outcome id r).out ≡ []
unfolding resolve_outcome
resolve_outcome-out id (ok u) = refl
resolve_outcome-out id (err e) = ground arith

purge_outcome-out : (id : Bytes) (r : Result ℕ) → (purge_outcome id r).out ≡ []
unfolding purge_outcome
purge_outcome-out id (ok n) = refl
purge_outcome-out id (err e) = ground arith

module _ {Doc : Type 0} (json : Codec Doc) where
  run_resolve-out :
      (p id : Bytes) (force : Bool) (env : Env) (disk : Disk Doc)
      → (run_resolve json p id force env disk).0.out ≡ []
  unfolding run_resolve
  run_resolve-out p id force env disk = elim (Result-cases (Methods.open_store p)) [
    | inl (e, bad) ↦ rw (bad, run_resolve) refl
    | inr (a, good) ↦ rw (good, run_resolve) (resolve_outcome-out id _)
  ]

  run_purge-out :
      (p id : Bytes) (all resolved : Bool) (env : Env) (disk : Disk Doc)
      → (run_purge json p id all resolved env disk).0.out ≡ []
  unfolding run_purge
  run_purge-out p id all resolved env disk = elim (Result-cases (Methods.open_store p)) [
    | inl (e, bad) ↦ rw (bad, run_purge) refl
    | inr (a, good) ↦ rw (good, run_purge) (purge_outcome-out id _)
  ]

writes-out :
    {Doc : Type 0} (empty : Doc) (r : Resolved) (opens : Bytes → Bool)
    (run : Bytes → Disk Doc → Outcome × Disk Doc) (files : Files Doc)
    → ((p : Bytes) (disk : Disk Doc) → (run p disk).0.out ≡ [])
    → (writes empty r opens run files).0.out ≡ []
writes-out empty (path p) opens run files h = h p (files p)
writes-out empty err_home_unset opens run files h = refl
writes-out empty (mkdir_failed parent e) opens run files h = refl

-- The commands that write to stdout, and those that write the file.
abbrev pub Reports : ParseResult → Type 0
Reports r = ((id : Bytes) × (r ≡ parsed (status id))) ⊎ (r ≡ parsed list)

abbrev pub Changes : ParseResult → Type 0
Changes r =
    ((id : Bytes) × (all : Bool) × (resolved : Bool) × (r ≡ parsed (purge id all resolved)))
    ⊎ ((id : Bytes) × (force : Bool) × (r ≡ parsed (resolve id force)))

-- `--version` is one of the arguments.
abbrev pub HasVersion : List Bytes → Type 0
HasVersion args = (i : ℕ) × (get_elem? args i ≡ some (codes "--version"))

HasVersion-asks_version : (args : List Bytes) → asks_version args ≡ true → HasVersion args
unfolding asks_version
HasVersion-asks_version [] h = absurd (cc)
HasVersion-asks_version (a ∷ args) h = elim (Bool-cases (str_eq a (codes "--version"))) [
  | inl same ↦ (0, ap (λ x. some x) ((str_eq_iff a (codes "--version")).0 same))
  | inr other ↦ let (i, e) = HasVersion-asks_version args (rw other at h) in (suc i, e)
]

HasVersion-not_asked :
    (args : List Bytes) (i : ℕ)
    → asks_version args ≡ false
    → get_elem? args i ≢ some (codes "--version")
unfolding asks_version
HasVersion-not_asked [] i h e = absurd (cc)
HasVersion-not_asked (a ∷ args) zero h e =
    let same : str_eq a (codes "--version") ≡ true = (str_eq_iff a (codes "--version")).1 cc in
    absurd (cc (sym (rw same at h)))
HasVersion-not_asked (a ∷ args) (suc i) h e = elim (Bool-cases (str_eq a (codes "--version"))) [
  | inl same ↦ absurd (cc (rw same at h))
  | inr other ↦ HasVersion-not_asked args i (rw other at h) e
]

-- Where a process ended, its outcome and the files are as told.
abbrev Ended : {Doc : Type 0} → Ending Doc → (Outcome → Files Doc → Type 0) → Type 0
Ended (exits o files) P = P o files
Ended (runs p token) P = Unit

module _ {Doc : Type 0} (json : Codec Doc) (empty : Doc) (kong : Kong) (flush : Flush)
    (version : Bytes) (m : Surroundings) (random : Result Bytes) (files : Files Doc)
    (q : Bytes) where
  -- What a run with this command line may have done to the file at `q`: the state file is changed by the
  -- two commands that write alone, and the lock file beside it is made where it was missing.
  abbrev pub Touched : ParseResult → Files Doc → Type 0
  Touched r files' =
      (files' q ≡ files q)
      ⊎ ((p : Bytes) × (state_path m ≡ path p)
          × (((q ≡ p) × Changes r)
              ⊎ ((Reports r ⊎ Changes r)
                  × (q ≡ lock_file_path p)
                  × (files q ≡ none)
                  × (files' q ≡ some empty))))

  abbrev Held : ParseResult → Outcome → Files Doc → Type 0
  Held r o files' = ((o.out ≡ []) ⊎ Reports r) × Touched r files'

  run_serve-Held :
      (s : Serving) (r : ParseResult) → WritesStderr kong → Ended (run_serve kong files s) (Held r)
  run_serve-Held (serves p token) r w = tt
  run_serve-Held (no_path x) r w = (inl (w.fatal (no_path x)), inl refl)
  run_serve-Held (no_store e) r w = (inl (w.fatal (no_store e)), inl refl)
  run_serve-Held (no_token e) r w = (inl (w.fatal (no_token e)), inl refl)

  reads-Touched :
      (r : ParseResult) (opens : Bytes → Bool) (run : Bytes → Disk Doc → Outcome)
      → Reports r
      → Touched r (reads empty (state_path m) opens run files).1
  reads-Touched r opens run reports =
      elim (writes_touches empty (state_path m) opens (λ p disk. (run p disk, disk)) files q) [
        | inl kept ↦ inl kept
        | inr (p, at, inl (same, there)) ↦ inl (there ∙ ap files (sym same))
        | inr (p, at, inr (at_lock, missing, made)) ↦
            inr (p, at, inr (inl reports, at_lock, missing, made))
      ]

  writes-Touched :
      (r : ParseResult) (opens : Bytes → Bool) (run : Bytes → Disk Doc → Outcome × Disk Doc)
      → Changes r
      → Touched r (writes empty (state_path m) opens run files).1
  writes-Touched r opens run changes =
      elim (writes_touches empty (state_path m) opens run files q) [
        | inl kept ↦ inl kept
        | inr (p, at, inl (same, there)) ↦ inr (p, at, inl (same, changes))
        | inr (p, at, inr (at_lock, missing, made)) ↦
            inr (p, at, inr (inr changes, at_lock, missing, made))
      ]

  dispatch-Held :
      (r : ParseResult)
      → ((o : Outcome) → r ≡ exited o → o.out ≡ [])
      → WritesStderr kong
      → Ended (dispatch json empty kong flush version m random files r) (Held r)
  unfolding run_command purge_command resolve_command status_command list_command
  dispatch-Held (exited o) h w = (inl (h o refl), inl refl)
  dispatch-Held (parsed serve) h w = run_serve-Held (serve_command m random) (parsed serve) w
  dispatch-Held (parsed (status id)) h w =
      (inr (inl (id, refl)), reads-Touched (parsed (status id)) _ _ (inl (id, refl)))
  dispatch-Held (parsed list) h w = (inr (inr refl), reads-Touched (parsed list) _ _ (inr refl))
  dispatch-Held (parsed (purge id all resolved)) h w = (
    inl (
        writes-out empty (state_path m) _ _ files
          (λ p disk. run_purge-out json p id all resolved m.env disk)),
    writes-Touched (parsed (purge id all resolved)) _ _ (inl (id, all, resolved, refl)),
  )
  dispatch-Held (parsed (resolve id force)) h w = (
    inl (
        writes-out empty (state_path m) _ _ files
          (λ p disk. run_resolve-out json p id force m.env disk)),
    writes-Touched (parsed (resolve id force)) _ _ (inr (id, force, refl)),
  )

  main_asked :
      (args : List Bytes)
      → asks_version args ≡ true
      → main json empty kong flush version m random files args ≡ exits (version_line version) files
  unfolding main
  main_asked args h = rw h refl

  main_other :
      (args : List Bytes)
      → asks_version args ≡ false
      → main json empty kong flush version m random files args
        ≡ dispatch json empty kong flush version m random files (kong.parse_args args)
  unfolding main
  main_other args h = rw h refl

  -- What `main` does where kong writes to stderr alone, as it was told. With `--version` anywhere among
  -- the arguments, whatever else they are, the process prints the version and a line feed on stdout,
  -- nothing on stderr, exits with 0, and no file changes. Otherwise, where the process exits, only
  -- `status` and `list` may have written to stdout, which is kept for the protocol. Then the state file
  -- has changed only under `purge` and `resolve`; these four commands may have made the lock file beside
  -- it, empty, where it was missing; and no other file has changed.
  -- (The temporary file of renameio is not among the files of the model.)
  pub main_effects :
      (args : List Bytes) (o : Outcome) (files' : Files Doc)
      → WritesStderr kong
      → main json empty kong flush version m random files args ≡ exits o files'
      → (HasVersion args
          × (o.out ≡ text (codes "mcp-chain " ++ (version ++ codes "\n")) ∷ [])
          × (o.err_out ≡ [])
          × (o.exit_code ≡ 0)
          × (files' q ≡ files q))
        ⊎ (((i : ℕ) → get_elem? args i ≢ some (codes "--version"))
            × ((o.out ≡ []) ⊎ Reports (kong.parse_args args))
            × Touched (kong.parse_args args) files')
  main_effects args o files' w e = elim (Bool-cases (asks_version args)) [
    | inl asked ↦
        let ends : exits (version_line version) files ≡ exits o files' =
          sym (main_asked args asked) ∙ e in
        let same : version_line version ≡ o = cc in
        let kept : files ≡ files' = cc in
        inl (
          HasVersion-asks_version args asked,
          ap (λ x. x.out) (sym same),
          ap (λ x. x.err_out) (sym same),
          ap (λ x. x.exit_code) (sym same),
          ap (λ x. x q) (sym kept),
        )
    | inr other ↦
        let held = dispatch-Held (kong.parse_args args) (w.parse_args args) w in
        let shape : dispatch json empty kong flush version m random files (kong.parse_args args)
            ≡ exits o files' =
          sym (main_other args other) ∙ e in
        let (out, kept) : Held (kong.parse_args args) o files' = rw shape at held in
        inr (λ i. HasVersion-not_asked args i other, out, kept)
  ]
