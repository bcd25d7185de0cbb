-- ===== src/Main.antt =====
-- `main` of cmd/mcp-chain/main.go: from the arguments to the exit of the process or the running server.
use mcp_chain.Base.{
  ◌≡◌, Bytes, codes, Bool, true, false, List, [], ◌∷◌, ◌++◌, str_eq, if◌then◌else◌,
}
use mcp_chain.Cli.Commands.{
  Files, Surroundings, status_command, list_command, resolve_command, purge_command, Serving,
  serves, no_path, no_store, no_token, serve_command,
}
use mcp_chain.Cli.Listing.{Flush}
use mcp_chain.Cli.Output.{Outcome, text}
use mcp_chain.Store.Disk.{Codec}
use mcp_chain.Store.Errors.{Result}

-- The grammar `CLI`.
pub data Command : Type 0 where
  serve : Command
  status : Bytes → Command
  list : Command
  purge : Bytes → Bool → Bool → Command
  resolve : Bytes → Bool → Command

-- What `kong.Parse` does: it finds a command, or it writes a help or an error and exits.
pub data ParseResult : Type 0 where
  parsed : Command → ParseResult
  exited : Outcome → ParseResult

-- What the program relies on in kong: `kong.Parse`, and `FatalIfErrorf` with an error.
pub record Kong : Type 0 where
  pub parse_args : List Bytes → ParseResult
  pub fatal : Serving → Outcome

-- kong writes to the two writers that it was given, and both are stderr.
pub record WritesStderr (kong : Kong) : Type 0 where
  pub parse_args : (args : List Bytes) (o : Outcome) → kong.parse_args args ≡ exited o → o.out ≡ []
  pub fatal : (s : Serving) → (kong.fatal s).out ≡ []

-- How `main` ends: the process exits, or the server runs on a path with an owner token.
pub data Ending (Doc : Type 0) : Type 0 where
  exits : Outcome → Files Doc → Ending Doc
  runs : Bytes → Bytes → Ending Doc

-- `for _, a := range os.Args[1:] { if a == "--version" …`.
unfoldable pub asks_version : List Bytes → Bool
unfolding str_eq
asks_version [] = false
asks_version (a ∷ args) =
    let rest = asks_version args in if str_eq a (codes "--version") then true else rest

-- `fmt.Fprintln(os.Stdout, "mcp-chain "+version)` and `os.Exit(0)`.
abbrev pub version_line : Bytes → Outcome
version_line version = record {
  out = text (codes "mcp-chain " ++ (version ++ codes "\n")) ∷ [];
  err_out = [];
  exit_code = 0;
}

abbrev pub exits_with : {Doc : Type 0} → Outcome × Files Doc → Ending Doc
exits_with (o, files) = exits o files

-- `ServeCmd.Run`, and `FatalIfErrorf` with its error.
abbrev pub run_serve : {Doc : Type 0} → Kong → Files Doc → Serving → Ending Doc
run_serve kong files (serves p token) = runs p token
run_serve kong files (no_path r) = exits (kong.fatal (no_path r)) files
run_serve kong files (no_store e) = exits (kong.fatal (no_store e)) files
run_serve kong files (no_token e) = exits (kong.fatal (no_token e)) files

module _ {Doc : Type 0} (json : Codec Doc) (empty : Doc) (kong : Kong) (flush : Flush)
    (version : Bytes) (m : Surroundings) (random : Result Bytes) (files : Files Doc) where
  -- `kctx.Run()`: the `Run` method of the command.
  unfoldable pub run_command : Command → Ending Doc
  run_command serve = run_serve kong files (serve_command m random)
  run_command (status id) = exits_with (status_command json empty m id files)
  run_command list = exits_with (list_command json empty m flush files)
  run_command (purge id all resolved) =
      exits_with (purge_command json empty m id all resolved files)
  run_command (resolve id force) = exits_with (resolve_command json empty m id force files)

  abbrev pub dispatch : ParseResult → Ending Doc
  dispatch (parsed c) = run_command c
  dispatch (exited o) = exits o files

  -- `main`.
  unfoldable pub main : List Bytes → Ending Doc
  unfolding run_command asks_version
  main args =
      if asks_version args
      then exits (version_line version) files
      else dispatch (kong.parse_args args)
