-- ===== src/Cli/Listing.antt =====
-- internal/cli/list.go: `mcp-chain list`.
use mcp_chain.Base.{Bytes, codes, List, [], ◌∷◌, Option, none, some}
use mcp_chain.Store.Errors.{GoError, Result, ok, err}
use mcp_chain.Store.Methods
use mcp_chain.Store.Disk.{Disk, Codec, Env}
use mcp_chain.Store.Schema.{ExportedRecord}
use mcp_chain.Cli.Output.{Outcome, Piece, text, error_value, newline, fails_with}
use mcp_chain.Cli.Table.{write_table}

-- The tabwriter and the writer behind it: from the text that `WriteTable` has written, what `Flush`
-- brings to the writer, and its error.
abbrev pub Flush : Type 0
Flush = List Piece → List Piece × Option GoError

-- The end of `runList`.
abbrev pub flushed : List Piece × Option GoError → Outcome
flushed (written, none) = record { out = written; err_out = []; exit_code = 0 }
flushed (written, some e) = record {
  out = written;
  err_out = text (codes "mcp-chain: ") ∷ error_value e ∷ newline ∷ [];
  exit_code = 1;
}

-- `runList` once the file is opened.
unfoldable pub list_outcome : Flush → Result (List ExportedRecord) → Outcome
list_outcome flush (err e) = fails_with e
list_outcome flush (ok []) = record {
  out = [];
  err_out = text (codes "mcp-chain: no entries\n") ∷ [];
  exit_code = 0;
}
list_outcome flush (ok (r ∷ rs)) = flushed (flush (write_table (r ∷ rs)))

module _ {Doc : Type 0} (json : Codec Doc) where
  -- `runList`.
  unfoldable pub run_list : Flush → Bytes → Env → Disk Doc → Outcome
  unfolding list_outcome
  run_list flush path env disk = elim (Methods.open_store path) [
    | err e ↦ fails_with e
    | ok _ ↦ list_outcome flush (Methods.list json env disk)
  ]
