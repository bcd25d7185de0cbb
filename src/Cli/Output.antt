-- ===== src/Cli/Output.antt =====
-- What a command writes to its two writers, and its exit code.
use mcp_chain.Base.{ℕ, List, [], ◌∷◌, ◌++◌, Bytes, codes}
use mcp_chain.Store.Errors.{GoError}
use mcp_chain.Statepath.Resolve.{Resolved}

-- A piece of output: text, or an error of the store or of `statepath.Resolve` as `%v` prints it.
pub data Piece : Type 0 where
  text : Bytes → Piece
  error_value : GoError → Piece
  path_error : Resolved → Piece

pub record Outcome : Type 0 where
  pub out : List Piece
  pub err_out : List Piece
  pub exit_code : ℕ

abbrev pub newline : Piece
newline = text (codes "\n")

-- `fmt.Fprintf(errW, "mcp-chain: %v\n", err)`, and exit code 1.
abbrev pub fails_with : GoError → Outcome
fails_with e = record {
  out = [];
  err_out = text (codes "mcp-chain: ") ∷ error_value e ∷ newline ∷ [];
  exit_code = 1;
}

-- A line of fixed text on stderr, and exit code 1.
abbrev pub complains : Bytes → Outcome
complains line = record {
  out = [];
  err_out = text (codes "mcp-chain: " ++ (line ++ codes "\n")) ∷ [];
  exit_code = 1;
}

-- Nothing on either writer, and exit code 0.
abbrev pub silent : Outcome
silent = record { out = []; err_out = []; exit_code = 0 }
