-- ===== src/Lib.antt =====
-- Verification of mcp-chain, an MCP server and command line for chaining sessions: a session
-- registers a condition under a short id, others wait for that id, and the first session resolves it.
--
-- The program's parts and the modules that model them:
--   internal/idgen       Idgen: the embedded word list (EffList), `parseAndValidate` (Words), the
--                        package variable `words` (Load), `%04x` (Hex) and `Allocate` (Allocate).
--   internal/store       Store: the records and options (Schema), the sentinel errors (Errors),
--                        `validateID` (Slug), the closures that the methods run under the lock (Ops),
--                        `loadState`, `saveState`, `withLockedState` and `withSharedLock` (Disk) and
--                        the exported methods over a file (Methods). Machine is the abstract view: one
--                        state, one request at a time. Effect and Fate say what a request can change.
--                        Concurrent has the steps of threads under the mutex and the file lock, a
--                        lock that a failed release leaves held among them (`Leak`).
--                        Marshal and Unmarshal are `json.MarshalIndent` and `json.Unmarshal` for the
--                        two structs of schema.go, and JsonFile the file with that text.
--                        Windows is the write of atomic_windows.go, call by call.
--   internal/mcpserver   Mcpserver: the tool handlers (Handlers), the codes of their errors (Errors),
--                        the owner token (Owner), and the tools of `Run` with the calls of sessions
--                        (Server, Sessions).
--   internal/cli         Cli: the decision trees of `status`, `resolve`, `purge` and `list` (Listing),
--                        the table that `list` writes (Table) and the tabwriter that aligns it
--                        (Tabwriter). Commands has the `Run` methods, from the environment variables
--                        to the exit code and the files, the lock file included.
--   internal/statepath   Statepath: `Resolve` over the environment variables, with `filepath.Join`.
--   cmd/mcp-chain        Main: `main`, with the parser kong as a parameter.
-- Json has what the store uses of encoding/json: the scanner (Scan), strings (Quote), numbers (Number),
-- the indented objects (Print) and the matching of names (Fold). Clock has the text of a `time.Time`:
-- the calendar (Calendar), the printing (Format) and the parsing (Parse).
-- Rendezvous joins the handlers and the command line on one file.
--
-- A Go string is the list of its bytes. A Go map is a list of entries in the order of the keys, so
-- that equal maps are equal lists; where the code iterates a map, a theorem covers every other order.
-- uint64 arithmetic is written out modulo 2 ^ 64. The loop of `%04x` takes 15 rounds of fuel, one
-- less than the 16 hexadecimal digits of 64 bits.
-- What the operating system does in a call is an `Env`: the time, and an error or none for each of
-- lock, read, write and unlock. A failing write leaves the old file, as renameio promises. A failing
-- `Unlock` of gofrs/flock returns before it closes the file, so the lock stays held until the file is
-- closed by the garbage collector or at the end of the process. The lock call makes the lock file beside
-- the state file if it is missing; the commands over all files of the machine (Cli.Commands) have that
-- file, whose empty content is a parameter `empty`, but not renameio's temporary file.
-- The methods run over an interface `Codec` to the JSON text of a state, whose law is that a state's
-- text gives the state back; Store.StateText fills it. The scanner takes one step for each byte and so
-- needs no fuel; 19 rounds print the 20 digits of a uint64; a year is found within a cycle of 400
-- years by 399 rounds, and a month by 11. The nesting of a JSON text is bounded by 10000, as in
-- encoding/json. `time.Parse`, which `Time.UnmarshalJSON` tries on a text that is not strictly RFC
-- 3339, is a parameter `parse_layout`. A time counts nanoseconds from the first of January of the year
-- -400, one cycle before the year 0, and is always in UTC.
-- The tabwriter takes a round for each cell of the longest line, one more than there are columns.
-- A Go error is its sentinel and the values that its message shows; the texts of the messages are not
-- rendered. An error comes with no value: where a method of the source returns both, no caller reads
-- the value.
--
-- Not modelled: the MCP SDK's transport, the escapes of the tabwriter, the offset that a time keeps when
-- it was read with one, the death of a process that holds the lock, renameio's temporary file,
-- directories, signals, shell scripts and packaging.
pub mod Base
pub mod Idgen
pub mod Store
pub mod Mcpserver
pub mod Cli
pub mod Rendezvous
pub mod Main
pub mod MainLaws
mod Tests
pub mod Statepath
pub mod Json
pub mod Clock
