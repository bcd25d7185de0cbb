-- ===== src/Mcpserver/Sessions.antt =====
-- Any number of sessions on one state file (`Run` of internal/mcpserver/server.go).
use mcp_chain.Base.{
  Bytes, List, [], ◌∷◌, Option, none, some, refl, ◌≡◌, ap, ◌∙◌, sym, ◌++◌, All, false,
}
use mcp_chain.Store.Machine.{register, resolve, register_with_id, Request, run}
use mcp_chain.Store.Schema.{Time}
use mcp_chain.Store.JsonFile.{execute_all-json, file_json}
use mcp_chain.Mcpserver.Server.{
  register_with_id_tool, ToolCall, Tool, run_tools, apply_tool, call_tool, register_tool,
  resolve_tool,
}
use mcp_chain.Store.Encodable.{RequestIsEncodable}
use mcp_chain.Store.Disk.{Codec, Disk, fresh_state}
use mcp_chain.Store.Refinement.{execute_all, execute}
use mcp_chain.Clock.Text.{time_text}
use mcp_chain.Store.Transaction.{content, quiet}
use mcp_chain.Base.GoMap.{lookup}
use mcp_chain.Mcpserver.Handlers.{register_handler, resolve_handler, register_with_id_handler}
use mcp_chain.Store.Errors.{ok}

-- A call in the session with the token `owner_token`, at the time `now`.
pub record Turn : Type 0 where
  pub now : Time
  pub owner_token : Bytes
  pub tool_call : ToolCall

-- The calls of the sessions in the order in which the lock lets them in, each without errors of the
-- operating system.
unfoldable pub take_turns : {Doc : Type 0} → Codec Doc → List Turn → Disk Doc → Disk Doc
unfolding call_tool
take_turns json [] disk = disk
take_turns json (t ∷ ts) disk =
    take_turns json ts (call_tool json t.owner_token t.tool_call (quiet t.now) disk).1

-- The store's request behind a call: with the token of the session, and never with force.
unfoldable pub request_of : Turn → Option Tool → List (Time × Request)
request_of t none = []
request_of t (some register_tool) = (t.now, register t.owner_token t.tool_call.condition) ∷ []
request_of t (some resolve_tool) =
    (t.now, resolve t.tool_call.id t.owner_token (record { force = false })) ∷ []
request_of t (some register_with_id_tool) =
    (t.now, register_with_id t.owner_token t.tool_call.id t.tool_call.condition) ∷ []

unfoldable pub requests_of : List Turn → List (Time × Request)
unfolding request_of run_tools lookup
requests_of [] = []
requests_of (t ∷ ts) = request_of t (lookup t.tool_call.name run_tools) ++ requests_of ts

module _ {Doc : Type 0} (json : Codec Doc) where
  apply_tool-request_of :
      (t : Turn) (tool : Option Tool) (disk : Disk Doc)
      → (apply_tool json t.owner_token tool t.tool_call (quiet t.now) disk).1
        ≡ execute_all json (request_of t tool) disk
  unfolding apply_tool request_of execute_all execute register_handler resolve_handler
      register_with_id_handler
  apply_tool-request_of t none disk = refl
  apply_tool-request_of t (some register_tool) disk = refl
  apply_tool-request_of t (some resolve_tool) disk = refl
  apply_tool-request_of t (some register_with_id_tool) disk = refl

  execute_all-append :
      (qs ps : List (Time × Request)) (disk : Disk Doc)
      → execute_all json (qs ++ ps) disk ≡ execute_all json ps (execute_all json qs disk)
  unfolding execute_all
  execute_all-append [] ps disk = refl
  execute_all-append ((now, q) ∷ qs) ps disk =
      execute_all-append qs ps (execute json q (quiet now) disk).1

  -- Sessions do to the file what the store's requests behind their calls do.
  take_turns-execute_all :
      (ts : List Turn) (disk : Disk Doc)
      → take_turns json ts disk ≡ execute_all json (requests_of ts) disk
  unfolding take_turns requests_of call_tool
  take_turns-execute_all [] disk = unfold execute_all in refl
  take_turns-execute_all (t ∷ ts) disk =
      let tool = lookup t.tool_call.name run_tools in
      take_turns-execute_all ts _
      ∙ ap (λ d. execute_all json (requests_of ts) d) (apply_tool-request_of t tool disk)
      ∙ sym (execute_all-append (request_of t tool) (requests_of ts) disk)

-- Without errors of the operating system: whatever tools any number of sessions call, in whatever order,
-- where their strings are UTF-8 and the times lie in the years 0 to 9999, the JSON file that they
-- create holds the state of the abstract history of their requests, each with the token of its session and
-- none forced. A call of an unknown tool changes nothing.
pub take_turns-run :
    (parse_layout : Bytes → Option Time) (ts : List Turn)
    → All (RequestIsEncodable (time_text parse_layout)) (requests_of ts)
    → content (file_json parse_layout) (take_turns (file_json parse_layout) ts none)
      ≡ ok (run fresh_state (requests_of ts))
take_turns-run parse_layout ts h =
    ap (λ d. content (file_json parse_layout) d)
      (take_turns-execute_all (file_json parse_layout) ts none)
    ∙ execute_all-json parse_layout (requests_of ts) h
