-- ===== src/Mcpserver/Server.antt =====
-- `Run` of internal/mcpserver/server.go: the tools under their names, and the calls that the SDK's server
-- passes on to them, one after the other.
use mcp_chain.Base.{Bytes, codes, [], Option, none, some}
use mcp_chain.Base.GoMap.{GoMap, insert, lookup}
use mcp_chain.Mcpserver.Handlers.{
  Answer, RegisterOut, register_handler, resolve_handler, register_with_id_handler,
}
use mcp_chain.Store.Disk.{Codec, Disk, Env}

pub data Tool : Type 0 where
  register_tool resolve_tool register_with_id_tool : Tool

-- The three `mcp.AddTool`: the server keeps one tool under a name.
unfoldable pub run_tools : GoMap Tool
unfolding insert
run_tools =
    insert (codes "register_with_id") register_with_id_tool
      (insert (codes "resolve") resolve_tool (insert (codes "register") register_tool []))

-- A call of a tool, with the arguments that the SDK has decoded.
pub record ToolCall : Type 0 where
  pub name : Bytes
  pub id : Bytes
  pub condition : Bytes

-- What a handler returned, or nothing where there is no tool of that name.
pub data ToolReply : Type 0 where
  registered_id : Answer RegisterOut → ToolReply
  acknowledged : Answer (Unit {0}) → ToolReply
  no_tool : ToolReply

module _ {Doc : Type 0} (json : Codec Doc) (owner_token : Bytes) where
  abbrev pub handled : {A : Type 0} → (A → ToolReply) → A × Disk Doc → ToolReply × Disk Doc
  handled f (a, disk) = (f a, disk)

  -- The handler of a tool.
  unfoldable pub apply_tool : Option Tool → ToolCall → Env → Disk Doc → ToolReply × Disk Doc
  apply_tool none c env disk = (no_tool, disk)
  apply_tool (some register_tool) c env disk =
      handled registered_id
        (register_handler json owner_token (record { condition = c.condition }) env disk)
  apply_tool (some resolve_tool) c env disk =
      handled acknowledged (resolve_handler json owner_token (record { id = c.id }) env disk)
  apply_tool (some register_with_id_tool) c env disk = handled acknowledged (
      register_with_id_handler json owner_token (record { id = c.id; condition = c.condition }) env
        disk)

  unfoldable pub call_tool : ToolCall → Env → Disk Doc → ToolReply × Disk Doc
  unfolding apply_tool run_tools lookup
  call_tool c env disk = apply_tool (lookup c.name run_tools) c env disk
