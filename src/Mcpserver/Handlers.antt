-- ===== src/Mcpserver/Handlers.antt =====
-- internal/mcpserver/server.go and tools.go: the three tool handlers. A handler returns a tool error
-- (or nil) and its output; the server process holds one owner token for all its calls.
use mcp_chain.Base.{Option, none, some, Bytes, false, []}
use mcp_chain.Store.Errors.{Result, ok, err}
use mcp_chain.Store.Methods
use mcp_chain.Mcpserver.Errors.{ErrorBody, map_store_error}
use mcp_chain.Store.Disk.{Disk, Codec, Env}
use mcp_chain.Store.Methods.{on_result}

pub record RegisterIn : Type 0 where
  pub condition : Bytes

pub record RegisterOut : Type 0 where
  pub id : Bytes

pub record ResolveIn : Type 0 where
  pub id : Bytes

pub record RegisterWithIdIn : Type 0 where
  pub id : Bytes
  pub condition : Bytes

-- The first two results of a handler: the `CallToolResult` and the output. The third is always nil.
pub record Answer (Out : Type 0) : Type 0 where
  pub error : Option ErrorBody
  pub out : Out

-- What a handler makes of the store's answer.
abbrev pub answer_with : {A Out : Type 0} → Out → (A → Out) → Result A → Answer Out
answer_with zero_out f (ok a) = record { error = none; out = f a }
answer_with zero_out f (err e) = record { error = some (map_store_error e); out = zero_out }

module _ {Doc : Type 0} (json : Codec Doc) (owner_token : Bytes) where
  -- `registerHandler`.
  unfoldable pub register_handler : RegisterIn → Env → Disk Doc → Answer RegisterOut × Disk Doc
  register_handler args env disk =
      on_result (answer_with (record { id = [] }) (λ id. record { id = id }))
        (Methods.register json owner_token args.condition env disk)

  -- `resolveHandler`: never with force.
  unfoldable pub resolve_handler : ResolveIn → Env → Disk Doc → Answer (Unit {0}) × Disk Doc
  resolve_handler args env disk =
      on_result (answer_with tt (λ _. tt))
        (Methods.resolve json args.id owner_token (record { force = false }) env disk)

  -- `registerWithIDHandler`.
  unfoldable pub register_with_id_handler :
      RegisterWithIdIn → Env → Disk Doc → Answer (Unit {0}) × Disk Doc
  register_with_id_handler args env disk =
      on_result (answer_with tt (λ _. tt))
        (Methods.register_with_id json owner_token args.id args.condition env disk)
