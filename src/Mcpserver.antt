-- ===== src/Mcpserver.antt =====
-- internal/mcpserver: the tools that a session calls.
pub mod Owner
pub mod Errors
pub mod Handlers
pub mod Server
pub mod Sessions
