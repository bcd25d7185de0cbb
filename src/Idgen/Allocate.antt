-- ===== src/Idgen/Allocate.antt =====
-- internal/idgen/idgen.go: the id of each counter value.
pub mod Laws
use mcp_chain.Base.{ℕ, ◌+◌, ◌-◌, ◌%◌, ◌^◌, ◌++◌, ltb, if◌then◌else◌, length, get_or, [], Bytes}
use mcp_chain.Idgen.Words.{hex_dash}
use mcp_chain.Idgen.Load.{words}
use mcp_chain.Idgen.Hex.{format_04x}

-- `Allocate`. The subtraction is on uint64.
unfoldable pub allocate : ℕ → Bytes
allocate counter =
    if ltb counter (length words)
    then get_or words counter []
    else hex_dash ++ format_04x ((counter + 2 ^ 64 - (length words - 1)) % 2 ^ 64)
