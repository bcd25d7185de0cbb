-- ===== src/Store/Leaks.antt =====
-- The file locks that failed releases leave held (internal/store/lock.go).
use mcp_chain.Base.{ℕ, ◌≢◌, ◌≡◌, false}
use mcp_chain.Store.Concurrent.{Phase, Leak, blocks}
use mcp_chain.Store.Disk.{Disk}

module _ (handle : ℕ → ℕ) where
  -- No thread of another handle has a lock that the left one excludes.
  abbrev Safe : (ℕ → Phase) → Leak → Type 0
  Safe phases l = (u : ℕ) → handle u ≢ l.handle → blocks l.job (phases u) ≡ false

  -- The same of the one phase that the thread `t` comes to.
  abbrev Allows : ℕ → Phase → Leak → Type 0
  Allows t p l = handle t ≢ l.handle → blocks l.job p ≡ false
