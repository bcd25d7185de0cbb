-- ===== src/Statepath.antt =====
-- internal/statepath/resolve.go: where the state file lies.
pub mod Paths
pub mod Resolve
pub mod CleanLaws
pub mod ResolveLaws
