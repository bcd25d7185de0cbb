-- ===== src/Tests/Windows.antt =====
-- The write on Windows, on concrete answers of the operating system.
use mcp_chain.Base.{◌≡◌, refl, codes, some, none, All, Option, ◌↔◌, Bytes}
use mcp_chain.Store.Disk.{write_state_atomic}
use mcp_chain.Store.Errors.{ok}
use mcp_chain.Store.Schema.{State}
use mcp_chain.Store.Transaction.{quiet}
use mcp_chain.Store.Windows.{Answers, windows_write, synced, missing}
use mcp_chain.Store.WindowsLaws.{
  Recovers, view, windows_write-Recovers, windows_write_refines, windows_write_cleans,
}
use mcp_chain.Tests.Samples.{sample}

-- The target is open elsewhere.
abbrev busy : Answers
busy = record {
  create_error = none;
  write_error = none;
  sync_error = none;
  close_error = none;
  chmod_error = none;
  rename_error = some (codes "Access is denied.");
  remove_error = none;
}

abbrev newer : State
newer = record sample { counter = 6 }

windows_write-Recovers_example :
    All (Recovers busy newer (synced sample)) (windows_write busy newer (synced sample)).passed
windows_write-Recovers_example = windows_write-Recovers busy newer (synced sample) refl

windows_write_refines_example :
    (w : Option Bytes) × (view (windows_write busy newer (synced sample)).final.target
      ≡ some (write_state_atomic (record (quiet 20) { write_error = w }) newer (some sample)).1)
    × (((windows_write busy newer (synced sample)).outcome ≡ ok tt) ↔ (
        (write_state_atomic (record (quiet 20) { write_error = w }) newer (some sample)).0 ≡ ok tt))
windows_write_refines_example =
    windows_write_refines busy newer (synced sample) (quiet 20) (some sample) refl

windows_write_cleans_example : (windows_write busy newer (synced sample)).final.temp ≡ missing
windows_write_cleans_example = windows_write_cleans busy newer (synced sample) refl
