-- ===== src/Tests/Listing.antt =====
-- Tests of `mcp-chain list`, and its theorems on the sample file.
use mathlib.Core.List.{Perm}
use mathlib.Core.List.Perm
use mcp_chain.Base.{◌≡◌, refl, codes, some, none, ◌⊎◌, [], ◌∷◌, str_eq, List}
use mcp_chain.Cli.Listing.{run_list, Flush, list_outcome}
use mcp_chain.Cli.ListingLaws.{run_list-Promised, run_list_zero, Promised, listed}
use mcp_chain.Cli.Table.{write_table, slice_stable, truncate, less, header, rows}
use mcp_chain.Cli.TableLaws.{OldestFirst, write_table-OldestFirst}
use mcp_chain.Store.Errors.{ok, failed, write}
use mcp_chain.Store.Disk.{with_shared_lock}
use mcp_chain.Store.Methods
use mcp_chain.Store.Ops.{list_fn}
use mcp_chain.Store.Schema.{ExportedRecord, State, record_to_record}
use mcp_chain.Store.Transaction.{content, quiet}
use mcp_chain.Tests.Samples.{ash, oak, sample, sample-held, sample-IsValid, direct, path, path_set}
use mcp_chain.Cli.Output.{text}

-- A writer that takes everything.
abbrev whole : Flush
whole written = (written, none)

abbrev shown_ash : ExportedRecord
shown_ash = record_to_record ash

abbrev shown_oak : ExportedRecord
shown_oak = record_to_record oak

oldest_first : slice_stable (shown_oak ∷ shown_ash ∷ []) ≡ shown_ash ∷ shown_oak ∷ []
unfolding slice_stable less record_to_record
oldest_first = refl

-- A short condition keeps its line break.
line_break_stays : truncate (codes "one\ntwo") 48 ≡ codes "one\ntwo"
unfolding truncate
line_break_stays = refl

write_table-OldestFirst_example :
    (sorted : List ExportedRecord) × Perm (shown_oak ∷ shown_ash ∷ []) sorted
    × OldestFirst sorted
    × (write_table (shown_oak ∷ shown_ash ∷ []) ≡ header ∷ rows sorted)
write_table-OldestFirst_example = write_table-OldestFirst shown_oak (shown_ash ∷ [])

-- The writer fails when half of the text is out.
abbrev breaking : Flush
breaking written = (text (codes "ID") ∷ [], some (failed write (codes "broken pipe")))

broken_pipe : (list_outcome breaking (ok (shown_ash ∷ []))).exit_code ≡ 1
unfolding list_outcome
broken_pipe = refl

swapped : Perm (shown_ash ∷ shown_oak ∷ []) (shown_oak ∷ shown_ash ∷ [])
swapped = Perm.swap shown_oak shown_ash []

run_list-Promised_example :
    Promised whole
      (shown_oak ∷ shown_ash ∷ [])
      (run_list direct whole path (quiet 30) (some sample))
run_list-Promised_example =
    run_list-Promised direct whole path 30 (some sample) sample (shown_oak ∷ shown_ash ∷ [])
      path_set sample-held sample-IsValid swapped

list_zero_run : (run_list direct whole path (quiet 30) (some sample)).exit_code ≡ 0
unfolding run_list Methods.open_store Methods.list with_shared_lock list_fn str_eq
list_zero_run = refl

run_list_zero_example :
    (st : State) × (content direct (some sample) ≡ ok st)
    × ((st.records ≡ []) ⊎ ((whole (write_table (listed st.records))).1 ≡ none))
run_list_zero_example = run_list_zero direct whole path (quiet 30) (some sample) list_zero_run
