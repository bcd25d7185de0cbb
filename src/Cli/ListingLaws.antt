-- ===== src/Cli/ListingLaws.antt =====
-- What `mcp-chain list` writes, by the records in the file, and its exit code.
use mathlib.Core.List.{Mem, Pairwise, Perm, forall_mem-cons, not-mem-nil}
use mathlib.Core.List.Perm
use mathlib.Core.HLevel.{¬_prop}
use mcp_chain.Base.{
  ◌≡◌, refl, ◌∙◌, arith, Bytes, List, [], ◌∷◌, ◌≢◌, ◌⊎◌, inl, inr, none, some, All, map, str_eq_iff,
  str_eq_refl, str_lt-ne, codes, Option,
}
use mcp_chain.Base.GoMap.{GoMap, IsSorted, Above, Above-trans, Entries, lookup, lookup-Above}
use mcp_chain.Cli.Listing.{run_list, list_outcome, Flush, flushed}
use mcp_chain.Cli.Output.{Outcome, text, Piece, error_value}
use mcp_chain.Cli.StatusLaws.{open_store-ok}
use mcp_chain.Cli.Table.{write_table}
use mcp_chain.Cli.TableLaws.{DistinctIds, write_table_any_order}
use mcp_chain.Store.Disk.{Codec, Disk, Env}
use mcp_chain.Store.Errors.{Result, ok, err, GoError, Result-cases}
use mcp_chain.Store.Invariant.{IsValid}
use mcp_chain.Store.Methods
use mcp_chain.Store.Ops.{list_fn}
use mcp_chain.Store.Refinement.{shared_quiet}
use mcp_chain.Store.Loads.{shared_is_current}
use mcp_chain.Store.Schema.{ExportedRecord, Record, State, Time, record_to_record}
use mcp_chain.Store.Transaction.{content, load_quiet, quiet}

-- The records of a map, in the order of their keys.
abbrev pub listed : GoMap Record → List ExportedRecord
listed m = map (λ e. record_to_record e.1) m

-- Each record stands under its own id.
abbrev Keyed : GoMap Record → Type 0
Keyed = Entries (λ k r. r.id ≡ k)

Keyed-head : (j : Bytes) (w : Record) (m : GoMap Record) → Keyed ((j, w) ∷ m) → w.id ≡ j
unfolding lookup
Keyed-head j w m h = h j w (ground (arith, str_eq_refl j))

Keyed-tail :
    (j : Bytes) (w : Record) (m : GoMap Record)
    → Above j m
    → IsSorted m
    → Keyed ((j, w) ∷ m)
    → Keyed m
unfolding lookup
Keyed-tail j w m a s h k r e = h k r (ground (arith, lookup-Above j m a s, str_eq_iff j k))

ids-Above :
    (j : Bytes) (m : GoMap Record)
    → Above j m
    → IsSorted m
    → Keyed m
    → All (λ (x : ExportedRecord). j ≢ x.id) (listed m)
unfolding record_to_record
ids-Above j [] a s h = tt
ids-Above j ((i, w) ∷ m) a s h =
    let own = Keyed-head i w m h in
    (
      λ e. absurd (ground (arith, own, e, str_lt-ne j i a, str_eq_iff j i)),
      ids-Above j m (Above-trans j i m a s.0) s.1 (Keyed-tail i w m s.0 s.1 h),
    )

All-Mem :
    (k : Bytes) (l : List ExportedRecord)
    → All (λ x. k ≢ x.id) l
    → (x : ExportedRecord) → Mem x l
    → k ≢ x.id
All-Mem k [] h = λ x m. absurd (not-mem-nil m)
All-Mem k (y ∷ l) h = (forall_mem-cons (λ x. ¬_prop)).1 (h.0, All-Mem k l h.1)

listed-DistinctIds : (m : GoMap Record) → IsSorted m → Keyed m → DistinctIds (listed m)
unfolding record_to_record
listed-DistinctIds [] s h = Pairwise.nil
listed-DistinctIds ((j, w) ∷ m) s h =
    let own = Keyed-head j w m h in
    let tail = Keyed-tail j w m s.0 s.1 h in
    Pairwise.cons (All-Mem w.id (listed m) (rw own (ids-Above j m s.0 s.1 tail)))
      (listed-DistinctIds m s.1 tail)

-- What `mcp-chain list` does for the records `rs`. Without records a hint is all it writes. With records
-- it writes to stdout what the tabwriter brings there of their table; the exit code is 0 and stderr empty
-- if the writer has taken it, and otherwise the exit code is 1 and stderr has the writer's error.
abbrev pub Promised : Flush → List ExportedRecord → Outcome → Type 0
Promised flush [] o =
    (o.out ≡ []) × (o.err_out ≡ text (codes "mcp-chain: no entries\n") ∷ []) × (o.exit_code ≡ 0)
Promised flush (r ∷ rs) o =
    let (written, failure) = flush (write_table (r ∷ rs)) in
    (o.out ≡ written)
    × (((failure ≡ none) × (o.err_out ≡ []) × (o.exit_code ≡ 0))
        ⊎ ((e : GoError) × (failure ≡ some e)
            × (o.err_out ≡ text (codes "mcp-chain: ") ∷ error_value e ∷ text (codes "\n") ∷ [])
            × (o.exit_code ≡ 1)))

flushed-Promised :
    (t : List Piece × Option GoError)
    → let o = flushed t in
      (o.out ≡ t.0)
      × (((t.1 ≡ none) × (o.err_out ≡ []) × (o.exit_code ≡ 0))
          ⊎ ((e : GoError) × (t.1 ≡ some e)
              × (o.err_out ≡ text (codes "mcp-chain: ") ∷ error_value e ∷ text (codes "\n") ∷ [])
              × (o.exit_code ≡ 1)))
flushed-Promised (written, none) = (refl, inl (refl, refl, refl))
flushed-Promised (written, some e) = (refl, inr (e, refl, refl, refl))

list_outcome-Promised :
    (flush : Flush) (xs ys : List ExportedRecord)
    → Perm xs ys
    → DistinctIds xs
    → Promised flush ys (list_outcome flush (ok xs))
unfolding list_outcome
list_outcome-Promised flush [] [] p o = (refl, refl, refl)
list_outcome-Promised flush [] (y ∷ ys) p o = let e = Perm.nil-eq p in absurd (cc)
list_outcome-Promised flush (x ∷ xs) [] p o = let e = Perm.eq-nil p in absurd (cc)
list_outcome-Promised flush (x ∷ xs) (y ∷ ys) p o =
    rw (write_table_any_order (x ∷ xs) (y ∷ ys) p o)
      (flushed-Promised (flush (write_table (y ∷ ys))))

-- Without errors of the operating system, on a non-empty path and a file that holds a well-formed
-- state, and in whatever order `ys` the map of records is iterated: without records, `mcp-chain list`
-- writes a hint to stderr and exits with 0. With records, it writes to stdout what the tabwriter brings
-- there of their table; it exits with 0 and writes nothing to stderr if the writer has taken that, and
-- an error of the writer is reported on stderr, with exit code 1.
pub run_list-Promised :
    {Doc : Type 0} (json : Codec Doc) (flush : Flush) (path : Bytes) (now : Time) (disk : Disk Doc)
    (st : State) (ys : List ExportedRecord)
    → path ≢ []
    → content json disk ≡ ok st
    → IsValid st
    → Perm (listed st.records) ys
    → Promised flush ys (run_list json flush path (quiet now) disk)
unfolding run_list Methods.list list_fn
run_list-Promised json flush path now disk st ys ne held v p =
    let loaded = load_quiet json (quiet now) disk refl ∙ held in
    let got = shared_quiet json list_fn now disk st loaded in
    let ids = listed-DistinctIds st.records v.sorted (λ k r e. (v.entries k r e).keyed) in
    rw (open_store-ok path ne, got, run_list)
      (list_outcome-Promised flush (listed st.records) ys p ids)

flushed_zero : (out : List Piece × Option GoError) → (flushed out).exit_code ≡ 0 → out.1 ≡ none
flushed_zero (written, none) h = refl
flushed_zero (written, some e) h = absurd (ground arith)

list_zero :
    (flush : Flush) (r : Result (List ExportedRecord))
    → (list_outcome flush r).exit_code ≡ 0
    → (rs : List ExportedRecord) × (r ≡ ok rs) × ((rs ≡ []) ⊎ ((flush (write_table rs)).1 ≡ none))
unfolding list_outcome
list_zero flush (err e) h = absurd (ground arith)
list_zero flush (ok []) h = ([], refl, inl refl)
list_zero flush (ok (r ∷ rs)) h =
    (r ∷ rs, refl, inr (flushed_zero (flush (write_table (r ∷ rs))) h))

listed_nil : (m : GoMap Record) → listed m ≡ [] → m ≡ []
listed_nil [] e = refl
listed_nil (x ∷ m) e = absurd (cc)

-- `mcp-chain list` gives exit code 0 only where the file held a state and, if that has any records,
-- the writer took the table without an error.
pub run_list_zero :
    {Doc : Type 0} (json : Codec Doc) (flush : Flush) (path : Bytes) (env : Env) (disk : Disk Doc)
    → (run_list json flush path env disk).exit_code ≡ 0
    → (st : State) × (content json disk ≡ ok st)
      × ((st.records ≡ []) ⊎ ((flush (write_table (listed st.records))).1 ≡ none))
unfolding run_list Methods.list list_fn
run_list_zero json flush path env disk zero = elim (Result-cases (Methods.open_store path)) [
  | inl (e, bad) ↦ absurd (ground arith)
  | inr (_, good) ↦
      let (rs, got, written) = list_zero flush (Methods.list json env disk) (ground arith) in
      let (st, held, same) = shared_is_current json list_fn env disk rs got in
      (
        st,
        held,
        elim written [
          | inl empty ↦ inl (listed_nil st.records (ground arith))
          | inr fine ↦ inr (ground arith)
        ],
      )
]
