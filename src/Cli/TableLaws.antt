-- ===== src/Cli/TableLaws.antt =====
-- The order of the table's rows (internal/cli/format/table.go).
use mathlib.Core.List.{mem-cons_self, Pairwise, Perm, Permᴰ}
use mathlib.Core.List.Perm
use mathlib.Core.List.Permᴰ
use mathlib.Core.HLevel.{¬_prop}
use mathlib.Core.Logic.{∥∥₁_elim}
use mcp_chain.Base.{
  ◌≡◌, refl, sym, ap, ◌∙◌, arith, true, false, List, [], ◌∷◌, ◌≢◌, inl, inr, Bool-cases,
  str_lt_trans, str_lt_total, str_lt_irrefl, All, ◌==◌, ◌<◌, ◌⊎◌, str_lt,
}
use mcp_chain.Cli.Table.{less, insert_stable, slice_stable, write_table, rows, header}
use mcp_chain.Store.Schema.{ExportedRecord}
use mcp_chain.Cli.Output.{Piece}

-- No two records have one id.
abbrev pub DistinctIds : List ExportedRecord → Type 0
DistinctIds = Pairwise (λ (a : ExportedRecord) (b : ExportedRecord). a.id ≢ b.id)

less_trans : (a b c : ExportedRecord) → less a b ≡ true → less b c ≡ true → less a c ≡ true
unfolding less
less_trans a b c p q = ground (arith, str_lt_trans a.id b.id c.id)

less_asym : (a b : ExportedRecord) → less a b ≡ true → less b a ≡ false
unfolding less
less_asym a b p = ground (arith, str_lt_trans a.id b.id a.id, str_lt_irrefl a.id)

less_total : (a b : ExportedRecord) → a.id ≢ b.id → less a b ≡ false → less b a ≡ true
unfolding less
less_total a b ne p = ground (arith, str_lt_total a.id b.id, ne)

-- Two records of different ids can be inserted in either order.
insert_stable_comm :
    (a b : ExportedRecord) (l : List ExportedRecord)
    → less a b ≡ true
    → insert_stable a (insert_stable b l) ≡ insert_stable b (insert_stable a l)
unfolding insert_stable
insert_stable_comm a b [] p = ground (arith, less_asym a b p)
insert_stable_comm a b (x ∷ xs) p =
    ground (arith, less_asym a b p, less_trans x a b, less_trans a b x, insert_stable_comm a b xs p)

ExportedRecord-set : IsSet ExportedRecord
ExportedRecord-set = hlevel

insert_stable_swap :
    (a b : ExportedRecord) (l : List ExportedRecord)
    → a.id ≢ b.id
    → insert_stable a (insert_stable b l) ≡ insert_stable b (insert_stable a l)
insert_stable_swap a b l ne = elim (Bool-cases (less a b)) [
  | inl first ↦ insert_stable_comm a b l first
  | inr other ↦ sym (insert_stable_comm b a l (less_total a b ne other))
]

slice_stable-Permᴰ :
    {xs ys : List ExportedRecord} → Permᴰ xs ys → DistinctIds xs → slice_stable xs ≡ slice_stable ys
unfolding slice_stable
slice_stable-Permᴰ Permᴰ.nil o = refl
slice_stable-Permᴰ (Permᴰ.cons e d) (Pairwise.cons h o) = rw (e, slice_stable-Permᴰ d o) refl
slice_stable-Permᴰ (Permᴰ.swap {a} {b} {l = l} e1 e2) (Pairwise.cons h o) =
    rw⁻¹ (e1, e2) (insert_stable_swap a b (slice_stable l) (h b mem-cons_self))
slice_stable-Permᴰ (Permᴰ.trans d1 d2) o =
    slice_stable-Permᴰ d1 o
    ∙ slice_stable-Permᴰ d2 (Permᴰ.pairwise (λ a b. ¬_prop) (λ a b ne e. ne (sym e)) d1 o)

-- Records of different ids have one order, whatever the order they come in.
pub slice_stable-Perm :
    {xs ys : List ExportedRecord} → Perm xs ys → DistinctIds xs → slice_stable xs ≡ slice_stable ys
slice_stable-Perm {xs} {ys} p o =
    ∥∥₁_elim p (List_set (slice_stable xs) (slice_stable ys)) (λ d. slice_stable-Permᴰ d o)
  where
    List_set : IsSet (List ExportedRecord)
    List_set = hlevel

-- Each record is not less than those before it.
abbrev Ascending : List ExportedRecord → Type 0
Ascending [] = Unit
Ascending (x ∷ xs) = All (λ y. less y x ≡ false) xs × Ascending xs

less_weak : (a b c : ExportedRecord) → less a b ≡ false → less b c ≡ false → less a c ≡ false
unfolding less
less_weak a b c p q =
    ground (arith, str_lt_total a.id b.id, str_lt_trans a.id c.id b.id, str_lt_trans b.id a.id c.id)

All-weak :
    (a b : ExportedRecord) (xs : List ExportedRecord)
    → less b a ≡ false
    → All (λ y. less y b ≡ false) xs
    → All (λ y. less y a ≡ false) xs
All-weak a b [] p h = tt
All-weak a b (x ∷ xs) p h = (less_weak x b a h.0 p, All-weak a b xs p h.1)

All-insert_stable :
    (P : ExportedRecord → Type 0) (r : ExportedRecord) (xs : List ExportedRecord)
    → P r
    → All P xs
    → All P (insert_stable r xs)
unfolding insert_stable
All-insert_stable P r [] p h = (p, tt)
All-insert_stable P r (x ∷ xs) p h = elim (Bool-cases (less x r)) [
  | inl less_x ↦ rw less_x (h.0, All-insert_stable P r xs p h.1)
  | inr other ↦ rw other (p, h)
]

insert_stable-Ascending :
    (r : ExportedRecord) (xs : List ExportedRecord) → Ascending xs → Ascending (insert_stable r xs)
unfolding insert_stable
insert_stable-Ascending r [] s = (tt, tt)
insert_stable-Ascending r (x ∷ xs) s = elim (Bool-cases (less x r)) [
  | inl less_x ↦ rw less_x (
    All-insert_stable (λ y. less y x ≡ false) r xs (less_asym x r less_x) s.0,
    insert_stable-Ascending r xs s.1,
  )
  | inr other ↦ rw other ((other, All-weak r x xs other s.0), s)
]

insert_stable-Perm :
    (r : ExportedRecord) (xs : List ExportedRecord) → Perm (r ∷ xs) (insert_stable r xs)
unfolding insert_stable
insert_stable-Perm r [] = Perm.rfl
insert_stable-Perm r (x ∷ xs) = elim (Bool-cases (less x r)) [
  | inl less_x ↦ rw less_x (Perm.trans (Perm.swap x r xs) (Perm.cons x (insert_stable-Perm r xs)))
  | inr other ↦ rw other Perm.rfl
]

-- The sort of the table returns the same records, each once more, by their time of creation and,
-- where that is equal, by their id.
slice_stable-Ascending :
    (xs : List ExportedRecord) → Perm xs (slice_stable xs) × Ascending (slice_stable xs)
unfolding slice_stable
slice_stable-Ascending [] = (Perm.rfl, tt)
slice_stable-Ascending (x ∷ xs) =
    let (same, s) = slice_stable-Ascending xs in
    (
      Perm.trans (Perm.cons x same) (insert_stable-Perm x (slice_stable xs)),
      insert_stable-Ascending x (slice_stable xs) s,
    )

-- The table of sorted records.
abbrev table : List ExportedRecord → List Piece
table [] = []
table (r ∷ rs) = header ∷ rows (r ∷ rs)

table-insert_stable :
    (r : ExportedRecord) (xs : List ExportedRecord)
    → table (insert_stable r xs) ≡ header ∷ rows (insert_stable r xs)
unfolding insert_stable
table-insert_stable r [] = refl
table-insert_stable r (x ∷ xs) = elim (Bool-cases (less x r)) [
  | inl less_x ↦ rw less_x refl
  | inr other ↦ rw other refl
]

write_table-table : (xs : List ExportedRecord) → write_table xs ≡ table (slice_stable xs)
unfolding write_table slice_stable
write_table-table [] = refl
write_table-table (x ∷ xs) = sym (table-insert_stable x (slice_stable xs))

-- The rows go from the oldest record to the newest, and by the bytes of the id where the times are equal.
abbrev pub OldestFirst : List ExportedRecord → Type 0
OldestFirst [] = Unit
OldestFirst (x ∷ xs) =
    All
      (λ y.
        (x.created_at < y.created_at)
        ⊎ ((x.created_at ≡ y.created_at) × (str_lt y.id x.id ≡ false)))
      xs
    × OldestFirst xs

not_less :
    (x y : ExportedRecord)
    → less y x ≡ false
    → (x.created_at < y.created_at) ⊎ ((x.created_at ≡ y.created_at) × (str_lt y.id x.id ≡ false))
unfolding less
not_less x y h = elim (Bool-cases (y.created_at == x.created_at)) [
  | inl same ↦ inr (ground arith, ground arith)
  | inr other ↦ inl (ground arith)
]

All-not_less :
    (x : ExportedRecord) (xs : List ExportedRecord)
    → All (λ y. less y x ≡ false) xs
    → All
        (λ y.
          (x.created_at < y.created_at)
          ⊎ ((x.created_at ≡ y.created_at) × (str_lt y.id x.id ≡ false)))
        xs
All-not_less x [] h = tt
All-not_less x (y ∷ ys) h = (not_less x y h.0, All-not_less x ys h.1)

Ascending-OldestFirst : (xs : List ExportedRecord) → Ascending xs → OldestFirst xs
Ascending-OldestFirst [] h = tt
Ascending-OldestFirst (x ∷ xs) h = (All-not_less x xs h.0, Ascending-OldestFirst xs h.1)

-- Whatever the order in which the map of records is iterated, the table of `mcp-chain list` is the header
-- and one row for each record, the oldest first: a record that was created earlier stands above one that
-- was created later, and of two that were created at one time the one with the lesser id stands above.
pub write_table-OldestFirst :
    (r : ExportedRecord) (rs : List ExportedRecord)
    → (sorted : List ExportedRecord) × Perm (r ∷ rs) sorted
      × OldestFirst sorted
      × (write_table (r ∷ rs) ≡ header ∷ rows sorted)
unfolding write_table
write_table-OldestFirst r rs =
    let (same, s) = slice_stable-Ascending (r ∷ rs) in
    (slice_stable (r ∷ rs), same, Ascending-OldestFirst (slice_stable (r ∷ rs)) s, refl)

-- The table is one for all orders in which the map of records is iterated.
pub write_table_any_order :
    (xs ys : List ExportedRecord) → Perm xs ys → DistinctIds xs → write_table xs ≡ write_table ys
write_table_any_order xs ys p o =
    write_table-table xs ∙ ap table (slice_stable-Perm p o) ∙ sym (write_table-table ys)
