-- ===== src/Store/PurgeLaws.antt =====
-- What `Purge` leaves and how much it counts, whatever the order in which the map is iterated.
use mcp_chain.Store.Errors.{ok}
use mcp_chain.Base.{
  ℕ, suc, ◌+◌, ◌≡◌, refl, Bool, true, false, ◌&&◌, ◌||◌, Option, none, some, [], ◌∷◌, arith, Bytes,
  str_eq, if◌then◌else◌, str_eq_iff, not, length, Bool-cases, sym, inl, ◌∙◌, inr, Option-cases,
}
use mcp_chain.Base.GoMap.{
  GoMap, lookup, delete, lookup-delete, Once, IsSorted, delete-IsSorted, length-delete,
  IsSorted-Once,
}
use mcp_chain.Store.Schema.{Record, status_resolved, PurgeOptions, State}
use mcp_chain.Store.Ops.{purge_loop, purge_fn, purge_targets}

module _ (id : Bytes) (r : Record) (todo m : GoMap Record) (removed : ℕ) where
  pub purge_loop_hit :
      str_eq r.status status_resolved ≡ true
      → purge_loop ((id, r) ∷ todo) m removed ≡ purge_loop todo (delete id m) (removed + 1)
  unfolding purge_loop
  purge_loop_hit hit = ground arith

  pub purge_loop_miss :
      str_eq r.status status_resolved ≡ false
      → purge_loop ((id, r) ∷ todo) m removed ≡ purge_loop todo m removed
  unfolding purge_loop
  purge_loop_miss miss = ground arith

-- What a sweep leaves of an entry.
unfoldable pub unresolved : Option Record → Option Record
unresolved none = none
unresolved (some r) = if str_eq r.status status_resolved then none else some r

-- How many of the entries are resolved.
unfoldable pub count_resolved : GoMap Record → ℕ
count_resolved [] = 0
count_resolved ((id, r) ∷ m) =
    if str_eq r.status status_resolved then suc (count_resolved m) else count_resolved m

-- A resolved entry with the key `j` is among `todo`.
unfoldable pub hits : Bytes → GoMap Record → Bool
hits j [] = false
hits j ((id, r) ∷ todo) = (str_eq id j && str_eq r.status status_resolved) || hits j todo

lookup-purge_loop :
    (j : Bytes) (todo m : GoMap Record) (n : ℕ)
    → lookup j (purge_loop todo m n).0 ≡ (if hits j todo then none else lookup j m)
unfolding purge_loop hits
lookup-purge_loop j [] m n = refl
lookup-purge_loop j ((id, r) ∷ todo) m n = ground (
  arith,
  lookup-purge_loop j todo m n,
  lookup-purge_loop j todo (delete id m) (n + 1),
  lookup-delete id j m,
)

pub count-purge_loop :
    (todo m : GoMap Record) (n : ℕ) → (purge_loop todo m n).1 ≡ n + count_resolved todo
unfolding purge_loop count_resolved
count-purge_loop [] m n = omega arith
count-purge_loop ((id, r) ∷ todo) m n =
    ground (arith, count-purge_loop todo m n, count-purge_loop todo (delete id m) (n + 1))

hits_absent : (j : Bytes) (todo : GoMap Record) → lookup j todo ≡ none → hits j todo ≡ false
unfolding lookup hits
hits_absent j [] h = refl
hits_absent j ((id, r) ∷ todo) h = ground (arith, hits_absent j todo)

hits-unresolved :
    (j : Bytes) (todo : GoMap Record)
    → Once todo
    → (if hits j todo then none else lookup j todo) ≡ unresolved (lookup j todo)
unfolding lookup hits unresolved
hits-unresolved j [] o = refl
hits-unresolved j ((id, r) ∷ todo) o =
    ground (arith, hits-unresolved j todo o.1, hits_absent j todo, str_eq_iff id j)

-- `todo` holds entries of `m` only.
abbrev Within : GoMap Record → GoMap Record → Type 0
Within todo m = (k : Bytes) (r : Record) → lookup k todo ≡ some r → lookup k m ≡ some r

Within-delete :
    (id : Bytes) (r : Record) (todo m : GoMap Record)
    → lookup id todo ≡ none
    → Within ((id, r) ∷ todo) m
    → Within todo (delete id m)
unfolding lookup
Within-delete id r todo m fresh w k s e =
    ground (arith, lookup-delete id k m, w k s, str_eq_iff id k)

Within-tail :
    (id : Bytes) (r : Record) (todo m : GoMap Record)
    → lookup id todo ≡ none
    → Within ((id, r) ∷ todo) m
    → Within todo m
unfolding lookup
Within-tail id r todo m fresh w k s e = ground (arith, w k s, str_eq_iff id k)

Within-head :
    (id : Bytes) (r : Record) (todo m : GoMap Record)
    → Within ((id, r) ∷ todo) m
    → lookup id m ≡ some r
unfolding lookup
Within-head id r todo m w = w id r (ground (arith, str_eq_iff id id))

-- What is counted is what goes.
length-purge_loop :
    (todo m : GoMap Record) (n : ℕ)
    → Once todo
    → IsSorted m
    → Within todo m
    → (purge_loop todo m n).1 + length (purge_loop todo m n).0 ≡ n + length m
length-purge_loop [] m n o s w = unfold purge_loop in refl
length-purge_loop ((id, r) ∷ todo) m n o s w = elim (Bool-cases (str_eq r.status status_resolved)) [
  | inl hit ↦ rw (purge_loop_hit id r todo m n hit) (
      omega (
        arith,
        length-purge_loop todo (delete id m) (n + 1) o.1 (delete-IsSorted id m s)
            (Within-delete id r todo m o.0 w),
        length-delete id r m (IsSorted-Once m s) (Within-head id r todo m w),
      ))
  | inr miss ↦
      rw (purge_loop_miss id r todo m n miss)
        (length-purge_loop todo m n o.1 s (Within-tail id r todo m o.0 w))
]

-- Go iterates a map in any order. Whatever the order `todo` of the entries of `m`, the loop of
-- `Purge` over them leaves exactly the entries that are not resolved, and it counts what it deletes.
pub purge_loop_any_order :
    (todo m : GoMap Record)
    → Once todo
    → IsSorted m
    → ((k : Bytes) → lookup k todo ≡ lookup k m)
    → ((j : Bytes) → lookup j (purge_loop todo m 0).0 ≡ unresolved (lookup j m))
      × ((purge_loop todo m 0).1 + length (purge_loop todo m 0).0 ≡ length m)
purge_loop_any_order todo m o s same = (
  λ j. cc (lookup-purge_loop j todo m 0, hits-unresolved j todo o, same j),
  omega (arith, length-purge_loop todo m 0 o s (λ k r e. sym (same k) ∙ e)),
)

-- What `Purge` leaves of the entry with the key `j`.
abbrev pub kept : PurgeOptions → Bytes → Option Record → Option Record
kept opts j o =
    if not (str_eq opts.id [])
    then (if str_eq opts.id j then none else o)
    else if opts.all
    then none
    else unresolved o

-- On a state with a sorted map and options with exactly one target, whenever `Purge` succeeds: each entry is left or
-- gone as the target says, the count is the number of entries that went, and the version and the
-- counter stay.
pub purge_fn_effect :
    (opts : PurgeOptions) (st st' : State) (n : ℕ)
    → IsSorted st.records
    → purge_targets opts ≡ 1
    → purge_fn opts st ≡ ok (st', n)
    → ((j : Bytes) → lookup j st'.records ≡ kept opts j (lookup j st.records))
      × (n + length st'.records ≡ length st.records)
      × (st'.counter ≡ st.counter)
      × (st'.version ≡ st.version)
unfolding purge_fn purge_targets lookup
purge_fn_effect opts st st' n s one e =
    let sweep =
      purge_loop_any_order st.records st.records (IsSorted-Once st.records s) s (λ k. refl) in
    elim (Bool-cases (str_eq opts.id [])) [
      | inr named ↦ elim (Option-cases (lookup opts.id st.records)) [
        | inl missing ↦ absurd (ground arith)
        | inr (r, found) ↦ (
          λ j. ground (arith, lookup-delete opts.id j st.records),
          ground (arith, length-delete opts.id r st.records (IsSorted-Once st.records s) found),
          ground arith,
          ground arith,
        )
      ]
      | inl unnamed ↦ elim (Bool-cases opts.all) [
        | inl everything ↦ (λ j. ground arith, ground arith, ground arith, ground arith)
        | inr part ↦ elim (Bool-cases opts.resolved) [
          | inl done ↦
              (λ j. ground (arith, sweep.0 j), ground (arith, sweep.1), ground arith, ground arith)
          | inr nothing ↦ absurd (ground arith)
        ]
      ]
    ]
