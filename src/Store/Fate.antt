-- ===== src/Store/Fate.antt =====
-- What one request can do to one entry: the complete list, for an entry that is there and for a key
-- that is free.
use mcp_chain.Base.{
  ℕ, ◌≡◌, refl, sym, ◌⊎◌, inl, inr, true, false, none, some, Option, arith, Bytes, str_eq,
  str_eq_iff, Bool-cases, subst, ap,
}
use mcp_chain.Base.GoMap.{lookup, lookup-insert, lookup-delete, IsSorted, IsSorted-Once}
use mcp_chain.Store.Effect.{
  Effect, stays, allocates, names, resolves, removes, clears, sweeps, serve-Effect,
}
use mcp_chain.Store.Machine.{Request, register, register_with_id, resolve, purge, step}
use mcp_chain.Store.Errors.{ok}
use mcp_chain.Store.Schema.{Time, State, Record, ResolveOptions, status_resolved, PurgeOptions}
use mcp_chain.Idgen.Allocate.{allocate}
use mcp_chain.Store.Ops.{pending_record}
use mcp_chain.Store.Slug.{validate_id}
use mcp_chain.Store.PurgeLaws.{purge_loop_any_order, unresolved}
use mcp_chain.Store.Invariant.{IsValid}

-- What becomes of the record `r` under the key `k`, when the counter is `c`.
pub data Fate (now : Time) (q : Request) (k : Bytes) (r : Record) (c : ℕ) (o : Option Record)
    : Type 0 where
  same : o ≡ some r → Fate now q k r c o
  settled :
      (token : Bytes) (opts : ResolveOptions)
      → q ≡ resolve k token opts
      → str_eq r.status status_resolved ≡ false
      → (opts.force ≡ true) ⊎ (token ≡ r.owner_token)
      → o ≡ some (record r { status = status_resolved; resolved_at = some now })
      → Fate now q k r c o
  purged : (opts : PurgeOptions) → q ≡ purge opts → o ≡ none → Fate now q k r c o
  replaced :
      (token condition : Bytes)
      → q ≡ register token condition
      → k ≡ allocate c
      → o ≡ some (pending_record k condition token now)
      → Fate now q k r c o

-- How a free key `k` can come to hold a record.
pub data Birth (now : Time) (q : Request) (k : Bytes) (c : ℕ) (o : Option Record) : Type 0 where
  absent : o ≡ none → Birth now q k c o
  allocated :
      (token condition : Bytes)
      → q ≡ register token condition
      → k ≡ allocate c
      → o ≡ some (pending_record k condition token now)
      → Birth now q k c o
  named :
      (token condition : Bytes)
      → q ≡ register_with_id token k condition
      → validate_id k ≡ ok tt
      → o ≡ some (pending_record k condition token now)
      → Birth now q k c o

module _ {now : Time} {st : State} {q : Request} {st' : State} (k : Bytes) where
  Effect-Fate :
      (r : Record)
      → Effect now st q st'
      → IsSorted st.records
      → lookup k st.records ≡ some r
      → Fate now q k r st.counter (lookup k st'.records)
  unfolding unresolved
  Effect-Fate r (stays e) s found = same (rw e found)
  Effect-Fate r (allocates token condition asked e) s found =
      let id = allocate st.counter in
      let now_there = lookup-insert id k (pending_record id condition token now) st.records in
      elim (Bool-cases (str_eq id k)) [
        | inl hit ↦
            let key = (str_eq_iff id k).0 hit in
            replaced token condition asked (sym key) (rw (e, now_there, hit, key) refl)
        | inr miss ↦ same (rw (e, now_there, miss) found)
      ]
  Effect-Fate r (names token id condition asked good free e) s found = same (
      ground (
        arith,
        lookup-insert id k (pending_record id condition token now) st.records,
        str_eq_iff id k,
      ))
  Effect-Fate r (resolves id token opts x asked there pending allowed e) s found =
      let y = record x { status = status_resolved; resolved_at = some now } in
      let now_there = lookup-insert id k y st.records in
      elim (Bool-cases (str_eq id k)) [
        | inl hit ↦
            let key = (str_eq_iff id k).0 hit in
            let this : x ≡ r = cc (sym there, found, key) in
            settled token opts (subst (λ j. q ≡ resolve j token opts) key asked)
              (subst (λ (y : Record). str_eq y.status status_resolved ≡ false) this pending)
              (subst (λ (y : Record). (opts.force ≡ true) ⊎ (token ≡ y.owner_token)) this allowed)
              (rw (e, now_there, hit)
                (ap
                  (λ (y : Record).
                    some (record y { status = status_resolved; resolved_at = some now }))
                  this))
        | inr miss ↦ same (rw (e, now_there, miss) found)
      ]
  Effect-Fate r (removes opts x asked there e) s found =
      let now_there = lookup-delete opts.id k st.records in
      elim (Bool-cases (str_eq opts.id k)) [
        | inl hit ↦ purged opts asked (rw (e, now_there, hit) refl)
        | inr miss ↦ same (rw (e, now_there, miss) found)
      ]
  Effect-Fate r (clears opts asked e) s found = purged opts asked (unfold lookup in rw e)
  Effect-Fate r (sweeps opts asked e) s found =
      let swept =
        (purge_loop_any_order st.records st.records (IsSorted-Once st.records s) s (λ j. refl)).0
          k in
      elim (Bool-cases (str_eq r.status status_resolved)) [
        | inl hit ↦ purged opts asked (rw (e, swept, found, unresolved, hit) refl)
        | inr miss ↦ same (rw (e, swept, found, unresolved, miss) refl)
      ]

  Effect-Birth :
      Effect now st q st'
      → IsSorted st.records
      → lookup k st.records ≡ none
      → Birth now q k st.counter (lookup k st'.records)
  unfolding unresolved
  Effect-Birth (stays e) s free = absent (rw e free)
  Effect-Birth (allocates token condition asked e) s free =
      let id = allocate st.counter in
      let now_there = lookup-insert id k (pending_record id condition token now) st.records in
      elim (Bool-cases (str_eq id k)) [
        | inl hit ↦
            let key = (str_eq_iff id k).0 hit in
            allocated token condition asked (sym key) (rw (e, now_there, hit, key) refl)
        | inr miss ↦ absent (rw (e, now_there, miss) free)
      ]
  Effect-Birth (names token id condition asked good _ e) s free =
      let now_there = lookup-insert id k (pending_record id condition token now) st.records in
      elim (Bool-cases (str_eq id k)) [
        | inl hit ↦
            let key = (str_eq_iff id k).0 hit in
            named token condition (subst (λ j. q ≡ register_with_id token j condition) key asked)
              (subst (λ j. validate_id j ≡ ok tt) key good) (rw (e, now_there, hit, key) refl)
        | inr miss ↦ absent (rw (e, now_there, miss) free)
      ]
  Effect-Birth (resolves id token opts x _ there _ _ e) s free =
      let y = record x { status = status_resolved; resolved_at = some now } in
      absent (ground (arith, lookup-insert id k y st.records, str_eq_iff id k))
  Effect-Birth (removes opts x _ _ e) s free =
      absent (ground (arith, lookup-delete opts.id k st.records))
  Effect-Birth (clears opts _ e) s free = absent (unfold lookup in rw e)
  Effect-Birth (sweeps opts _ e) s free =
      let swept =
        (purge_loop_any_order st.records st.records (IsSorted-Once st.records s) s (λ j. refl)).0
          k in
      absent (rw (e, swept, free, unresolved))

-- In a well-formed state, one request leaves a record as it is; or resolves it, which only a `Resolve`
-- of its id does, for a record not yet resolved, with force or the token it was registered under, and
-- which changes nothing but the status and the time; or a `Purge` takes it out; or a `Register` puts
-- a new pending record in its place, which happens only where the id that the counter allocates is
-- taken.
pub step-Fate :
    (now : Time) (q : Request) (st : State) (k : Bytes) (r : Record)
    → IsValid st
    → lookup k st.records ≡ some r
    → Fate now q k r st.counter (lookup k (step st (now, q)).records)
unfolding step
step-Fate now q st k r v found = Effect-Fate k r (serve-Effect now q st) v.sorted found

-- In a well-formed state, one request leaves a free key free; or a `Register` stores a new pending
-- record under it, where it is the id of the counter; or a `RegisterWithID` of that very key does,
-- where the key is a valid id.
pub step-Birth :
    (now : Time) (q : Request) (st : State) (k : Bytes)
    → IsValid st
    → lookup k st.records ≡ none
    → Birth now q k st.counter (lookup k (step st (now, q)).records)
unfolding step
step-Birth now q st k v free = Effect-Birth k (serve-Effect now q st) v.sorted free
