-- ===== src/Store/Identity.antt =====
-- The ids that `Register` hands out over a history, and the counter behind them.
use mcp_chain.Base.{
  ℕ, suc, ◌+◌, ◌<◌, ◌≡◌, refl, ◌⊎◌, inl, inr, some, List, [], ◌∷◌, ◌^◌, arith, Bytes, length,
  get_elem?, sym, ◌∙◌, zero,
}
use mcp_chain.Idgen.Allocate.{allocate}
use mcp_chain.Idgen.Allocate.Laws.{allocate-injective}
use mcp_chain.Store.Machine.{one, many, done, removed, allocated}
use mcp_chain.Store.Schema.{Time, State}
use mcp_chain.Store.Machine.{
  Request, Reply, register, register_with_id, resolve, get, list, purge, serve, step, allocated,
  one, many, removed,
}
use mcp_chain.Store.Errors.{Result, ok, err}
use mcp_chain.Store.Ops.{register_fn, register_with_id_fn, resolve_fn, get_fn, list_fn, purge_fn}

-- The id of a reply of `Register`, in front of the later ones.
unfoldable pub with_id : Result (State × Reply) → List Bytes → List Bytes
with_id (ok (st, allocated id)) later = id ∷ later
with_id (ok (st, done)) later = later
with_id (ok (st, one r)) later = later
with_id (ok (st, many rs)) later = later
with_id (ok (st, removed n)) later = later
with_id (err e) later = later

-- The ids that a history of requests allocates, in order.
unfoldable pub allocated_ids : State → List (Time × Request) → List Bytes
unfolding with_id
allocated_ids st [] = []
allocated_ids st ((now, q) ∷ qs) = with_id (serve now q st) (allocated_ids (step st (now, q)) qs)

-- A request allocates the counter's id and takes the counter one up, or does neither.
abbrev Advances : State → Time × Request → Type 0
Advances st (now, q) =
    (((step st (now, q)).counter ≡ st.counter + 1)
      × ((later : List Bytes) → with_id (serve now q st) later ≡ allocate st.counter ∷ later))
    ⊎ (((step st (now, q)).counter ≡ st.counter)
        × ((later : List Bytes) → with_id (serve now q st) later ≡ later))

step-Advances : (st : State) (q : Time × Request) → suc st.counter < 2 ^ 64 → Advances st q
unfolding step serve register_fn with_id
step-Advances st (now, register token condition) h = inl (omega arith, λ later. refl)
step-Advances st (now, register_with_id token id condition) h =
    unfold register_with_id_fn in inr (ground arith, λ later. ground arith)
step-Advances st (now, resolve id token opts) h =
    unfold resolve_fn in inr (ground arith, λ later. ground arith)
step-Advances st (now, get id) h = unfold get_fn in inr (ground arith, λ later. ground arith)
step-Advances st (now, list) h = unfold list_fn in inr (ground arith, λ later. ground arith)
step-Advances st (now, purge opts) h = unfold purge_fn in inr (ground arith, λ later. ground arith)

nth_cons :
    (c n i : ℕ) (id : Bytes) (later : List Bytes)
    → get_elem? (allocate c ∷ later) i ≡ some id
    → ((j : ℕ) → get_elem? later j ≡ some id → (id ≡ allocate (c + 1 + j)) × (j < n))
    → (id ≡ allocate (c + i)) × (i < suc n)
nth_cons c n zero id later e rest =
    let same : c + zero ≡ c = omega arith in (rw same (cc), omega arith)
nth_cons c n (suc i) id later e rest =
    let (ids, lt) = rest i e in
    let same : c + suc i ≡ c + 1 + i = omega arith in (rw same ids, omega arith)

-- The ids that a history allocates are those of the counters from the first one on.
pub nth_allocated :
    (st : State) (qs : List (Time × Request)) (i : ℕ) (id : Bytes)
    → st.counter + length qs < 2 ^ 64
    → get_elem? (allocated_ids st qs) i ≡ some id
    → (id ≡ allocate (st.counter + i)) × (i < length qs)
unfolding allocated_ids
nth_allocated st [] i id h e = cc
nth_allocated st ((now, q) ∷ qs) i id h e = elim (step-Advances st (now, q) (omega arith)) [
  | inl (up, ids) ↦
      nth_cons st.counter (length qs) i id (allocated_ids (step st (now, q)) qs)
        (rw (ids (allocated_ids (step st (now, q)) qs)) at e)
        (λ j e'. rw (sym up) (nth_allocated (step st (now, q)) qs j id (omega arith) e'))
  | inr (same, ids) ↦
      let (a, b) =
        nth_allocated (step st (now, q)) qs i id (omega arith)
          (rw (ids (allocated_ids (step st (now, q)) qs)) at e) in
      (rw (sym same) a, omega arith)
]

-- Over any history of requests, purges included, that starts at a counter from which the uint64 does
-- not wrap, `Register` never hands out one id twice.
pub allocated_ids_distinct :
    (st : State) (qs : List (Time × Request)) (i j : ℕ) (id : Bytes)
    → st.counter + length qs < 2 ^ 64
    → get_elem? (allocated_ids st qs) i ≡ some id
    → get_elem? (allocated_ids st qs) j ≡ some id
    → i ≡ j
allocated_ids_distinct st qs i j id h p q =
    let (a, lt) = nth_allocated st qs i id h p in
    let (b, lt') = nth_allocated st qs j id h q in
    let same =
      allocate-injective (st.counter + i) (st.counter + j) (omega arith) (omega arith)
        (sym a ∙ b) in
    omega arith
