-- ===== src/Store/Effect.antt =====
-- The ways in which a request can change the state, as a relation. Invariants are proved on it, one
-- case for each way, and `serve-Effect` says that there is no other.
use mcp_chain.Base.{
  ◌+◌, ◌%◌, ◌^◌, ◌≡◌, refl, ◌⊎◌, inl, inr, Bool, true, false, none, some, [], arith, Bytes,
  Bool-cases, Option-cases, not, ◌==◌, ◌&&◌, str_eq, str_eq_iff,
}
use mcp_chain.Base.GoMap.{lookup, insert, delete}
use mcp_chain.Idgen.Allocate.{allocate}
use mcp_chain.Store.Errors.{Result, ok, err}
use mcp_chain.Store.Schema.{Time, Record, State, PurgeOptions, ResolveOptions, status_resolved}
use mcp_chain.Store.Slug.{validate_id, validate_id_cases}
use mcp_chain.Store.Ops.{
  pending_record, register_fn, register_with_id_fn, resolve_fn, purge_loop, purge_fn, purge_targets,
  get_fn, list_fn,
}
use mcp_chain.Store.Machine.{
  Request, register, register_with_id, resolve, get, list, purge, reading, after, serve, Reply, one,
  many,
}

-- The state behind a `Register`.
abbrev pub registered : State → Bytes → Bytes → Time → State
registered st token condition now =
    let id = allocate st.counter in
    record st {
      counter = (st.counter + 1) % 2 ^ 64;
      records = insert id (pending_record id condition token now) st.records;
    }

pub data Effect (now : Time) (st : State) (q : Request) (st' : State) : Type 0 where
  stays : st' ≡ st → Effect now st q st'
  allocates :
      (token condition : Bytes)
      → q ≡ register token condition
      → st' ≡ registered st token condition now
      → Effect now st q st'
  names :
      (token id condition : Bytes)
      → q ≡ register_with_id token id condition
      → validate_id id ≡ ok tt
      → lookup id st.records ≡ none
      → st' ≡ record st { records = insert id (pending_record id condition token now) st.records }
      → Effect now st q st'
  resolves :
      (id token : Bytes) (opts : ResolveOptions) (r : Record)
      → q ≡ resolve id token opts
      → lookup id st.records ≡ some r
      → str_eq r.status status_resolved ≡ false
      → (opts.force ≡ true) ⊎ (token ≡ r.owner_token)
      → st' ≡ record st {
        records =
            insert id (record r { status = status_resolved; resolved_at = some now }) st.records;
      }
      → Effect now st q st'
  removes :
      (opts : PurgeOptions) (r : Record)
      → q ≡ purge opts
      → lookup opts.id st.records ≡ some r
      → st' ≡ record st { records = delete opts.id st.records }
      → Effect now st q st'
  clears :
      (opts : PurgeOptions)
      → q ≡ purge opts
      → st' ≡ record st { records = [] }
      → Effect now st q st'
  sweeps :
      (opts : PurgeOptions)
      → q ≡ purge opts
      → st' ≡ record st { records = (purge_loop st.records st.records 0).0 }
      → Effect now st q st'

after-reading {ℓ} :
    {A : Type ℓ} (f : A → Reply) (st : State) (r : Result A) → after st (reading f st r) ≡ st
after-reading f st (ok a) = refl
after-reading f st (err e) = refl

register_with_id-Effect :
    (token id condition : Bytes) (now : Time) (st : State)
    → let q = register_with_id token id condition in Effect now st q (after st (serve now q st))
unfolding serve register_with_id_fn
register_with_id-Effect token id condition now st = elim (validate_id_cases id) [
  | inr (e, bad, _) ↦ stays (ground arith)
  | inl good ↦ elim (Option-cases (lookup id st.records)) [
    | inr (r, taken) ↦ stays (ground arith)
    | inl free ↦ names token id condition refl good free (ground arith)
  ]
]

allowed_cases :
    (force same : Bool) → (not force && not same ≡ true) ⊎ ((force ≡ true) ⊎ (same ≡ true))
allowed_cases force same = ground arith

resolve-Effect :
    (id token : Bytes) (opts : ResolveOptions) (now : Time) (st : State)
    → let q = resolve id token opts in Effect now st q (after st (serve now q st))
unfolding serve resolve_fn
resolve-Effect id token opts now st = elim (Option-cases (lookup id st.records)) [
  | inl missing ↦ stays (ground arith)
  | inr (r, found) ↦ elim (Bool-cases (str_eq r.status status_resolved)) [
    | inl already ↦ stays (ground arith)
    | inr pending ↦ elim (Bool-cases opts.force) [
      | inl forced ↦ resolves id token opts r refl found pending (inl forced) (ground arith)
      | inr plain ↦ elim (Bool-cases (str_eq token r.owner_token)) [
        | inl owner ↦
            resolves id token opts r refl found pending
              (inr ((str_eq_iff token r.owner_token).0 owner)) (ground arith)
        | inr other ↦ stays (ground arith)
      ]
    ]
  ]
]

purge-Effect :
    (opts : PurgeOptions) (now : Time) (st : State)
    → Effect now st (purge opts) (after st (serve now (purge opts) st))
unfolding serve purge_fn
purge-Effect opts now st = elim (Bool-cases (purge_targets opts == 1)) [
  | inr several ↦ stays (ground arith)
  | inl one_target ↦ elim (Bool-cases (str_eq opts.id [])) [
    | inr named ↦ elim (Option-cases (lookup opts.id st.records)) [
      | inl missing ↦ stays (ground arith)
      | inr (r, found) ↦ removes opts r refl found (ground arith)
    ]
    | inl unnamed ↦ elim (Bool-cases opts.all) [
      | inl everything ↦ clears opts refl (ground arith)
      | inr part ↦ elim (Bool-cases opts.resolved) [
        | inl done ↦ sweeps opts refl (ground arith)
        | inr nothing ↦ stays (ground arith)
      ]
    ]
  ]
]

-- Whatever the request and the state, the new state is one of those that `Effect` lists.
pub serve-Effect :
    (now : Time) (q : Request) (st : State) → Effect now st q (after st (serve now q st))
unfolding serve register_fn
serve-Effect now (register token condition) st = allocates token condition refl refl
serve-Effect now (register_with_id token id condition) st =
    register_with_id-Effect token id condition now st
serve-Effect now (resolve id token opts) st = resolve-Effect id token opts now st
serve-Effect now (get id) st = stays (ground (arith, after-reading one st (get_fn id st)))
serve-Effect now list st = stays (ground (arith, after-reading many st (list_fn st)))
serve-Effect now (purge opts) st = purge-Effect opts now st
