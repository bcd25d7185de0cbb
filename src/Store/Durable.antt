-- ===== src/Store/Durable.antt =====
-- The file after a call that reports success, whatever errors the operating system may report
-- (internal/store/lock.go).
use mcp_chain.Base.{◌≡◌, refl, inl, inr, some, arith, Option-cases, ◌==◌, Bool-cases, subst, sym}
use mcp_chain.Store.Machine.{
  Request, register, register_with_id, resolve, get, list, purge, one, many, done, removed,
  allocated, step, serve, Reply, after, reading, replying,
}
use mcp_chain.Store.Methods
use mcp_chain.Store.Disk.{
  Disk, Codec, Env, load_state, save_outcome, with_locked_state, with_shared_lock, decoded,
}
use mcp_chain.Store.Errors.{err, ok, Result, Result-cases, ◌>>=◌}
use mcp_chain.Store.Schema.{State, current_version}
use mcp_chain.Store.Slug.{validate_id_cases}
use mcp_chain.Store.Invariant.{IsValid, step-IsValid}
use mcp_chain.Base.GoMap.{IsSorted}
use mcp_chain.Store.Refinement.{execute, replied}
use mcp_chain.Store.Transaction.{content, content_saved}
use mcp_chain.Store.Ops.{
  register_fn, register_with_id_fn, resolve_fn, purge_targets, purge_fn, get_fn, list_fn,
}
use mcp_chain.Store.Loads.{release-ok, load_cases, shared_is_current}

replied-ok :
    {A : Type 0} (f : A → Reply) (r : Result A) (y : Reply)
    → replied f r ≡ ok y
    → (a : A) × (r ≡ ok a) × (f a ≡ y)
replied-ok f (ok a) y h = (a, refl, cc)
replied-ok f (err x) y h = cc

module _ {Doc A : Type 0} (json : Codec Doc) (fn : State → Result (State × A)) (env : Env)
    (disk : Disk Doc) where
  -- A value came through the closure and the saving.
  save_outcome-inv :
      (r : Result (State × A)) (a : A)
      → (save_outcome json env disk r).0 ≡ ok a
      → (st : State) × (doc : Doc) × (r ≡ ok (st, a))
        × (json.marshal_indent st ≡ ok doc)
        × ((save_outcome json env disk r).1 ≡ some (json.append_newline doc))
  unfolding save_outcome
  save_outcome-inv (err x) a h = cc
  save_outcome-inv (ok (st, b)) a h = elim (Result-cases (json.marshal_indent st)) [
    | inl (x, m) ↦ absurd (ground arith)
    | inr (doc, m) ↦ elim (Option-cases env.write_error) [
      | inr (text, w) ↦ absurd (ground arith)
      | inl w ↦ (st, doc, ground arith, m, ground arith)
    ]
  ]

  -- A value that `withLockedState` returns is the closure's, on the state that the file held, and the
  -- closure's new state is in the file.
  pub ok_is_durable :
      (a : A) (st : State)
      → (with_locked_state json fn env disk).0 ≡ ok a
      → content json disk ≡ ok st
      → (st' : State) × (fn st ≡ ok (st', a))
        × (json.IsEncodable st'
            → IsSorted st'.records
            → st'.version ≡ current_version
            → content json (with_locked_state json fn env disk).1 ≡ ok st')
  unfolding with_locked_state
  ok_is_durable a st h c = elim (Option-cases env.lock_error) [
    | inr (text, l) ↦ absurd (ground arith)
    | inl l ↦
        let loaded = load_state json env disk in
        let out = save_outcome json env disk (loaded >>= fn) in
        let value : out.0 ≡ ok a = release-ok env.unlock_error out.0 a (ground arith) in
        let (st', doc, fn_ok, m, written) = save_outcome-inv (loaded >>= fn) a value in
        elim (load_cases json env disk) [
          | inr (e, bad) ↦ absurd (ground arith)
          | inl same ↦ (
            st',
            ground arith,
            λ enc s v.
                let (doc', m', u) = json.round_trip st' enc s in
                ground (
                  arith,
                  content_saved json st' (json.append_newline doc)
                      (subst
                        (λ (d : Doc). json.unmarshal (json.append_newline d) ≡ some (decoded st'))
                        (cc (sym m, m')) u)
                      v,
                ),
          )
        ]
  ]

-- The request's new state is in the file, and its reply is the one that was given.
abbrev Served :
    {Doc : Type 0} → Codec Doc → State → Reply → Result (State × Reply) → Disk Doc → Type 0
Served json st reply r disk' = (r ≡ ok (after st r, reply)) × (content json disk' ≡ ok (after st r))

module _ {Doc A : Type 0} (json : Codec Doc) (f : A → Reply) (env : Env) (disk : Disk Doc)
    (st : State) (reply : Reply) where
  locked-Served :
      (fn : State → Result (State × A))
      → replied f (with_locked_state json fn env disk).0 ≡ ok reply
      → content json disk ≡ ok st
      → IsValid (after st (replying f (fn st)))
      → json.IsEncodable (after st (replying f (fn st)))
      → Served json st reply (replying f (fn st)) (with_locked_state json fn env disk).1
  locked-Served fn h c v enc =
      let (a, value, e) = replied-ok f (with_locked_state json fn env disk).0 reply h in
      let (st', fn_ok, durable) = ok_is_durable json fn env disk a st value c in
      let v' : IsValid st' = rw fn_ok at v in
      let enc' : json.IsEncodable st' = rw fn_ok at enc in
      rw (fn_ok, e) (refl, durable enc' v'.sorted v'.version)

  shared-Served :
      (fn : State → Result A)
      → replied f (with_shared_lock json fn env disk) ≡ ok reply
      → content json disk ≡ ok st
      → Served json st reply (reading f st (fn st)) disk
  shared-Served fn h c =
      let (a, value, e) = replied-ok f (with_shared_lock json fn env disk) reply h in
      let (x, held, got) = shared_is_current json fn env disk a value in
      let same : x ≡ st = cc (sym held, c) in
      let fn_ok : fn st ≡ ok a = cc in rw (fn_ok, e) (refl, c)

module _ {Doc : Type 0} (json : Codec Doc) where
  served :
      (q : Request) (env : Env) (disk : Disk Doc) (st : State) (reply : Reply)
      → (execute json q env disk).0 ≡ ok reply
      → content json disk ≡ ok st
      → IsValid (after st (serve env.now q st))
      → json.IsEncodable (after st (serve env.now q st))
      → Served json st reply (serve env.now q st) (execute json q env disk).1
  unfolding execute serve Methods.register Methods.register_with_id Methods.resolve Methods.get
      Methods.list Methods.purge
  served (register token condition) env disk st reply h c v enc =
      locked-Served json allocated env disk st reply (register_fn token condition env.now) h c v enc
  served (register_with_id token id condition) env disk st reply h c v enc =
      elim (validate_id_cases id) [
        | inl good ↦
            let fn = register_with_id_fn token id condition env.now in
            rw (good, Methods.register_with_id)
              (locked-Served json (λ _. done) env disk st reply fn
                (rw (good, Methods.register_with_id) at h) c (rw good at v) (rw good at enc))
        | inr (e, bad, _) ↦ absurd (ground arith)
      ]
  served (resolve id token opts) env disk st reply h c v enc =
      locked-Served json (λ _. done) env disk st reply (resolve_fn id token opts env.now) h c v enc
  served (get id) env disk st reply h c v enc =
      shared-Served json one env disk st reply (get_fn id) h c
  served list env disk st reply h c v enc = shared-Served json many env disk st reply list_fn h c
  served (purge opts) env disk st reply h c v enc = elim (Bool-cases (purge_targets opts == 1)) [
    | inl good ↦
        rw (good, Methods.purge)
          (locked-Served json removed env disk st reply (purge_fn opts)
            (rw (good, Methods.purge) at h) c (rw good at v) (rw good at enc))
    | inr bad ↦ absurd (ground arith)
  ]

module _ {Doc : Type 0} (json : Codec Doc) where
  -- Under any errors of the operating system, where the file held a well-formed state and the state
  -- after the step is encodable: a request that is answered by a reply has been served on the state
  -- that the file held, and the file then holds the state after the step.
  pub execute-ok :
      (q : Request) (env : Env) (disk : Disk Doc) (st : State) (reply : Reply)
      → (execute json q env disk).0 ≡ ok reply
      → content json disk ≡ ok st
      → IsValid st
      → json.IsEncodable (step st (env.now, q))
      → (serve env.now q st ≡ ok (step st (env.now, q), reply))
        × (content json (execute json q env disk).1 ≡ ok (step st (env.now, q)))
  unfolding step
  execute-ok q env disk st reply h c v enc =
      served json q env disk st reply h c (step-IsValid st (env.now, q) v) enc
