-- ===== src/Store/Refinement.antt =====
-- The methods over a file and the state machine (internal/store/store.go), without and with errors of
-- the operating system.
use mcp_chain.Base.{◌≡◌, refl, inl, inr, none, List, [], ◌∷◌, ◌∙◌, ap, Bool-cases, ◌==◌}
use mcp_chain.Store.Machine.{
  Request, register, register_with_id, resolve, get, list, purge, one, many, done, removed,
  allocated, step, serve, run, Reply, after, replying, reading,
}
use mcp_chain.Store.Methods
use mcp_chain.Store.Schema.{Time, State}
use mcp_chain.Store.Disk.{
  Env, Disk, Codec, with_locked_state, with_shared_lock, release, load_state, fresh_state,
}
use mcp_chain.Store.Invariant.{IsValid, step-IsValid, run-IsValid, fresh_state-IsValid}
use mcp_chain.Store.Errors.{Result, ok, err}
use mcp_chain.Store.Transaction.{content, quiet, refuse, load_quiet, commit}
use mcp_chain.Store.Slug.{validate_id_cases}
use mcp_chain.Store.Ops.{
  register_fn, register_with_id_fn, resolve_fn, get_fn, list_fn, purge_targets, purge_fn,
}

-- The value of a call as a reply.
abbrev pub replied : {A : Type 0} → (A → Reply) → Result A → Result Reply
replied f (ok a) = ok (f a)
replied f (err e) = err e

-- The reply of `serve`.
abbrev pub reply_of : Result (State × Reply) → Result Reply
reply_of (ok (st, r)) = ok r
reply_of (err e) = err e

abbrev pub wrapped : {A Doc : Type 0} → (A → Reply) → Result A × Disk Doc → Result Reply × Disk Doc
wrapped f (r, disk) = (replied f r, disk)

module _ {Doc : Type 0} (json : Codec Doc) where
  -- A request as a call of the method of its name.
  unfoldable pub execute : Request → Env → Disk Doc → Result Reply × Disk Doc
  execute (register token condition) env disk =
      wrapped allocated (Methods.register json token condition env disk)
  execute (register_with_id token id condition) env disk =
      wrapped (λ _. done) (Methods.register_with_id json token id condition env disk)
  execute (resolve id token opts) env disk =
      wrapped (λ _. done) (Methods.resolve json id token opts env disk)
  execute (get id) env disk = (replied one (Methods.get json id env disk), disk)
  execute list env disk = (replied many (Methods.list json env disk), disk)
  execute (purge opts) env disk = wrapped removed (Methods.purge json opts env disk)

-- The file `disk'` and the answer are those of the outcome `r` of `serve`.
record Agrees {Doc : Type 0} (json : Codec Doc) (st : State) (r : Result (State × Reply))
    (out : Result Reply × Disk Doc) : Type 0 where
  pub answer : out.0 ≡ reply_of r
  pub file : content json out.1 ≡ ok (after st r)

pub shared_quiet :
    {Doc A : Type 0} (json : Codec Doc) (fn : State → Result A) (now : Time) (disk : Disk Doc)
    (st : State)
    → load_state json (quiet now) disk ≡ ok st
    → with_shared_lock json fn (quiet now) disk ≡ fn st
unfolding with_shared_lock release
shared_quiet json fn now disk st l = rw l

module _ {Doc A : Type 0} (json : Codec Doc) (f : A → Reply) (fn : State → Result (State × A))
    (now : Time) (disk : Disk Doc) (st : State) where
  locked-at :
      (r : Result (State × A))
      → fn st ≡ r
      → content json disk ≡ ok st
      → IsValid (after st (replying f r))
      → json.IsEncodable (after st (replying f r))
      → Agrees json st (replying f r) (wrapped f (with_locked_state json fn (quiet now) disk))
  unfolding release
  locked-at (err e) q c v enc =
      let whole = refuse json fn (quiet now) disk st e c refl refl q in
      rw whole (record { answer = refl; file = c })
  locked-at (ok (st', a)) q c v enc =
      let (kept, value) =
        commit json fn (quiet now) disk st st' a c refl refl refl q enc v.sorted v.version in
      record { answer = ap (replied f) value; file = kept }

  -- A locked section agrees with its closure.
  locked-Agrees :
      content json disk ≡ ok st
      → IsValid (after st (replying f (fn st)))
      → json.IsEncodable (after st (replying f (fn st)))
      → Agrees json st (replying f (fn st)) (wrapped f (with_locked_state json fn (quiet now) disk))
  locked-Agrees = locked-at (fn st) refl

module _ {Doc A : Type 0} (json : Codec Doc) (f : A → Reply) (fn : State → Result A) (now : Time)
    (disk : Disk Doc) (st : State) where
  -- A shared section reads the state and leaves the file.
  shared-Agrees :
      content json disk ≡ ok st
      → Agrees json st
          (reading f st (fn st))
          (replied f (with_shared_lock json fn (quiet now) disk), disk)
  shared-Agrees c = go (fn st) refl
    where
      loaded : load_state json (quiet now) disk ≡ ok st
      loaded = load_quiet json (quiet now) disk refl ∙ c

      answer : with_shared_lock json fn (quiet now) disk ≡ fn st
      answer = shared_quiet json fn now disk st loaded

      go :
          (r : Result A)
          → fn st ≡ r
          → Agrees json st
              (reading f st (fn st))
              (replied f (with_shared_lock json fn (quiet now) disk), disk)
      go (ok a) e = rw (answer, e) (record { answer = refl; file = c })
      go (err x) e = rw (answer, e) (record { answer = refl; file = c })

module _ {Doc : Type 0} (json : Codec Doc) where
  execute-at :
      (q : Request) (now : Time) (disk : Disk Doc) (st : State)
      → content json disk ≡ ok st
      → IsValid (after st (serve now q st))
      → json.IsEncodable (after st (serve now q st))
      → Agrees json st (serve now q st) (execute json q (quiet now) disk)
  unfolding execute serve Methods.register Methods.register_with_id Methods.resolve Methods.get
      Methods.list Methods.purge
  execute-at (register token condition) now disk st c v enc =
      locked-Agrees json allocated (register_fn token condition now) now disk st c v enc
  execute-at (register_with_id token id condition) now disk st c v enc =
      elim (validate_id_cases id) [
        | inl good ↦
            rw (good, Methods.register_with_id)
              (locked-Agrees json (λ _. done) (register_with_id_fn token id condition now) now disk
                st c (rw good at v) (rw good at enc))
        | inr (e, bad, _) ↦ rw (bad, Methods.register_with_id) (record { answer = refl; file = c })
      ]
  execute-at (resolve id token opts) now disk st c v enc =
      locked-Agrees json (λ _. done) (resolve_fn id token opts now) now disk st c v enc
  execute-at (get id) now disk st c v enc = shared-Agrees json one (get_fn id) now disk st c
  execute-at list now disk st c v enc = shared-Agrees json many list_fn now disk st c
  execute-at (purge opts) now disk st c v enc = elim (Bool-cases (purge_targets opts == 1)) [
    | inl good ↦
        rw (good, Methods.purge)
          (locked-Agrees json removed (purge_fn opts) now disk st c (rw good at v) (rw good at enc))
    | inr bad ↦ rw (bad, Methods.purge) (record { answer = refl; file = c })
  ]

  -- Without errors of the operating system, each method of `Store` refines the state machine: where
  -- the file holds a well-formed state and the state after the step is encodable, the method answers as `serve` does on that state, errors
  -- included, and the file then holds the state after the step.
  pub execute-Agrees :
      (q : Request) (now : Time) (disk : Disk Doc) (st : State)
      → content json disk ≡ ok st
      → IsValid st
      → json.IsEncodable (step st (now, q))
      → ((execute json q (quiet now) disk).0 ≡ reply_of (serve now q st))
        × (content json (execute json q (quiet now) disk).1 ≡ ok (step st (now, q)))
  unfolding step
  execute-Agrees q now disk st c v enc =
      let whole = execute-at q now disk st c (step-IsValid st (now, q) v) enc in
      (whole.answer, whole.file)

-- A history of requests against the file, one after the other, each without errors of the operating
-- system.
unfoldable pub execute_all :
    {Doc : Type 0} → Codec Doc → List (Time × Request) → Disk Doc → Disk Doc
unfolding execute
execute_all json [] disk = disk
execute_all json ((now, q) ∷ qs) disk = execute_all json qs (execute json q (quiet now) disk).1

-- Each state that a history reaches is encodable.
unfoldable pub AllEncodable : {Doc : Type 0} → Codec Doc → State → List (Time × Request) → Type 0
AllEncodable json st [] = Unit
AllEncodable json st ((now, q) ∷ qs) =
    json.IsEncodable (step st (now, q)) × AllEncodable json (step st (now, q)) qs

module _ {Doc : Type 0} (json : Codec Doc) where
  histories :
      (qs : List (Time × Request)) (disk : Disk Doc) (st : State)
      → content json disk ≡ ok st
      → IsValid st
      → AllEncodable json st qs
      → content json (execute_all json qs disk) ≡ ok (run st qs)
  unfolding execute_all run AllEncodable
  histories [] disk st c v enc = c
  histories ((now, q) ∷ qs) disk st c v (enc, encs) =
      histories qs (execute json q (quiet now) disk).1 (step st (now, q))
        (execute-Agrees json q now disk st c v enc).1 (step-IsValid st (now, q) v) encs

  -- Without errors of the operating system, and where each state on the way is encodable: from no file
  -- at all, whatever the requests, the file comes to hold the state of the abstract history, and that
  -- state is well formed.
  pub execute_all-fresh :
      (qs : List (Time × Request))
      → AllEncodable json fresh_state qs
      → (content json (execute_all json qs none) ≡ ok (run fresh_state qs))
        × IsValid (run fresh_state qs)
  unfolding content load_state
  execute_all-fresh qs encs =
      (histories qs none fresh_state refl fresh_state-IsValid encs, run-IsValid qs)
