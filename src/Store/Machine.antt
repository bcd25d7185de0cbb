-- ===== src/Store/Machine.antt =====
-- The store as a state machine: the requests that clients send, in the order in which the lock lets
-- them in, each run on the decoded state as the method runs it.
use mcp_chain.Base.{ℕ, not, List, [], ◌∷◌, ◌==◌, if◌then◌else◌, Bytes}
use mcp_chain.Store.Errors.{Result, ok, err, ◌>>=◌, sentinel, err_purge_arg_required}
use mcp_chain.Store.Schema.{Time, State, ExportedRecord, PurgeOptions, ResolveOptions}
use mcp_chain.Store.Slug.{validate_id}
use mcp_chain.Store.Ops.{
  register_fn, register_with_id_fn, resolve_fn, get_fn, list_fn, purge_fn, purge_targets,
}

pub data Request : Type 0 where
  register : Bytes → Bytes → Request
  register_with_id : Bytes → Bytes → Bytes → Request
  resolve : Bytes → Bytes → ResolveOptions → Request
  get : Bytes → Request
  list : Request
  purge : PurgeOptions → Request

pub data Reply : Type 0 where
  allocated : Bytes → Reply
  done : Reply
  one : ExportedRecord → Reply
  many : List ExportedRecord → Reply
  removed : ℕ → Reply

-- A closure's result with its value as a reply.
abbrev pub replying {ℓ} : {A : Type ℓ} → (A → Reply) → Result (State × A) → Result (State × Reply)
replying f (ok (st, a)) = ok (st, f a)
replying f (err e) = err e

-- A closure that only reads.
abbrev pub reading {ℓ} : {A : Type ℓ} → (A → Reply) → State → Result A → Result (State × Reply)
reading f st (ok a) = ok (st, f a)
reading f st (err e) = err e

-- One request at the time `now`: the checks before the lock, and the closure under it.
unfoldable pub serve : Time → Request → State → Result (State × Reply)
serve now (register token condition) st = replying allocated (register_fn token condition now st)
serve now (register_with_id token id condition) st =
    validate_id id >>= λ _. replying (λ _. done) (register_with_id_fn token id condition now st)
serve now (resolve id token opts) st = replying (λ _. done) (resolve_fn id token opts now st)
serve now (get id) st = reading one st (get_fn id st)
serve now list st = reading many st (list_fn st)
serve now (purge opts) st =
    if not (purge_targets opts == 1)
    then err (sentinel err_purge_arg_required)
    else replying removed (purge_fn opts st)

-- A request that fails leaves the state as it was.
abbrev pub after : State → Result (State × Reply) → State
after st (ok (st', r)) = st'
after st (err e) = st

unfoldable pub step : State → Time × Request → State
step st (now, q) = after st (serve now q st)

unfoldable pub run : State → List (Time × Request) → State
run st [] = st
run st (q ∷ qs) = run (step st q) qs
