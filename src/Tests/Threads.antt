-- ===== src/Tests/Threads.antt =====
-- Two threads of two processes: the first registers while the second waits for the file lock; and a
-- thread whose release of the file lock fails.
use mcp_chain.Store.Progress.{Continues, stops, steps, NoLeaks, is_outer}
use mcp_chain.Base.{
  ◌≤◌, arith, List, ℕ, ◌≡◌, ◌≢◌, refl, false, some, [], ◌∷◌, codes, Bool-cases, inl, inr, ◌==◌, ◌⊎◌,
}
use mcp_chain.Store.Concurrent.{
  Job, exclusive, Phase, idle, queued, entered, holding, loaded, finished, has_mutex, has_lock,
  System, moved, work, Entry, call, lock_mutex, lock_file, load, works, Runs, begins, goes, blocks,
  Step, Leak, released,
}
use mcp_chain.Store.Disk.{Disk, Env, load_state}
use mcp_chain.Store.Errors.{Result}
use mcp_chain.Store.Machine.{allocated, replying, Reply}
use mcp_chain.Store.Ops.{register_fn}
use mcp_chain.Store.Schema.{State}
use mcp_chain.Store.Serial.{Serial, Runs-Serial, exclusive_alone}
use mcp_chain.Store.Transaction.{quiet}
use mcp_chain.Tests.Samples.{sample, direct}
use mcp_chain.Store.Liveness.{Runs-return}
use mcp_chain.Store.Bounded.{Continues-returns, count_steps, Continues-returns}
use mcp_chain.Store.Phases.{CanRelease}

abbrev handle : ℕ → ℕ
handle t = t

abbrev registering : Job
registering = exclusive (λ st. replying allocated (register_fn (codes "a1") (codes "x") 20 st))

abbrev env : Env
env = quiet 20

abbrev start : Disk State
start = some sample

abbrev phases0 : ℕ → Phase
phases0 t = idle

abbrev phases1 : ℕ → Phase
phases1 = moved 0 (queued registering env) phases0

abbrev phases2 : ℕ → Phase
phases2 = moved 0 (entered registering env) phases1

abbrev phases3 : ℕ → Phase
phases3 = moved 1 (queued registering env) phases2

abbrev phases4 : ℕ → Phase
phases4 = moved 1 (entered registering env) phases3

abbrev phases5 : ℕ → Phase
phases5 = moved 0 (holding registering env) phases4

abbrev read_state : Result State
read_state = load_state direct env start

abbrev phases6 : ℕ → Phase
phases6 = moved 0 (loaded registering env read_state) phases5

abbrev at : (ℕ → Phase) → System State
at phases = record { disk = start; phases = phases; leaks = [] }

abbrev entry : Entry
entry = record {
  job = registering;
  env = env;
  answer = (work direct registering env read_state start).0;
}

abbrev behind : System State
behind = record {
  disk = (work direct registering env read_state start).1;
  leaks = [];
  phases =
      moved 0 (finished registering env (work direct registering env read_state start).0) phases6;
}

first_enters : (u : ℕ) → handle u ≡ handle 0 → has_mutex (phases1 u) ≡ false
first_enters u e = elim (Bool-cases (u == 0)) [ inl y ↦ rw y refl | inr n ↦ rw n refl ]

second_enters : (u : ℕ) → handle u ≡ handle 1 → has_mutex (phases3 u) ≡ false
second_enters u e = rw e refl

lock_free : (u : ℕ) → handle u ≢ handle 0 → blocks registering (phases4 u) ≡ false
lock_free u ne = elim (Bool-cases (u == 1)) [
  | inl y ↦ rw y refl
  | inr n ↦ elim (Bool-cases (u == 0)) [ inl y ↦ rw (n, y) refl | inr m ↦ rw (n, m) refl ]
]

waiting : Runs direct handle start [] (at phases6)
waiting =
    goes
      (goes
        (goes
          (goes
            (goes (goes begins (call 0 registering env refl))
              (lock_mutex 0 registering env refl first_enters))
            (call 1 registering env refl))
          (lock_mutex 1 registering env refl second_enters))
        (lock_file 0 registering env refl refl lock_free tt))
      (load 0 registering env refl)

exclusive_alone_example : has_lock (phases6 1) ≡ false
exclusive_alone_example = exclusive_alone direct handle 0 1 waiting refl (λ e. cc)

registered_run : Runs direct handle start (entry ∷ []) behind
registered_run = goes waiting (works 0 registering env read_state refl)

Runs-Serial_example : Serial direct start (entry ∷ []) behind.disk
Runs-Serial_example = Runs-Serial direct handle registered_run

released_later : (t : ℕ) → CanRelease (phases6 t)
released_later t = elim (Bool-cases (t == 0)) [
  | inl first ↦ rw first refl
  | inr other ↦ elim (Bool-cases (t == 1)) [
    | inl second ↦ rw (other, second) refl
    | inr none_else ↦ rw (other, none_else) tt
  ]
]

clean : NoLeaks (at phases6)
clean = record { none_left = refl; releases = released_later }

Runs-return_example :
    (new : List Entry) × (s' : System State) × Continues direct handle (at phases6) new s'
    × ((t : ℕ) → s'.phases t ≡ idle)
    × (s'.leaks ≡ [])
Runs-return_example = Runs-return direct handle start [] (at phases6) waiting clean

one_step : Continues direct handle (at phases6) (entry ∷ []) behind
one_step = steps (works 0 registering env read_state refl) refl stops

two_threads : (t : ℕ) → 2 ≤ t → (at phases6).phases t ≡ idle
two_threads t h =
    let off_first : (t == 0) ≡ false = ground arith in
    let off_second : (t == 1) ≡ false = ground arith in rw (off_first, off_second) refl

Continues-returns_example :
    (count_steps one_step ≤ 12)
    × (((t : ℕ) → behind.phases t ≡ idle)
        ⊎ ((new : List Entry) × (s'' : System State) × (st : Step direct handle behind new s'')
            × (is_outer st ≡ false)))
Continues-returns_example =
    Continues-returns direct handle 2 (at phases6) behind (entry ∷ []) one_step two_threads clean

-- The release of this call fails.
abbrev sticky : Env
sticky = record env { unlock_error = some (codes "input/output error") }

abbrev stuck1 : ℕ → Phase
stuck1 = moved 0 (queued registering sticky) phases0

abbrev stuck2 : ℕ → Phase
stuck2 = moved 0 (entered registering sticky) stuck1

abbrev stuck3 : ℕ → Phase
stuck3 = moved 0 (holding registering sticky) stuck2

abbrev stuck4 : ℕ → Phase
stuck4 = moved 0 (loaded registering sticky read_state) stuck3

abbrev sticky_answer : Result Reply
sticky_answer = (work direct registering sticky read_state start).0

abbrev stuck5 : ℕ → Phase
stuck5 = moved 0 (finished registering sticky sticky_answer) stuck4

abbrev left_lock : Leak
left_lock = record { handle = 0; job = registering }

abbrev stuck : System State
stuck = record {
  disk = (work direct registering sticky read_state start).1;
  phases = moved 0 (released sticky_answer) stuck5;
  leaks = left_lock ∷ [];
}

abbrev sticky_entry : Entry
sticky_entry = record { job = registering; env = sticky; answer = sticky_answer }
