-- ===== src/Store/Concurrent.antt =====
-- The two locks of internal/store/lock.go: threads of several processes run `withLockedState` and
-- `withSharedLock` step by step on one state file, in any interleaving.
use mcp_chain.Base.{
  ◌++◌, ℕ, ◌≡◌, ◌≢◌, Bool, true, false, none, some, List, [], ◌∷◌, Bytes, if◌then◌else◌, ◌==◌, All,
}
use mcp_chain.Store.Disk.{
  Codec, Disk, Env, load_state, release, save_outcome, with_locked_state, with_shared_lock,
}
use mcp_chain.Store.Errors.{
  Result, err, ◌>>=◌, Call, failed, acquire_exclusive, acquire_shared, release_exclusive,
  release_shared,
}
use mcp_chain.Store.Machine.{Reply}
use mcp_chain.Store.Schema.{State}

-- A call: the function it is of, with the closure.
pub data Job : Type 0 where
  exclusive : (State → Result (State × Reply)) → Job
  shared : (State → Result Reply) → Job

-- Where a thread stands: outside, before `s.mu.Lock()`, with the mutex, with the file lock, with the
-- state loaded, with the closure and the saving done, and with the file lock released.
pub data Phase : Type 0 where
  idle : Phase
  queued entered holding : Job → Env → Phase
  loaded : Job → Env → Result State → Phase
  finished : Job → Env → Result Reply → Phase
  released : Result Reply → Phase

abbrev pub is_exclusive : Job → Bool
is_exclusive (exclusive fn) = true
is_exclusive (shared fn) = false

abbrev pub has_mutex : Phase → Bool
has_mutex idle = false
has_mutex (queued job env) = false
has_mutex (entered job env) = true
has_mutex (holding job env) = true
has_mutex (loaded job env r) = true
has_mutex (finished job env r) = true
has_mutex (released r) = true

abbrev pub has_lock : Phase → Bool
has_lock idle = false
has_lock (queued job env) = false
has_lock (entered job env) = false
has_lock (holding job env) = true
has_lock (loaded job env r) = true
has_lock (finished job env r) = true
has_lock (released r) = false

abbrev pub has_exclusive : Phase → Bool
has_exclusive idle = false
has_exclusive (queued job env) = false
has_exclusive (entered job env) = false
has_exclusive (holding job env) = is_exclusive job
has_exclusive (loaded job env r) = is_exclusive job
has_exclusive (finished job env r) = is_exclusive job
has_exclusive (released r) = false

-- Whether a thread in this phase keeps the lock from the job.
abbrev pub blocks : Job → Phase → Bool
blocks (exclusive fn) p = has_lock p
blocks (shared fn) p = has_exclusive p

abbrev pub acquiring : Job → Call
acquiring (exclusive fn) = acquire_exclusive
acquiring (shared fn) = acquire_shared

-- A file lock that a failing `fl.Unlock()` has left held, as it returns before it closes the file: the
-- `Store` through which it was taken, and the call.
pub record Leak : Type 0 where
  pub handle : ℕ
  pub job : Job

-- Whether a lock that was left by the second call keeps the lock from the first.
abbrev pub conflicts : Job → Job → Bool
conflicts (exclusive fn) left = true
conflicts (shared fn) left = is_exclusive left

pub record System (Doc : Type 0) : Type 0 where
  pub disk : Disk Doc
  pub phases : ℕ → Phase
  pub leaks : List Leak

-- One thread moves to a phase.
abbrev pub moved : ℕ → Phase → (ℕ → Phase) → ℕ → Phase
moved t p phases u = if u == t then p else phases u

module _ {Doc : Type 0} (json : Codec Doc) where
  -- The closure and the saving, on the state that was loaded, and the deferred release.
  abbrev pub work : Job → Env → Result State → Disk Doc → Result Reply × Disk Doc
  work (exclusive fn) env r disk =
      let (a, disk') = save_outcome json env disk (r >>= fn) in
      (release release_exclusive env.unlock_error a, disk')
  work (shared fn) env r disk = (release release_shared env.unlock_error (r >>= fn), disk)

  -- The whole call at once.
  unfoldable pub perform : Job → Env → Disk Doc → Result Reply × Disk Doc
  perform (exclusive fn) env disk = with_locked_state json fn env disk
  perform (shared fn) env disk = (with_shared_lock json fn env disk, disk)

-- A call that has taken effect, with its answer.
pub record Entry : Type 0 where
  pub job : Job
  pub env : Env
  pub answer : Result Reply

-- The steps of a thread. `handle t` is the `Store` that the thread `t` calls: its mutex keeps out the
-- threads of the same handle. The file lock is relied on only between handles, since the threads of one
-- process may share it. A lock that a failed release has left goes when its file is closed after all, by
-- the garbage collector or at the end of the process (`closes`).
pub data Step {Doc : Type 0} (json : Codec Doc) (handle : ℕ → ℕ)
    : System Doc → List Entry → System Doc → Type 0 where
  call :
      {s : System Doc} (t : ℕ) (job : Job) (env : Env)
      → s.phases t ≡ idle
      → Step json handle s [] (record s { phases = moved t (queued job env) s.phases })
  lock_mutex :
      {s : System Doc} (t : ℕ) (job : Job) (env : Env)
      → s.phases t ≡ queued job env
      → ((u : ℕ) → handle u ≡ handle t → has_mutex (s.phases u) ≡ false)
      → Step json handle s [] (record s { phases = moved t (entered job env) s.phases })
  lock_fails :
      {s : System Doc} (t : ℕ) (job : Job) (env : Env) (text : Bytes)
      → s.phases t ≡ entered job env
      → env.lock_error ≡ some text
      → Step json handle s
          (record { job = job; env = env; answer = err (failed (acquiring job) text) } ∷ [])
          (record s { phases = moved t (released (err (failed (acquiring job) text))) s.phases })
  lock_file :
      {s : System Doc} (t : ℕ) (job : Job) (env : Env)
      → s.phases t ≡ entered job env
      → env.lock_error ≡ none
      → ((u : ℕ) → handle u ≢ handle t → blocks job (s.phases u) ≡ false)
      → All (λ (l : Leak). l.handle ≢ handle t → conflicts job l.job ≡ false) s.leaks
      → Step json handle s [] (record s { phases = moved t (holding job env) s.phases })
  load :
      {s : System Doc} (t : ℕ) (job : Job) (env : Env)
      → s.phases t ≡ holding job env
      → Step json handle s []
          (record s { phases = moved t (loaded job env (load_state json env s.disk)) s.phases })
  works :
      {s : System Doc} (t : ℕ) (job : Job) (env : Env) (r : Result State)
      → s.phases t ≡ loaded job env r
      → Step json handle s
          (record { job = job; env = env; answer = (work json job env r s.disk).0 } ∷ [])
          (record {
            disk = (work json job env r s.disk).1;
            leaks = s.leaks;
            phases = moved t (finished job env (work json job env r s.disk).0) s.phases;
          })
  unlock_file :
      {s : System Doc} (t : ℕ) (job : Job) (env : Env) (answer : Result Reply)
      → s.phases t ≡ finished job env answer
      → env.unlock_error ≡ none
      → Step json handle s [] (record s { phases = moved t (released answer) s.phases })
  unlock_fails :
      {s : System Doc} (t : ℕ) (job : Job) (env : Env) (text : Bytes) (answer : Result Reply)
      → s.phases t ≡ finished job env answer
      → env.unlock_error ≡ some text
      → Step json handle s [] (record s {
        phases = moved t (released answer) s.phases;
        leaks = record { handle = handle t; job = job } ∷ s.leaks;
      })
  closes :
      {s : System Doc} (before after : List Leak) (l : Leak)
      → s.leaks ≡ before ++ (l ∷ after)
      → Step json handle s [] (record s { leaks = before ++ after })
  unlock_mutex :
      {s : System Doc} (t : ℕ) (answer : Result Reply)
      → s.phases t ≡ released answer
      → Step json handle s [] (record s { phases = moved t idle s.phases })

-- The runs from a file with no thread inside, with the calls that have taken effect, the last first.
pub data Runs {Doc : Type 0} (json : Codec Doc) (handle : ℕ → ℕ) (start : Disk Doc)
    : List Entry → System Doc → Type 0 where
  begins : Runs json handle start [] (record { disk = start; phases = λ t. idle; leaks = [] })
  goes :
      {log : List Entry} {new : List Entry} {s s' : System Doc}
      → Runs json handle start log s
      → Step json handle s new s'
      → Runs json handle start (new ++ log) s'
