-- ===== src/Store/Serial.antt =====
-- Interleavings of the calls of internal/store/lock.go, and the calls made one after the other.
use mcp_chain.Base.{ℕ, ◌≡◌, ◌≢◌, refl, Bytes, true, false, none, some, List, [], ◌∷◌, ◌++◌, subst}
use mcp_chain.Store.Concurrent.{
  Job, exclusive, shared, has_lock, has_exclusive, System, acquiring, work, perform, Entry, Step,
  call, lock_mutex, lock_fails, lock_file, load, works, unlock_file, unlock_mutex, Runs, begins,
  goes, unlock_fails, closes,
}
use mcp_chain.Store.Disk.{Codec, Disk, Env, load_state, with_locked_state, with_shared_lock}
use mcp_chain.Store.Errors.{Result, err, failed}
use mcp_chain.Store.Exclusion.{Fits, Sound, Step-Sound, idle-Sound, only_holder}
use mcp_chain.Store.Schema.{State}

-- The calls of the log, the last first, made one after the other on the file `start`, give the answers
-- of the log and leave the file `end`.
abbrev pub Serial : {Doc : Type 0} → Codec Doc → Disk Doc → List Entry → Disk Doc → Type 0
Serial json start [] end = start ≡ end
Serial {Doc} json start (e ∷ log) end =
    (before : Disk Doc) × Serial json start log before
    × (perform json e.job e.env before ≡ (e.answer, end))

module _ {Doc : Type 0} (json : Codec Doc) (env : Env) (disk : Disk Doc) where
  perform-work :
      (job : Job) (r : Result State)
      → env.lock_error ≡ none
      → r ≡ load_state json env disk
      → perform json job env disk ≡ work json job env r disk
  unfolding perform with_locked_state with_shared_lock
  perform-work (exclusive fn) r fine current = rw (fine, current) refl
  perform-work (shared fn) r fine current = rw (fine, current) refl

  perform-lock_fails :
      (job : Job) (text : Bytes)
      → env.lock_error ≡ some text
      → perform json job env disk ≡ (err (failed (acquiring job) text), disk)
  unfolding perform with_locked_state with_shared_lock
  perform-lock_fails (exclusive fn) text failing = rw failing refl
  perform-lock_fails (shared fn) text failing = rw failing refl

module _ {Doc : Type 0} (json : Codec Doc) (handle : ℕ → ℕ) where
  -- A step leaves the file, or it is the whole of one call on the file as it is.
  Step-Serial :
      {s s' : System Doc} {new : List Entry} (start : Disk Doc) (log : List Entry)
      → Step json handle s new s'
      → Sound json handle s.disk s.phases
      → Serial json start log s.disk
      → Serial json start (new ++ log) s'.disk
  Step-Serial start log (call t job env at) v h = h
  Step-Serial start log (lock_mutex t job env at free) v h = h
  Step-Serial start log (lock_fails {s} t job env text at failing) v h =
      (s.disk, h, perform-lock_fails json env s.disk job text failing)
  Step-Serial start log (lock_file t job env at fine free none_left) v h = h
  Step-Serial start log (load t job env at) v h = h
  Step-Serial start log (works {s} t job env r at) v h =
      let (fine, current) = subst (Fits json s.disk) at (v.fits t) in
      (s.disk, h, perform-work json env s.disk job r fine current)
  Step-Serial start log (unlock_file t job env answer at fine) v h = h
  Step-Serial start log (unlock_fails t job env text answer at failing) v h = h
  Step-Serial start log (closes before after l e) v h = h
  Step-Serial start log (unlock_mutex t answer at) v h = h

  pub Runs-Sound :
      {start : Disk Doc} {log : List Entry} {s : System Doc}
      → Runs json handle start log s
      → Sound json handle s.disk s.phases
  Runs-Sound {start} begins = idle-Sound json handle start
  Runs-Sound (goes before step) = Step-Sound json handle step (Runs-Sound before)

  -- Calls of any number of threads in any number of processes are serialisable: in every interleaving
  -- of their steps, the file is what the calls that have taken effect leave when they are made one
  -- after the other in the order of their effects, and their answers are the answers given then.
  pub Runs-Serial :
      {start : Disk Doc} {log : List Entry} {s : System Doc}
      → Runs json handle start log s
      → Serial json start log s.disk
  Runs-Serial begins = refl
  Runs-Serial {start} (goes {log} before step) =
      Step-Serial start log step (Runs-Sound before) (Runs-Serial before)

  -- Mutual exclusion: in every interleaving, a thread between the acquisition and the release of the
  -- exclusive lock is the only thread that holds the lock, shared or exclusive, though the file lock is
  -- relied on only between handles and the mutex only within one.
  pub exclusive_alone :
      {start : Disk Doc} {log : List Entry} {s : System Doc} (t u : ℕ)
      → Runs json handle start log s
      → has_exclusive (s.phases t) ≡ true
      → t ≢ u
      → has_lock (s.phases u) ≡ false
  exclusive_alone {s} t u run holds ne =
      only_holder json handle s.disk s.phases (Runs-Sound run) t u ne holds
