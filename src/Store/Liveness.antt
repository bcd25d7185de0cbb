-- ===== src/Store/Liveness.antt =====
-- The return of a call under the two locks of internal/store/lock.go.
use native.Mathlib.Decide.{dec_lt}
use mcp_chain.Base.{
  ℕ, zero, suc, ◌+◌, ◌≤◌, ◌<◌, ◌≡◌, refl, ap, arith, false, List, [], ◌++◌, ◌==◌, Bool-cases, inl,
  inr, subst,
}
use mcp_chain.Store.Progress.{Quiet, Continues, rank, progress, stops, steps, NoLeaks-Step, NoLeaks}
use mcp_chain.Store.Concurrent.{
  begins, System, Entry, Step, Runs, Phase, moved, idle, goes, call, lock_mutex, lock_fails,
  lock_file, load, works, unlock_file, unlock_mutex, unlock_fails, closes,
}
use mcp_chain.Store.Disk.{Disk, Codec}

-- The steps that the first `n` threads have in front of them.
unfoldable pub total : ℕ → (ℕ → Phase) → ℕ
total zero phases = 0
total (suc n) phases = rank (phases n) + total n phases

total_same :
    (n t : ℕ) (p : Phase) (phases : ℕ → Phase) → n ≤ t → total n (moved t p phases) ≡ total n phases
unfolding total
total_same zero t p phases h = refl
total_same (suc n) t p phases h =
    let off : (n == t) ≡ false = ground arith in
    rw off (ap (λ x. rank (phases n) + x) (total_same n t p phases (omega arith)))

pub total-moved :
    (n t : ℕ) (p : Phase) (phases : ℕ → Phase)
    → t < n
    → rank p < rank (phases t)
    → total n (moved t p phases) < total n phases
unfolding total
total-moved zero t p phases h less = absurd (omega arith)
total-moved (suc n) t p phases h less = elim (Bool-cases (n == t)) [
  | inl same ↦
      let e : n ≡ t = ground arith in
      rw (same, total_same n t p phases (omega arith), e) (omega arith)
  | inr other ↦
      let below : t < n = ground arith in
      rw other (omega (arith, total-moved n t p phases below less))
]

Quiet-moved :
    (n t : ℕ) (p : Phase) (phases : ℕ → Phase)
    → Quiet n phases
    → Quiet (n + suc t) (moved t p phases)
Quiet-moved n t p phases quiet u h =
    let off : (u == t) ≡ false = ground arith in rw off (quiet u (omega arith))

-- A thread below `n` moves.
pub Quiet-moves :
    (n t : ℕ) (p : Phase) (phases : ℕ → Phase) {phases' : ℕ → Phase}
    → Quiet n phases
    → t < n
    → phases' ≡ moved t p phases
    → Quiet n phases'
Quiet-moves n t p phases quiet below moves u h =
    let off : (u == t) ≡ false = ground arith in rw (moves, off) (quiet u h)

module _ {Doc : Type 0} (json : Codec Doc) (handle : ℕ → ℕ) where
  Quiet-Step :
      {s s' : System Doc} {new : List Entry} (n : ℕ)
      → Step json handle s new s'
      → Quiet n s.phases
      → (m : ℕ) × Quiet m s'.phases
  Quiet-Step {s} n (call t job env h) quiet = (n + suc t, Quiet-moved n t _ s.phases quiet)
  Quiet-Step {s} n (lock_mutex t job env h free) quiet =
      (n + suc t, Quiet-moved n t _ s.phases quiet)
  Quiet-Step {s} n (lock_fails t job env text h e) quiet =
      (n + suc t, Quiet-moved n t _ s.phases quiet)
  Quiet-Step {s} n (lock_file t job env h e free none_left) quiet =
      (n + suc t, Quiet-moved n t _ s.phases quiet)
  Quiet-Step {s} n (load t job env h) quiet = (n + suc t, Quiet-moved n t _ s.phases quiet)
  Quiet-Step {s} n (works t job env r h) quiet = (n + suc t, Quiet-moved n t _ s.phases quiet)
  Quiet-Step {s} n (unlock_file t job env answer h fine) quiet =
      (n + suc t, Quiet-moved n t _ s.phases quiet)
  Quiet-Step {s} n (unlock_fails t job env text answer h failing) quiet =
      (n + suc t, Quiet-moved n t _ s.phases quiet)
  Quiet-Step {s} n (closes before after l e) quiet = (n, quiet)
  Quiet-Step {s} n (unlock_mutex t answer h) quiet = (n + suc t, Quiet-moved n t _ s.phases quiet)

  Runs-Quiet :
      {start : Disk Doc} {log : List Entry} {s : System Doc}
      → Runs json handle start log s
      → (n : ℕ) × Quiet n s.phases
  Runs-Quiet begins = (0, λ t h. refl)
  Runs-Quiet (goes run st) = let (n, quiet) = Runs-Quiet run in Quiet-Step n st quiet

  pub busy_below :
      (s : System Doc) (n t : ℕ) (p : Phase) → Quiet n s.phases → rank p < rank (s.phases t) → t < n
  busy_below s n t p quiet less = elim (dec_lt t n) [
    | yes below ↦ below
    | no above ↦
        let e : s.phases t ≡ idle = quiet t (omega arith) in
        let none_left : rank p < rank idle = subst (λ x. rank p < rank x) e less in
        absurd (omega (arith, none_left))
  ]

  drain :
      (k n : ℕ) (s : System Doc)
      → Quiet n s.phases
      → NoLeaks s
      → total n s.phases ≤ k
      → (log : List Entry) × (s' : System Doc) × Continues json handle s log s'
        × ((t : ℕ) → s'.phases t ≡ idle)
        × (s'.leaks ≡ [])
  drain zero n s quiet clean fits = elim (progress json handle s n quiet clean) [
    | inr rest ↦ ([], s, stops, rest, clean.none_left)
    | inl a ↦
        let below = busy_below s n a.thread a.phase quiet a.nearer in
        absurd (omega (arith, total-moved n a.thread a.phase s.phases below a.nearer, fits))
  ]
  drain (suc k) n s quiet clean fits = elim (progress json handle s n quiet clean) [
    | inr rest ↦ ([], s, stops, rest, clean.none_left)
    | inl a ↦
        let below = busy_below s n a.thread a.phase quiet a.nearer in
        let smaller : total n a.next.phases ≤ k =
          rw a.moves
            (omega (arith, total-moved n a.thread a.phase s.phases below a.nearer, fits)) in
        let (log, s', more, rest, unleaked) =
          drain k n a.next (Quiet-moves n a.thread a.phase s.phases quiet below a.moves)
            (NoLeaks-Step json handle a.taken a.inner clean) smaller in
        (log ++ a.new, s', steps a.taken a.inner more, rest, unleaked)
  ]

  -- From every state that the threads can reach, whatever calls are under way and whichever locks they
  -- hold, if no failed release has left the file lock held and the releases of the calls under way give
  -- no error: steps of these calls alone, without a new call, lead to a state in which every call has
  -- returned and no lock is left.
  pub Runs-return :
      (start : Disk Doc) (log : List Entry) (s : System Doc)
      → Runs json handle start log s
      → NoLeaks s
      → (new : List Entry) × (s' : System Doc) × Continues json handle s new s'
        × ((t : ℕ) → s'.phases t ≡ idle)
        × (s'.leaks ≡ [])
  Runs-return start log s run clean =
      let (n, quiet) = Runs-Quiet run in drain (total n s.phases) n s quiet clean (omega arith)
