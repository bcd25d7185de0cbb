-- ===== src/Store/Bounded.antt =====
-- The number of steps of the calls under the two locks of internal/store/lock.go.
use mcp_chain.Base.{
  ℕ, zero, suc, ◌*◌, ◌≤◌, ◌<◌, ◌≡◌, refl, arith, false, List, ap, sym, ◌⊎◌, inl, inr,
}
use mcp_chain.Store.Progress.{
  stops, steps, Quiet, Continues, rank, is_outer, steps, NoLeaks-Step, NoLeaks, progress,
}
use mcp_chain.Store.Concurrent.{
  Entry, System, Step, Phase, idle, moved, queued, entered, call, holding, lock_mutex, loaded,
  lock_fails, lock_file, finished, released, load, works, unlock_file, unlock_mutex, unlock_fails,
  closes,
}
use mcp_chain.Store.Liveness.{Quiet-moves, total, busy_below, total-moved}
use mcp_chain.Store.Disk.{Codec}

-- The number of steps.
abbrev pub count_steps :
    {Doc : Type 0} {json : Codec Doc} {handle : ℕ → ℕ} {s : System Doc} {log : List Entry}
    {s' : System Doc}
    → Continues json handle s log s'
    → ℕ
count_steps stops = 0
count_steps (steps st inner more) = suc (count_steps more)

rank_bound : (p : Phase) → rank p ≤ 6
rank_bound idle = omega arith
rank_bound (queued job env) = omega arith
rank_bound (entered job env) = omega arith
rank_bound (holding job env) = omega arith
rank_bound (loaded job env r) = omega arith
rank_bound (finished job env r) = omega arith
rank_bound (released r) = omega arith

total_bound : (n : ℕ) (phases : ℕ → Phase) → total n phases ≤ 6 * n
unfolding total
total_bound zero phases = omega arith
total_bound (suc n) phases = omega (arith, rank_bound (phases n), total_bound n phases)

module _ {Doc : Type 0} (json : Codec Doc) (handle : ℕ → ℕ) where
  -- A step of a call under way is an advance.
  Step-Advance :
      {s s' : System Doc} {new : List Entry} (st : Step json handle s new s')
      → is_outer st ≡ false
      → (t : ℕ) × (p : Phase) × (s'.phases ≡ moved t p s.phases) × (rank p < rank (s.phases t))
  Step-Advance (call t job env h) c = absurd (cc)
  Step-Advance (lock_mutex t job env h free) c = (t, _, refl, rw h (omega arith))
  Step-Advance (lock_fails t job env text h e) c = (t, _, refl, rw h (omega arith))
  Step-Advance (lock_file t job env h e free none_left) c = (t, _, refl, rw h (omega arith))
  Step-Advance (load t job env h) c = (t, _, refl, rw h (omega arith))
  Step-Advance (works t job env r h) c = (t, _, refl, rw h (omega arith))
  Step-Advance (unlock_file t job env answer h fine) c = (t, _, refl, rw h (omega arith))
  Step-Advance (unlock_fails t job env text answer h failing) c = (t, _, refl, rw h (omega arith))
  Step-Advance (closes before after l e) c = absurd (cc)
  Step-Advance (unlock_mutex t answer h) c = (t, _, refl, rw h (omega arith))

  spent :
      {s s' : System Doc} {log : List Entry} (n : ℕ) (c : Continues json handle s log s')
      → Quiet n s.phases
      → count_steps c ≤ total n s.phases
  spent n stops quiet = omega arith
  spent {s} n (steps st inner more) quiet =
      let (t, p, moves, nearer) = Step-Advance st inner in
      let below = busy_below json handle s n t p quiet nearer in
      let rest = spent n more (Quiet-moves n t p s.phases quiet below moves) in
      let first = total-moved n t p s.phases below nearer in
      let less : total n (moved t p s.phases) ≡ total n _ = ap (total n) (sym moves) in
      omega (arith, rest, first, less)

  Continues-Quiet :
      {s s' : System Doc} {log : List Entry} (n : ℕ)
      → Continues json handle s log s'
      → Quiet n s.phases
      → NoLeaks s
      → Quiet n s'.phases × NoLeaks s'
  Continues-Quiet n stops quiet clean = (quiet, clean)
  Continues-Quiet {s} n (steps st inner more) quiet clean =
      let (t, p, moves, nearer) = Step-Advance st inner in
      let below = busy_below json handle s n t p quiet nearer in
      Continues-Quiet n more (Quiet-moves n t p s.phases quiet below moves)
        (NoLeaks-Step json handle st inner clean)

  -- However the calls under way are scheduled, they all return: if all threads from `n` on stand outside,
  -- no failed release has left the file lock held, and the releases of the calls under way give no error,
  -- then any sequence of steps of these calls has at most six steps for each of the first `n` threads,
  -- and it can be continued by such a step unless it has brought every call to its return.
  pub Continues-returns :
      (n : ℕ) (s s' : System Doc) (log : List Entry) (c : Continues json handle s log s')
      → ((t : ℕ) → n ≤ t → s.phases t ≡ idle)
      → NoLeaks s
      → (count_steps c ≤ 6 * n)
        × (((t : ℕ) → s'.phases t ≡ idle)
            ⊎ ((new : List Entry) × (s'' : System Doc) × (st : Step json handle s' new s'')
                × (is_outer st ≡ false)))
  Continues-returns n s s' log c quiet clean =
      let (quiet', clean') = Continues-Quiet n c quiet clean in
      (
        omega (arith, spent n c quiet, total_bound n s.phases),
        elim (progress json handle s' n quiet' clean') [
          | inl a ↦ inr (a.new, a.next, a.taken, a.inner)
          | inr rest ↦ inl rest
        ],
      )
