-- ===== src/Store/Progress.antt =====
-- Lemmas on the next step of a call under the two locks of internal/store/lock.go.
use native.Mathlib.Decide.{dec_lt}
use mcp_chain.Base.{
  ℕ, zero, suc, ◌≤◌, ◌<◌, ◌≡◌, refl, arith, Bool, true, false, List, [], ◌++◌, ◌==◌, Bool-cases,
  Option-cases, inl, inr, ◌⊎◌, subst, none,
}
use mcp_chain.Store.Concurrent.{
  Phase, idle, queued, entered, holding, loaded, finished, released, System, moved, work, Entry,
  Step, call, lock_mutex, lock_fails, lock_file, load, works, unlock_file, unlock_mutex, acquiring,
  unlock_fails, closes,
}
use mcp_chain.Store.Errors.{err, failed}
use mcp_chain.Store.Disk.{Codec, load_state, Disk}
use mcp_chain.Store.Phases.{
  is_queued, is_entered, moves_freely, is_idle, no_mutex, not_blocking, CanRelease,
}

-- How many steps of its own a thread is from the end of its call at most.
abbrev pub rank : Phase → ℕ
rank idle = 0
rank (queued job env) = 6
rank (entered job env) = 5
rank (holding job env) = 4
rank (loaded job env r) = 3
rank (finished job env r) = 2
rank (released r) = 1

-- A new call, or the end of a lock that was left: no step of a call that is under way.
abbrev pub is_outer :
    {Doc : Type 0} {json : Codec Doc} {handle : ℕ → ℕ} {s : System Doc} {new : List Entry}
    {s' : System Doc}
    → Step json handle s new s'
    → Bool
is_outer (call t job env h) = true
is_outer (lock_mutex t job env h free) = false
is_outer (lock_fails t job env text h e) = false
is_outer (lock_file t job env h e free none_left) = false
is_outer (load t job env h) = false
is_outer (works t job env r h) = false
is_outer (unlock_file t job env answer h fine) = false
is_outer (unlock_fails t job env text answer h failing) = false
is_outer (closes before after l e) = true
is_outer (unlock_mutex t answer h) = false

-- Steps of the calls that are under way, and the calls that take effect there, the last first.
pub data Continues {Doc : Type 0} (json : Codec Doc) (handle : ℕ → ℕ)
    : System Doc → List Entry → System Doc → Type 0 where
  stops : {s : System Doc} → Continues json handle s [] s
  steps :
      {s s' s'' : System Doc} {new log : List Entry}
      → (st : Step json handle s new s') → is_outer st ≡ false
      → Continues json handle s' log s''
      → Continues json handle s (log ++ new) s''

-- No failed release has left a lock, and none of the calls under way fails to release it.
pub record NoLeaks {Doc : Type 0} (s : System Doc) : Type 0 where
  pub none_left : s.leaks ≡ []
  pub releases : (t : ℕ) → CanRelease (s.phases t)

-- From `n` on no thread is inside.
abbrev pub Quiet : ℕ → (ℕ → Phase) → Type 0
Quiet n phases = (t : ℕ) → n ≤ t → phases t ≡ idle

search :
    (P : Phase → Bool) (phases : ℕ → Phase) (n : ℕ)
    → ((t : ℕ) × (t < n) × (P (phases t) ≡ true)) ⊎ ((t : ℕ) → t < n → P (phases t) ≡ false)
search P phases zero = inr (λ t h. absurd (omega arith))
search P phases (suc n) = elim (Bool-cases (P (phases n))) [
  | inl here ↦ inl (n, omega arith, here)
  | inr other ↦ elim (search P phases n) [
    | inl (t, below, found) ↦ inl (t, omega arith, found)
    | inr nowhere ↦ inr (λ t h. elim (Bool-cases (t == n)) [
      | inl same ↦ let e : t ≡ n = ground arith in rw e other
      | inr differs ↦ nowhere t (ground arith)
    ])
  ]
]

search_all :
    (P : Phase → Bool) (phases : ℕ → Phase) (n : ℕ)
    → P idle ≡ false
    → Quiet n phases
    → ((t : ℕ) × (P (phases t) ≡ true)) ⊎ ((t : ℕ) → P (phases t) ≡ false)
search_all P phases n off quiet = elim (search P phases n) [
  | inl (t, below, found) ↦ inl (t, found)
  | inr nowhere ↦ inr (λ t. elim (dec_lt t n) [
    | yes below ↦ nowhere t below
    | no above ↦ let e : phases t ≡ idle = quiet t (omega arith) in rw e off
  ])
]

NoLeaks-moved :
    {Doc : Type 0} {s : System Doc} {disk : Disk Doc} (t : ℕ) (p : Phase)
    → NoLeaks s
    → CanRelease p
    → NoLeaks (record { disk = disk; phases = moved t p s.phases; leaks = s.leaks })
NoLeaks-moved {s = s} t p clean c = record {
  none_left = clean.none_left;
  releases = λ u. elim (Bool-cases (u == t)) [
    | inl same ↦ rw same c
    | inr other ↦ rw other (clean.releases u)
  ];
}

module _ {Doc : Type 0} (json : Codec Doc) (handle : ℕ → ℕ) where
  -- A step of a call under way that brings a thread nearer to the end of its call.
  pub record Advance (s : System Doc) : Type 0 where
    pub thread : ℕ
    pub phase : Phase
    pub new : List Entry
    pub next : System Doc
    pub taken : Step json handle s new next
    pub inner : is_outer taken ≡ false
    pub moves : next.phases ≡ moved thread phase s.phases
    pub nearer : rank phase < rank (s.phases thread)

  advance :
      {s next : System Doc} {new : List Entry} (t : ℕ) (old p : Phase)
      → s.phases t ≡ old
      → rank p < rank old
      → (st : Step json handle s new next) → is_outer st ≡ false
      → next.phases ≡ moved t p s.phases
      → Advance s
  advance {s} {next} {new} t old p e less st inner moves = record {
    thread = t;
    phase = p;
    new = new;
    next = next;
    taken = st;
    inner = inner;
    moves = moves;
    nearer = rw e less;
  }

  Advance-free :
      (s : System Doc) (t : ℕ) (p : Phase)
      → s.phases t ≡ p
      → moves_freely p ≡ true
      → NoLeaks s
      → Advance s
  Advance-free s t idle e h clean = absurd (cc)
  Advance-free s t (queued job env) e h clean = absurd (cc)
  Advance-free s t (entered job env) e h clean = absurd (cc)
  Advance-free s t (holding job env) e h clean =
      advance t (holding job env) (loaded job env (load_state json env s.disk)) e (omega arith)
        (load t job env e) refl refl
  Advance-free s t (loaded job env r) e h clean =
      advance t (loaded job env r) (finished job env (work json job env r s.disk).0) e (omega arith)
        (works t job env r e) refl refl
  Advance-free s t (finished job env r) e h clean =
      let fine : env.unlock_error ≡ none = subst CanRelease e (clean.releases t) in
      advance t (finished job env r) (released r) e (omega arith) (unlock_file t job env r e fine)
        refl refl
  Advance-free s t (released r) e h clean =
      advance t (released r) idle e (omega arith) (unlock_mutex t r e) refl refl

  Advance-entered :
      (s : System Doc) (t : ℕ) (p : Phase)
      → s.phases t ≡ p
      → is_entered p ≡ true
      → ((u : ℕ) → moves_freely (s.phases u) ≡ false)
      → NoLeaks s
      → Advance s
  Advance-entered s t idle e h free clean = absurd (cc)
  Advance-entered s t (queued job env) e h free clean = absurd (cc)
  Advance-entered s t (entered job env) e h free clean = elim (Option-cases env.lock_error) [
    | inl works_out ↦
        advance t (entered job env) (holding job env) e (omega arith)
          (lock_file t job env e works_out (λ u other. not_blocking job (s.phases u) (free u))
            (rw clean.none_left tt))
          refl refl
    | inr (text, failing) ↦
        advance t (entered job env) (released (err (failed (acquiring job) text))) e (omega arith)
          (lock_fails t job env text e failing) refl refl
  ]
  Advance-entered s t (holding job env) e h free clean = absurd (cc)
  Advance-entered s t (loaded job env r) e h free clean = absurd (cc)
  Advance-entered s t (finished job env r) e h free clean = absurd (cc)
  Advance-entered s t (released r) e h free clean = absurd (cc)

  Advance-queued :
      (s : System Doc) (t : ℕ) (p : Phase)
      → s.phases t ≡ p
      → is_queued p ≡ true
      → ((u : ℕ) → moves_freely (s.phases u) ≡ false)
      → ((u : ℕ) → is_entered (s.phases u) ≡ false)
      → Advance s
  Advance-queued s t idle e h free outside = absurd (cc)
  Advance-queued s t (queued job env) e h free outside =
      advance t (queued job env) (entered job env) e (omega arith)
        (lock_mutex t job env e (λ u same. no_mutex (s.phases u) (free u) (outside u))) refl refl
  Advance-queued s t (entered job env) e h free outside = absurd (cc)
  Advance-queued s t (holding job env) e h free outside = absurd (cc)
  Advance-queued s t (loaded job env r) e h free outside = absurd (cc)
  Advance-queued s t (finished job env r) e h free outside = absurd (cc)
  Advance-queued s t (released r) e h free outside = absurd (cc)

  pub NoLeaks-Step :
      {s s' : System Doc} {new : List Entry} (st : Step json handle s new s')
      → is_outer st ≡ false
      → NoLeaks s
      → NoLeaks s'
  NoLeaks-Step (call t job env h) i clean = absurd (cc)
  NoLeaks-Step (lock_mutex {s} t job env h free) i clean =
      NoLeaks-moved t (entered job env) clean (subst CanRelease h (clean.releases t))
  NoLeaks-Step (lock_fails {s} t job env text h e) i clean = NoLeaks-moved t _ clean tt
  NoLeaks-Step (lock_file {s} t job env h e free none_left) i clean =
      NoLeaks-moved t (holding job env) clean (subst CanRelease h (clean.releases t))
  NoLeaks-Step (load {s} t job env h) i clean =
      NoLeaks-moved t (loaded job env (load_state json env s.disk)) clean
        (subst CanRelease h (clean.releases t))
  NoLeaks-Step (works {s} t job env r h) i clean =
      NoLeaks-moved t (finished job env (work json job env r s.disk).0) clean
        (subst CanRelease h (clean.releases t))
  NoLeaks-Step (unlock_file t job env answer h fine) i clean =
      NoLeaks-moved t (released answer) clean tt
  NoLeaks-Step (unlock_fails {s} t job env text answer h failing) i clean =
      let fine : env.unlock_error ≡ none = subst CanRelease h (clean.releases t) in
      absurd (cc (fine, failing))
  NoLeaks-Step (unlock_mutex t answer h) i clean = NoLeaks-moved t idle clean tt
  NoLeaks-Step (closes before after l e) i clean = absurd (cc)

  -- While a call is under way and no failed release keeps the lock, some thread can take a step of its
  -- call.
  pub progress :
      (s : System Doc) (n : ℕ)
      → Quiet n s.phases
      → NoLeaks s
      → Advance s ⊎ ((t : ℕ) → s.phases t ≡ idle)
  progress s n quiet clean = elim (search_all moves_freely s.phases n refl quiet) [
    | inl (t, found) ↦ inl (Advance-free s t (s.phases t) refl found clean)
    | inr free ↦ elim (search_all is_entered s.phases n refl quiet) [
      | inl (t, found) ↦ inl (Advance-entered s t (s.phases t) refl found free clean)
      | inr outside ↦ elim (search_all is_queued s.phases n refl quiet) [
        | inl (t, found) ↦ inl (Advance-queued s t (s.phases t) refl found free outside)
        | inr nobody ↦ inr (λ t. is_idle (s.phases t) (free t) (outside t) (nobody t))
      ]
    ]
  ]
