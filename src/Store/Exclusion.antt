-- ===== src/Store/Exclusion.antt =====
-- The invariant of the two locks of internal/store/lock.go.
use mcp_chain.Base.{
  ℕ, ◌≡◌, ◌≢◌, refl, sym, ap, ◌∙◌, arith, Bool, true, false, none, List, ◌==◌, Bool-cases, inl, inr,
  subst,
}
use mcp_chain.Store.Concurrent.{
  Job, exclusive, shared, Phase, idle, queued, entered, holding, loaded, finished, released,
  is_exclusive, has_mutex, has_lock, has_exclusive, blocks, System, moved, work, Entry, Step, call,
  lock_mutex, lock_fails, lock_file, load, works, unlock_file, unlock_mutex, unlock_fails, closes,
}
use mcp_chain.Store.Errors.{Result}
use mcp_chain.Store.Schema.{State}
use mcp_chain.Store.Disk.{Codec, Disk, Env, load_state}

-- A thread with the lock got it without an error, and its loaded state is the one in the file.
abbrev pub Fits : {Doc : Type 0} → Codec Doc → Disk Doc → Phase → Type 0
Fits json disk idle = Unit
Fits json disk (queued job env) = Unit
Fits json disk (entered job env) = Unit
Fits json disk (holding job env) = env.lock_error ≡ none
Fits json disk (loaded job env r) = (env.lock_error ≡ none) × (r ≡ load_state json env disk)
Fits json disk (finished job env r) = Unit
Fits json disk (released r) = Unit

pub refuted : (b : Bool) → ((b ≡ true) → ⊥) → b ≡ false
refuted false h = refl
refuted true h = absurd (h refl)

pub record Sound {Doc : Type 0} (json : Codec Doc) (handle : ℕ → ℕ) (disk : Disk Doc)
    (phases : ℕ → Phase) : Type 0 where
  pub mutex :
      (t u : ℕ)
      → t ≢ u
      → handle t ≡ handle u
      → has_mutex (phases t) ≡ true
      → has_mutex (phases u) ≡ false
  pub lock :
      (t u : ℕ)
      → handle t ≢ handle u
      → has_exclusive (phases t) ≡ true
      → has_lock (phases u) ≡ false
  pub fits : (t : ℕ) → Fits json disk (phases t)

has_lock-has_mutex : (p : Phase) → has_mutex p ≡ false → has_lock p ≡ false
has_lock-has_mutex idle h = refl
has_lock-has_mutex (queued job env) h = refl
has_lock-has_mutex (entered job env) h = refl
has_lock-has_mutex (holding job env) h = absurd (cc)
has_lock-has_mutex (loaded job env r) h = absurd (cc)
has_lock-has_mutex (finished job env r) h = absurd (cc)
has_lock-has_mutex (released r) h = refl

pub has_exclusive-has_lock : (p : Phase) → has_lock p ≡ false → has_exclusive p ≡ false
has_exclusive-has_lock idle h = refl
has_exclusive-has_lock (queued job env) h = refl
has_exclusive-has_lock (entered job env) h = refl
has_exclusive-has_lock (holding job env) h = absurd (cc)
has_exclusive-has_lock (loaded job env r) h = absurd (cc)
has_exclusive-has_lock (finished job env r) h = absurd (cc)
has_exclusive-has_lock (released r) h = refl

Fits-has_lock :
    {Doc : Type 0} (json : Codec Doc) (disk : Disk Doc) (p : Phase)
    → has_lock p ≡ false
    → Fits json disk p
Fits-has_lock json disk idle h = tt
Fits-has_lock json disk (queued job env) h = tt
Fits-has_lock json disk (entered job env) h = tt
Fits-has_lock json disk (holding job env) h = absurd (cc)
Fits-has_lock json disk (loaded job env r) h = absurd (cc)
Fits-has_lock json disk (finished job env r) h = tt
Fits-has_lock json disk (released r) h = tt

-- Where `P` of one thread excludes `Q` of another, related one, a move of `t` keeps it so if the new
-- phase fits to the others on both sides.
moved_apart :
    (P Q : Phase → Bool) (R : ℕ → ℕ → Type 0) (phases : ℕ → Phase) (t : ℕ) (p : Phase)
    → ((a : ℕ) → R a a → ⊥)
    → ((a b : ℕ) → R a b → P (phases a) ≡ true → Q (phases b) ≡ false)
    → (P p ≡ true → (u : ℕ) → R t u → Q (phases u) ≡ false)
    → (Q p ≡ true → (u : ℕ) → R u t → P (phases u) ≡ false)
    → (a b : ℕ) → R a b
    → P (moved t p phases a) ≡ true
    → Q (moved t p phases b) ≡ false
moved_apart P Q R phases t p irreflexive apart first second a b r h = elim (Bool-cases (a == t)) [
  | inl at_a ↦
      let from_t : R t b = subst (λ x. R x b) (ground arith) r in
      let here : P p ≡ true = rw at_a at h in
      elim (Bool-cases (b == t)) [
        | inl at_b ↦ absurd (irreflexive t (subst (λ x. R t x) (ground arith) from_t))
        | inr off_b ↦ rw off_b (first here b from_t)
      ]
  | inr off_a ↦
      let here : P (phases a) ≡ true = rw off_a at h in
      elim (Bool-cases (b == t)) [
        | inl at_b ↦
            let to_t : R a t = subst (λ x. R a x) (ground arith) r in
            rw at_b (refuted (Q p) (λ m. cc (sym here, second m a to_t)))
        | inr off_b ↦ rw off_b (apart a b r here)
      ]
]

module _ {Doc : Type 0} (json : Codec Doc) (handle : ℕ → ℕ) (disk : Disk Doc) (phases : ℕ → Phase)
    (sound : Sound json handle disk phases) where
  -- A thread with the exclusive lock is the only one with the lock.
  pub only_holder :
      (t u : ℕ) → t ≢ u → has_exclusive (phases t) ≡ true → has_lock (phases u) ≡ false
  only_holder t u other e = elim (Bool-cases (handle t == handle u)) [
    | inl same ↦ has_lock-has_mutex (phases u) (
        sound.mutex t u other (ground arith)
          (ground (arith, has_lock-has_mutex (phases t), has_exclusive-has_lock (phases t))))
    | inr differs ↦ sound.lock t u (ground arith) e
  ]

  -- What a move to the phase `p` needs.
  moved-Sound :
      (disk' : Disk Doc) (t : ℕ) (p : Phase)
      → (has_mutex p ≡ true → (u : ℕ) → t ≢ u → handle t ≡ handle u → has_mutex (phases u) ≡ false)
      → (has_exclusive p ≡ true → (u : ℕ) → handle t ≢ handle u → has_lock (phases u) ≡ false)
      → (has_lock p ≡ true → (u : ℕ) → handle t ≢ handle u → has_exclusive (phases u) ≡ false)
      → Fits json disk' p
      → ((u : ℕ) → t ≢ u → Fits json disk' (phases u))
      → Sound json handle disk' (moved t p phases)
  moved-Sound disk' t p alone only none_only fit others = record {
    mutex = λ a b ne same.
        moved_apart has_mutex has_mutex (λ a b. (a ≢ b) × (handle a ≡ handle b)) phases t p
          (λ a r. r.0 refl) (λ a b r. sound.mutex a b r.0 r.1) (λ h u r. alone h u r.0 r.1)
          (λ h u r. alone h u (λ q. r.0 (sym q)) (sym r.1)) a b (ne, same);
    lock =
        moved_apart has_exclusive has_lock (λ a b. handle a ≢ handle b) phases t p (λ a r. r refl)
          sound.lock only (λ h u r. none_only h u (λ q. r (sym q)));
    fits = λ a. elim (Bool-cases (a == t)) [
      | inl here ↦ rw here fit
      | inr off ↦ rw off (others a (ground arith))
    ];
  }

  -- A move to a phase that holds no more than the old one.
  less-Sound :
      (disk' : Disk Doc) (t : ℕ) (p : Phase)
      → (has_mutex p ≡ true → has_mutex (phases t) ≡ true)
      → (has_exclusive p ≡ true → has_exclusive (phases t) ≡ true)
      → (has_lock p ≡ true → has_lock (phases t) ≡ true)
      → Fits json disk' p
      → ((u : ℕ) → t ≢ u → Fits json disk' (phases u))
      → Sound json handle disk' (moved t p phases)
  less-Sound disk' t p m e l fit others =
      moved-Sound disk' t p (λ h u ne same. sound.mutex t u ne same (m h))
        (λ h u ne. sound.lock t u ne (e h))
        (λ h u ne.
          refuted (has_exclusive (phases u))
            (λ x. cc (sym (l h), sound.lock u t (λ q. ne (sym q)) x)))
        fit others

module _ {Doc : Type 0} (json : Codec Doc) (handle : ℕ → ℕ) where
  -- While a call works, no other thread has a state that its saving could outdate.
  works-Fits :
      (s : System Doc) (t : ℕ) (job : Job) (env : Env) (r : Result State)
      → Sound json handle s.disk s.phases
      → s.phases t ≡ loaded job env r
      → (u : ℕ) → t ≢ u
      → Fits json (work json job env r s.disk).1 (s.phases u)
  works-Fits s t (shared fn) env r sound at u ne = sound.fits u
  works-Fits s t (exclusive fn) env r sound at u ne =
      Fits-has_lock json (work json (exclusive fn) env r s.disk).1 (s.phases u)
        (only_holder json handle s.disk s.phases sound t u ne (ap has_exclusive at))

  blocks-has_exclusive : (job : Job) (p : Phase) → blocks job p ≡ false → has_exclusive p ≡ false
  blocks-has_exclusive (exclusive fn) p h = has_exclusive-has_lock p h
  blocks-has_exclusive (shared fn) p h = h

  blocks-has_lock :
      (job : Job) (p : Phase) → is_exclusive job ≡ true → blocks job p ≡ false → has_lock p ≡ false
  blocks-has_lock (exclusive fn) p e h = h
  blocks-has_lock (shared fn) p e h = absurd (cc)

  -- Every step keeps the two locks' promises.
  pub Step-Sound :
      {s s' : System Doc} {new : List Entry}
      → Step json handle s new s'
      → Sound json handle s.disk s.phases
      → Sound json handle s'.disk s'.phases
  Step-Sound (call {s} t job env at) v =
      less-Sound json handle s.disk s.phases v s.disk t (queued job env) (λ h. absurd (cc))
        (λ h. absurd (cc)) (λ h. absurd (cc)) tt (λ u ne. v.fits u)
  Step-Sound (lock_mutex {s} t job env at free) v =
      moved-Sound json handle s.disk s.phases v s.disk t (entered job env)
        (λ h u ne same. free u (sym same)) (λ h. absurd (cc)) (λ h. absurd (cc)) tt
        (λ u ne. v.fits u)
  Step-Sound (lock_fails {s} t job env text at failing) v =
      less-Sound json handle s.disk s.phases v s.disk t _ (λ h. ap has_mutex at) (λ h. absurd (cc))
        (λ h. absurd (cc)) tt (λ u ne. v.fits u)
  Step-Sound (lock_file {s} t job env at fine free none_left) v =
      moved-Sound json handle s.disk s.phases v s.disk t (holding job env)
        (λ h u ne same. v.mutex t u ne same (ap has_mutex at))
        (λ h u ne. blocks-has_lock job (s.phases u) h (free u (λ q. ne (sym q))))
        (λ h u ne. blocks-has_exclusive job (s.phases u) (free u (λ q. ne (sym q)))) fine
        (λ u ne. v.fits u)
  Step-Sound (load {s} t job env at) v =
      less-Sound json handle s.disk s.phases v s.disk t
        (loaded job env (load_state json env s.disk)) (λ h. ap has_mutex at)
        (λ h. ap has_exclusive at ∙ h) (λ h. ap has_lock at)
        (subst (Fits json s.disk) at (v.fits t), refl) (λ u ne. v.fits u)
  Step-Sound (works {s} t job env r at) v =
      less-Sound json handle s.disk s.phases v (work json job env r s.disk).1 t _
        (λ h. ap has_mutex at) (λ h. ap has_exclusive at ∙ h) (λ h. ap has_lock at) tt
        (works-Fits s t job env r v at)
  Step-Sound (unlock_file {s} t job env answer at fine) v =
      less-Sound json handle s.disk s.phases v s.disk t (released answer) (λ h. ap has_mutex at)
        (λ h. absurd (cc)) (λ h. absurd (cc)) tt (λ u ne. v.fits u)
  Step-Sound (unlock_fails {s} t job env text answer at failing) v =
      less-Sound json handle s.disk s.phases v s.disk t (released answer) (λ h. ap has_mutex at)
        (λ h. absurd (cc)) (λ h. absurd (cc)) tt (λ u ne. v.fits u)
  Step-Sound (closes before after l e) v = v
  Step-Sound (unlock_mutex {s} t answer at) v =
      less-Sound json handle s.disk s.phases v s.disk t idle (λ h. absurd (cc)) (λ h. absurd (cc))
        (λ h. absurd (cc)) tt (λ u ne. v.fits u)

  pub idle-Sound : (disk : Disk Doc) → Sound json handle disk (λ t. idle)
  idle-Sound disk = record {
    mutex = λ t u ne same h. refl;
    lock = λ t u ne h. refl;
    fits = λ t. tt;
  }
