-- ===== src/Store/Loads.antt =====
-- What a load under any errors of the operating system says of the file.
use mcp_chain.Base.{
  ◌≡◌, refl, ◌⊎◌, inl, inr, none, some, arith, Bytes, Option, Option-cases, sym, ◌∙◌,
}
use mcp_chain.Store.Disk.{
  release, Disk, Codec, Env, load_state, with_shared_lock, with_locked_state, save_outcome,
}
use mcp_chain.Store.Errors.{
  err, ok, release_exclusive, failed, GoError, Result, Result-cases, ◌>>=◌, read, release_shared,
  acquire_exclusive,
}
use mcp_chain.Store.Schema.{State}
use mcp_chain.Store.Transaction.{content, load_quiet}

pub load_cases :
    {Doc : Type 0} (json : Codec Doc) (env : Env) (disk : Disk Doc)
    → (load_state json env disk ≡ content json disk)
      ⊎ ((e : GoError) × (load_state json env disk ≡ err e))
unfolding load_state content
load_cases json env disk = elim (Option-cases env.read_error) [
  | inl r ↦ inl (load_quiet json env disk r)
  | inr (text, r) ↦ inr (failed read text, rw r refl)
]

pub release-ok :
    {A : Type 0} (o : Option Bytes) (r : Result A) (a : A)
    → release release_exclusive o r ≡ ok a
    → r ≡ ok a
unfolding release
release-ok none r a h = h
release-ok (some text) (ok b) a h = cc
release-ok (some text) (err x) a h = cc

pub release_shared-ok :
    {A : Type 0} (o : Option Bytes) (r : Result A) (a : A)
    → release release_shared o r ≡ ok a
    → r ≡ ok a
unfolding release
release_shared-ok none r a h = h
release_shared-ok (some text) (ok b) a h = cc
release_shared-ok (some text) (err x) a h = cc

-- What a shared section returns is its closure's value on the state that the file holds.
pub shared_is_current :
    {Doc A : Type 0} (json : Codec Doc) (fn : State → Result A) (env : Env) (disk : Disk Doc)
    (a : A)
    → with_shared_lock json fn env disk ≡ ok a
    → (st : State) × (content json disk ≡ ok st) × (fn st ≡ ok a)
unfolding with_shared_lock
shared_is_current json fn env disk a h = elim (Option-cases env.lock_error) [
  | inr (text, l) ↦ absurd (ground arith)
  | inl l ↦
      let loaded = load_state json env disk in
      let got : loaded >>= fn ≡ ok a =
        release_shared-ok env.unlock_error (loaded >>= fn) a (ground arith) in
      elim (load_cases json env disk) [
        | inr (x, bad) ↦ absurd (ground arith)
        | inl same ↦ elim (Result-cases loaded) [
          | inl (x, bad) ↦ absurd (ground arith)
          | inr (st, good) ↦ (st, sym same ∙ good, ground arith)
        ]
      ]
]

-- A closure that refuses the state that the file holds leaves the file, whatever errors the operating
-- system reports, and the call returns an error.
pub refused_anyway :
    {Doc A : Type 0} (json : Codec Doc) (fn : State → Result (State × A)) (env : Env)
    (disk : Disk Doc) (st : State) (e : GoError)
    → content json disk ≡ ok st
    → fn st ≡ err e
    → (x : GoError) × (with_locked_state json fn env disk ≡ (err x, disk))
unfolding with_locked_state save_outcome release
refused_anyway json fn env disk st e held bad = elim (Option-cases env.lock_error) [
  | inr (text, l) ↦ (failed acquire_exclusive text, ground arith)
  | inl l ↦ elim (load_cases json env disk) [
    | inr (x, broken) ↦ elim (Option-cases env.unlock_error) [
      | inl u ↦ (x, ground arith)
      | inr (text, u) ↦ (x, ground arith)
    ]
    | inl same ↦ elim (Option-cases env.unlock_error) [
      | inl u ↦ (e, ground arith)
      | inr (text, u) ↦ (e, ground arith)
    ]
  ]
]
