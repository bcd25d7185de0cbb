-- ===== src/Store/Transaction.antt =====
-- The locked read-modify-write cycle of internal/store/lock.go, for any closure: when it commits, and
-- what a failure leaves on the disk.
use mcp_chain.Base.{◌≡◌, refl, ◌⊎◌, inl, inr, none, some, Option, arith, Bytes, Option-cases, ◌∙◌}
use mcp_chain.Store.Disk.{
  with_locked_state, load_state, save_outcome, release, Disk, Codec, Env, decoded,
}
use mcp_chain.Store.Errors.{ok, err, failed, release_exclusive, ◌>>=◌, GoError, Result}
use mcp_chain.Base.GoMap.{IsSorted}
use mcp_chain.Store.Schema.{State, Time, current_version}

-- A call in which the operating system reports no error.
abbrev pub quiet : Time → Env
quiet now = record {
  now = now;
  lock_error = none;
  read_error = none;
  write_error = none;
  unlock_error = none;
}

-- The state that a file holds.
unfoldable pub content : {Doc : Type 0} → Codec Doc → Disk Doc → Result State
content json disk = load_state json (quiet 0) disk

pub load_quiet :
    {Doc : Type 0} (json : Codec Doc) (env : Env) (disk : Disk Doc)
    → env.read_error ≡ none
    → load_state json env disk ≡ content json disk
unfolding load_state content
load_quiet json env none r = rw r refl
load_quiet json env (some doc) r = rw r refl

save_outcome-ok :
    {Doc A : Type 0} (json : Codec Doc) (env : Env) (disk : Disk Doc) (st : State) (a : A)
    (doc : Doc)
    → json.marshal_indent st ≡ ok doc
    → env.write_error ≡ none
    → save_outcome json env disk (ok (st, a)) ≡ (ok a, some (json.append_newline doc))
unfolding save_outcome
save_outcome-ok json env disk st a doc m w = ground arith

pub content_saved :
    {Doc : Type 0} (json : Codec Doc) (st : State) (doc : Doc)
    → json.unmarshal doc ≡ some (decoded st)
    → st.version ≡ current_version
    → content json (some doc) ≡ ok st
unfolding content load_state
content_saved json st doc u v = ground arith

module _ {Doc A : Type 0} (json : Codec Doc) (fn : State → Result (State × A)) (env : Env)
    (disk : Disk Doc) where
  -- An error of the closure or of the saving leaves the file as it was.
  save_outcome-err :
      (r : Result (State × A)) (e : GoError)
      → (save_outcome json env disk r).0 ≡ err e
      → (save_outcome json env disk r).1 ≡ disk
  unfolding save_outcome
  save_outcome-err (err x) e h = refl
  save_outcome-err (ok (st, a)) e h = ground arith

  release-err :
      (o : Option Bytes) (r : Result A) (e : GoError)
      → release release_exclusive o r ≡ err e
      → (r ≡ err e) ⊎ ((text : Bytes) × (o ≡ some text) × (e ≡ failed release_exclusive text))
  unfolding release
  release-err none r e h = inl h
  release-err (some text) (ok a) e h = inr (text, refl, cc)
  release-err (some text) (err x) e h = inl h

  -- An error of `withLockedState` leaves the file as it was, unless the error is that of the release
  -- of the lock.
  pub error_keeps_file :
      (e : GoError)
      → (with_locked_state json fn env disk).0 ≡ err e
      → ((with_locked_state json fn env disk).1 ≡ disk)
        ⊎ ((text : Bytes) × (env.unlock_error ≡ some text) × (e ≡ failed release_exclusive text))
  unfolding with_locked_state
  error_keeps_file e h = elim (Option-cases env.lock_error) [
    | inr (text, l) ↦ inl (ground arith)
    | inl l ↦
        let r = load_state json env disk >>= fn in
        elim (release-err env.unlock_error (save_outcome json env disk r).0 e (ground arith)) [
          | inl x ↦ inl (ground (arith, save_outcome-err r e x))
          | inr y ↦ inr y
        ]
  ]

  -- With no error from the operating system, a state that the closure accepts is committed: the file
  -- then holds the closure's new state, and the call returns the closure's value, unless the release
  -- of the lock fails.
  pub commit :
      (st st' : State) (a : A)
      → content json disk ≡ ok st
      → env.lock_error ≡ none
      → env.read_error ≡ none
      → env.write_error ≡ none
      → fn st ≡ ok (st', a)
      → json.IsEncodable st'
      → IsSorted st'.records
      → st'.version ≡ current_version
      → (content json (with_locked_state json fn env disk).1 ≡ ok st')
        × ((with_locked_state json fn env disk).0
            ≡ release release_exclusive env.unlock_error (ok a))
  unfolding with_locked_state
  commit st st' a c l r w f enc s v =
      let (doc, m, u) = json.round_trip st' enc s in
      let loaded : load_state json env disk ≡ ok st = load_quiet json env disk r ∙ c in
      let saved : save_outcome json env disk (ok (st', a))
          ≡ (ok a, some (json.append_newline doc)) =
        save_outcome-ok json env disk st' a doc m w in
      (ground (arith, content_saved json st' (json.append_newline doc) u v), ground arith)

  -- A closure that refuses the state that the file holds changes nothing, and its error is the call's.
  pub refuse :
      (st : State) (e : GoError)
      → content json disk ≡ ok st
      → env.lock_error ≡ none
      → env.read_error ≡ none
      → fn st ≡ err e
      → with_locked_state json fn env disk ≡ (err e, disk)
  unfolding with_locked_state release save_outcome
  refuse st e c l r f =
      let loaded : load_state json env disk ≡ ok st = load_quiet json env disk r ∙ c in
      elim (Option-cases env.unlock_error) [ inl u ↦ ground arith | inr (text, u) ↦ ground arith ]
