-- ===== src/Store/Faults.antt =====
-- The file after a call that reports an error of the operating system (internal/store/lock.go).
use mcp_chain.Base.{◌≡◌, refl, ◌⊎◌, inl, inr, some, Bytes, ◌==◌, Bool-cases}
use mcp_chain.Store.Machine.{
  Request, register, register_with_id, resolve, get, list, purge, done, removed, allocated, Reply,
}
use mcp_chain.Store.Methods
use mcp_chain.Store.Disk.{Disk, Codec, Env}
use mcp_chain.Store.Errors.{err, ok, release_exclusive, failed, GoError, Result}
use mcp_chain.Store.Slug.{validate_id_cases}
use mcp_chain.Store.Refinement.{execute, replied}
use mcp_chain.Store.Transaction.{error_keeps_file}
use mcp_chain.Store.Ops.{register_fn, register_with_id_fn, resolve_fn, purge_targets, purge_fn}

replied-err :
    {A : Type 0} (f : A → Reply) (r : Result A) (e : GoError) → replied f r ≡ err e → r ≡ err e
replied-err f (ok a) e h = cc
replied-err f (err x) e h = cc

-- The one error behind which a change can be on the disk.
abbrev pub ReleaseFailed : Env → GoError → Type 0
ReleaseFailed env e =
    (text : Bytes) × (env.unlock_error ≡ some text) × (e ≡ failed release_exclusive text)

module _ {Doc : Type 0} (json : Codec Doc) where
  -- Under any errors of the operating system, a request that is answered by an error has left the
  -- file as it was, unless the error is that of the release of the lock.
  pub execute-err :
      (q : Request) (env : Env) (disk : Disk Doc) (e : GoError)
      → (execute json q env disk).0 ≡ err e
      → ((execute json q env disk).1 ≡ disk) ⊎ ReleaseFailed env e
  unfolding execute Methods.register Methods.register_with_id Methods.resolve Methods.purge
  execute-err (register token condition) env disk e h =
      error_keeps_file json (register_fn token condition env.now) env disk e
        (replied-err allocated _ e h)
  execute-err (register_with_id token id condition) env disk e h = elim (validate_id_cases id) [
    | inl good ↦
        let fn = register_with_id_fn token id condition env.now in
        rw (good, Methods.register_with_id)
          (error_keeps_file json fn env disk e
            (replied-err (λ _. done) _ e (rw (good, Methods.register_with_id) at h)))
    | inr (x, bad, _) ↦ inl (rw (bad, Methods.register_with_id))
  ]
  execute-err (resolve id token opts) env disk e h =
      error_keeps_file json (resolve_fn id token opts env.now) env disk e
        (replied-err (λ _. done) _ e h)
  execute-err (get id) env disk e h = inl refl
  execute-err list env disk e h = inl refl
  execute-err (purge opts) env disk e h = elim (Bool-cases (purge_targets opts == 1)) [
    | inl good ↦
        rw (good, Methods.purge)
          (error_keeps_file json (purge_fn opts) env disk e
            (replied-err removed _ e (rw (good, Methods.purge) at h)))
    | inr bad ↦ inl (rw (bad, Methods.purge))
  ]
