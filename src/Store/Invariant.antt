-- ===== src/Store/Invariant.antt =====
-- The well-formed states of the store (internal/store/store.go).
use mcp_chain.Base.{
  ℕ, ◌≡◌, refl, ◌⊎◌, inl, inr, none, some, List, [], ◌∷◌, Bytes, str_eq, ◌+◌, Bool-cases,
}
use mcp_chain.Base.GoMap.{
  GoMap, lookup, insert, delete, IsSorted, insert-IsSorted, delete-IsSorted, Entries,
  insert-Entries, delete-Entries,
}
use mcp_chain.Store.Schema.{Time, Record, State, current_version, status_pending, status_resolved}
use mcp_chain.Store.Ops.{pending_record, purge_loop}
use mcp_chain.Store.Effect.{
  Effect, stays, allocates, names, resolves, removes, clears, sweeps, serve-Effect,
}
use mcp_chain.Store.PurgeLaws.{purge_loop_hit, purge_loop_miss}
use mcp_chain.Store.Disk.{fresh_state}
use mcp_chain.Store.Machine.{Request, step, run}

-- A record stands under its own id, and it is pending with no time of resolution or resolved with one.
pub record IsRecord (key : Bytes) (r : Record) : Type 0 where
  pub keyed : r.id ≡ key
  pub status :
      ((r.status ≡ status_pending) × (r.resolved_at ≡ none))
      ⊎ ((t : Time) × (r.status ≡ status_resolved) × (r.resolved_at ≡ some t))

pub record IsValid (st : State) : Type 0 where
  pub version : st.version ≡ current_version
  pub sorted : IsSorted st.records
  pub entries : Entries IsRecord st.records

pub fresh_state-IsValid : IsValid fresh_state
unfolding lookup
fresh_state-IsValid = record { version = refl; sorted = tt; entries = λ k r e. cc }

-- Storing a good record under its key keeps a state valid, and so does taking an entry out.
pub insert-IsValid :
    (st : State) (counter : ℕ) (k : Bytes) (r : Record)
    → IsRecord k r
    → IsValid st
    → IsValid (record st { counter = counter; records = insert k r st.records })
insert-IsValid st counter k r good v = record {
  version = v.version;
  sorted = insert-IsSorted k r st.records v.sorted;
  entries = insert-Entries IsRecord k r st.records good v.entries;
}

delete-IsValid :
    (st : State) (k : Bytes) → IsValid st → IsValid (record st { records = delete k st.records })
delete-IsValid st k v = record {
  version = v.version;
  sorted = delete-IsSorted k st.records v.sorted;
  entries = delete-Entries IsRecord k st.records v.entries;
}

pending_record-IsRecord :
    (id condition token : Bytes) (now : Time) → IsRecord id (pending_record id condition token now)
pending_record-IsRecord id condition token now = record { keyed = refl; status = inl (refl, refl) }

purge_loop-IsValid :
    (todo : GoMap Record) (st : State) (removed : ℕ)
    → IsValid st
    → IsValid (record st { records = (purge_loop todo st.records removed).0 })
purge_loop-IsValid [] st removed v = unfold purge_loop in v
purge_loop-IsValid ((id, r) ∷ todo) st removed v =
    elim (Bool-cases (str_eq r.status status_resolved)) [
      | inl hit ↦ rw (purge_loop_hit id r todo st.records removed hit) (
          purge_loop-IsValid todo (record st { records = delete id st.records }) (removed + 1)
            (delete-IsValid st id v))
      | inr miss ↦
          rw (purge_loop_miss id r todo st.records removed miss)
            (purge_loop-IsValid todo st removed v)
    ]

pub Effect-IsValid :
    {now : Time} {st : State} {q : Request} {st' : State}
    → Effect now st q st'
    → IsValid st
    → IsValid st'
unfolding lookup
Effect-IsValid (stays e) v = rw e v
Effect-IsValid {now} {st} (allocates token condition _ e) v =
    rw e (insert-IsValid st _ _ _ (pending_record-IsRecord _ condition token now) v)
Effect-IsValid {now} {st} (names token id condition _ _ _ e) v =
    rw e (insert-IsValid st st.counter id _ (pending_record-IsRecord id condition token now) v)
Effect-IsValid {now} {st} (resolves id token opts r _ found _ _ e) v = rw e (
    insert-IsValid st st.counter id _
      (record { keyed = (v.entries id r found).keyed; status = inr (now, refl, refl) }) v)
Effect-IsValid {now} {st} (removes opts r _ _ e) v = rw e (delete-IsValid st opts.id v)
Effect-IsValid (clears opts _ e) v =
    rw e (record { version = v.version; sorted = tt; entries = λ k r h. cc })
Effect-IsValid {now} {st} (sweeps opts _ e) v = rw e (purge_loop-IsValid st.records st 0 v)

-- Every request, whether it fails or not, keeps the state well formed: the schema version is the
-- supported one, no key stands twice, each record stands under its own id, and it is pending with no
-- time of resolution or resolved with one.
pub step-IsValid : (st : State) (q : Time × Request) → IsValid st → IsValid (step st q)
unfolding step
step-IsValid st (now, q) v = Effect-IsValid (serve-Effect now q st) v

pub run-keeps : (st : State) (qs : List (Time × Request)) → IsValid st → IsValid (run st qs)
unfolding run
run-keeps st [] v = v
run-keeps st (q ∷ qs) v = run-keeps (step st q) qs (step-IsValid st q v)

-- So every history that begins where there is no file leads to a well-formed state.
pub run-IsValid : (qs : List (Time × Request)) → IsValid (run fresh_state qs)
run-IsValid qs = run-keeps fresh_state qs fresh_state-IsValid
