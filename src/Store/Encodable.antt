-- ===== src/Store/Encodable.antt =====
-- Lemmas on the strings and times that the operations store (internal/store/store.go).
use mcp_chain.Base.{
  ℕ, ◌≡◌, refl, arith, true, Bool-cases, inl, inr, Bytes, List, [], ◌∷◌, All, ◌+◌, str_eq,
}
use mcp_chain.Base.GoMap.{GoMap, All-insert, All-delete, All-lookup, delete}
use mcp_chain.Store.StateText.{EntryIsEncodable, StateIsEncodable, state_json}
use mcp_chain.Json.QuoteScan.{IsUtf8, ascii-IsUtf8, is_ascii}
use mcp_chain.Store.Refinement.{AllEncodable}
use mcp_chain.Store.Slug.{IsSlug, IsSlugByte, validate_id_iff, validate_id}
use mcp_chain.Store.Machine.{Request, register, step, register_with_id, resolve, get, purge, list}
use mcp_chain.Store.Schema.{Record, State, Time, status_resolved, status_pending}
use mcp_chain.Store.Effect.{
  Effect, serve-Effect, stays, allocates, names, resolves, removes, clears, sweeps,
}
use mcp_chain.Store.Collision.{validate_id-allocate}
use mcp_chain.Store.RecordText.{IsPrintable}
use mcp_chain.Store.Marshal.{TimeText}
use mcp_chain.Store.Ops.{purge_loop, pending_record}
use mcp_chain.Store.Disk.{fresh_state}
use mcp_chain.Store.PurgeLaws.{purge_loop_hit, purge_loop_miss}
use mcp_chain.Store.Errors.{ok}

slug_bytes_ascii : (s : Bytes) → All IsSlugByte s → is_ascii s ≡ true
slug_bytes_ascii [] h = refl
slug_bytes_ascii (c ∷ s) h = ground (arith, slug_bytes_ascii s h.1)

slug_ascii : (id : Bytes) → IsSlug id → is_ascii id ≡ true
slug_ascii [] h = elim h [ ]
slug_ascii (c ∷ s) h = ground (arith, slug_bytes_ascii s h.1)

slug-IsUtf8 : (id : Bytes) → validate_id id ≡ ok tt → IsUtf8 0 id
slug-IsUtf8 id h = ascii-IsUtf8 id (slug_ascii id ((validate_id_iff id).0 h))

module _ (times : TimeText) where
  -- The client's strings are UTF-8, and the time can be printed, where the request stores them.
  unfoldable pub RequestIsEncodable : Time × Request → Type 0
  RequestIsEncodable (now, register token condition) =
      IsUtf8 0 token × IsUtf8 0 condition × IsPrintable times now
  RequestIsEncodable (now, register_with_id token id condition) =
      IsUtf8 0 token × IsUtf8 0 condition × IsPrintable times now
  RequestIsEncodable (now, resolve id token opts) = IsPrintable times now
  RequestIsEncodable (now, get id) = Unit
  RequestIsEncodable (now, list) = Unit
  RequestIsEncodable (now, purge opts) = Unit

  pending_record-RecordIsEncodable :
      (id condition token : Bytes) (now : Time)
      → validate_id id ≡ ok tt
      → IsUtf8 0 token × IsUtf8 0 condition × IsPrintable times now
      → EntryIsEncodable times (id, pending_record id condition token now)
  pending_record-RecordIsEncodable id condition token now good (ut, uc, printable) = (
    slug-IsUtf8 id good,
    record {
      id = slug-IsUtf8 id good;
      condition = uc;
      status = ascii-IsUtf8 status_pending refl;
      owner_token = ut;
      created_at = printable;
      resolved_at = tt;
    },
  )

  purge_loop-All :
      (todo m : GoMap Record) (n : ℕ)
      → All (EntryIsEncodable times) m
      → All (EntryIsEncodable times) (purge_loop todo m n).0
  purge_loop-All [] m n h = unfold purge_loop in h
  purge_loop-All ((id, r) ∷ todo) m n h = elim (Bool-cases (str_eq r.status status_resolved)) [
    | inl hit ↦
        rw (purge_loop_hit id r todo m n hit)
          (purge_loop-All todo (delete id m) (n + 1) (All-delete (EntryIsEncodable times) id m h))
    | inr miss ↦ rw (purge_loop_miss id r todo m n miss) (purge_loop-All todo m n h)
  ]

  Effect-StateIsEncodable :
      {now : Time} {st : State} {q : Request} {st' : State}
      → Effect now st q st'
      → RequestIsEncodable (now, q)
      → StateIsEncodable times st
      → StateIsEncodable times st'
  Effect-StateIsEncodable (stays e) h enc = rw e enc
  Effect-StateIsEncodable {now} {st} (allocates token condition same e) h enc =
      let h' : IsUtf8 0 token × IsUtf8 0 condition × IsPrintable times now =
        unfold RequestIsEncodable in rw same at h in
      rw e (record {
        version = enc.version;
        counter = omega arith;
        records =
            All-insert (EntryIsEncodable times) _ _ st.records
              (pending_record-RecordIsEncodable _ condition token now
                (validate_id-allocate st.counter enc.counter) h')
              enc.records;
      })
  Effect-StateIsEncodable {now} {st} (names token id condition same good free e) h enc =
      let h' : IsUtf8 0 token × IsUtf8 0 condition × IsPrintable times now =
        unfold RequestIsEncodable in rw same at h in
      rw e (record {
        version = enc.version;
        counter = enc.counter;
        records =
            All-insert (EntryIsEncodable times) _ _ st.records
              (pending_record-RecordIsEncodable id condition token now good h') enc.records;
      })
  Effect-StateIsEncodable {now} {st} (resolves id token opts r same found _ _ e) h enc =
      let h' : IsPrintable times now = unfold RequestIsEncodable in rw same at h in
      let (u, old) = All-lookup (EntryIsEncodable times) id r st.records found enc.records in
      rw e (record {
        version = enc.version;
        counter = enc.counter;
        records =
            All-insert (EntryIsEncodable times) _ _ st.records
              (
                u,
                record {
                  id = old.id;
                  condition = old.condition;
                  status = ascii-IsUtf8 status_resolved refl;
                  owner_token = old.owner_token;
                  created_at = old.created_at;
                  resolved_at = h';
                },
              )
              enc.records;
      })
  Effect-StateIsEncodable {now} {st} (removes opts r _ _ e) h enc = rw e (record {
    version = enc.version;
    counter = enc.counter;
    records = All-delete (EntryIsEncodable times) opts.id st.records enc.records;
  })
  Effect-StateIsEncodable (clears opts _ e) h enc =
      rw e (record { version = enc.version; counter = enc.counter; records = tt })
  Effect-StateIsEncodable {now} {st} (sweeps opts _ e) h enc = rw e (record {
    version = enc.version;
    counter = enc.counter;
    records = purge_loop-All st.records st.records 0 enc.records;
  })

  -- A request whose strings are UTF-8, at a time that can be printed, keeps the state encodable.
  pub step-StateIsEncodable :
      (st : State) (q : Time × Request)
      → RequestIsEncodable q
      → StateIsEncodable times st
      → StateIsEncodable times (step st q)
  unfolding step
  step-StateIsEncodable st (now, q) h enc = Effect-StateIsEncodable (serve-Effect now q st) h enc

  pub fresh_state-StateIsEncodable : StateIsEncodable times fresh_state
  fresh_state-StateIsEncodable = record {
    version = omega arith;
    counter = omega arith;
    records = tt;
  }

  pub run-AllEncodable :
      (qs : List (Time × Request)) (st : State)
      → All RequestIsEncodable qs
      → StateIsEncodable times st
      → AllEncodable (state_json times) st qs
  unfolding AllEncodable
  run-AllEncodable [] st h enc = tt
  run-AllEncodable (q ∷ qs) st (hq, hs) enc =
      let next = step-StateIsEncodable st q hq enc in
      (next, run-AllEncodable qs (step st q) hs next)
