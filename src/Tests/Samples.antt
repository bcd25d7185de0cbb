-- ===== src/Tests/Samples.antt =====
-- A codec whose documents are the states themselves, and a file with one pending and one resolved
-- record.
use mcp_chain.Base.{
  Bytes, codes, some, [], ◌∷◌, ◌≡◌, refl, str_eq, str_lt, ◌≢◌, arith, false, str_eq_iff, inl, inr,
}
use mcp_chain.Store.Errors.{ok}
use mcp_chain.Store.Schema.{status_resolved, State, Record}
use mcp_chain.Store.Disk.{Codec, decoded, load_state, fresh_state}
use mcp_chain.Store.Invariant.{IsValid, fresh_state-IsValid, insert-IsValid}
use mcp_chain.Store.Ops.{pending_record}
use mcp_chain.Store.Transaction.{content}
use mcp_chain.Base.GoMap.{insert}

abbrev pub direct : Codec State
direct = record {
  marshal_indent = λ st. ok st;
  append_newline = λ doc. doc;
  unmarshal = λ doc. some (decoded doc);
  IsEncodable = λ st. Unit {0};
  round_trip = λ st enc s. (st, refl, refl);
}

abbrev pub ash : Record
ash = pending_record (codes "ash") (codes "build done") (codes "a1") 10

abbrev pub oak : Record
oak = record {
  id = codes "oak";
  condition = codes "review";
  status = status_resolved;
  owner_token = codes "b2";
  created_at = 11;
  resolved_at = some 12;
}

abbrev pub sample : State
sample = record { version = 1; counter = 5; records = (codes "ash", ash) ∷ (codes "oak", oak) ∷ [] }

abbrev pub path : Bytes
path = codes "state.json"

pub sample-held : content direct (some sample) ≡ ok sample
unfolding content load_state
sample-held = refl

pub sample-IsValid : IsValid sample
unfolding insert str_eq str_lt
sample-IsValid =
    insert-IsValid (record fresh_state { records = (codes "oak", oak) ∷ [] }) 5 (codes "ash") ash
      (record { keyed = refl; status = inl (refl, refl) })
      (insert-IsValid fresh_state 0 (codes "oak") oak
        (record { keyed = refl; status = inr (12, refl, refl) }) fresh_state-IsValid)

differ : str_eq (codes "a1") (codes "b2") ≡ false
unfolding str_eq
differ = refl

pub tokens_differ : codes "a1" ≢ codes "b2"
tokens_differ e = absurd (ground (arith, differ, str_eq_iff (codes "a1") (codes "b2")))

pub path_set : path ≢ []
path_set e = cc
