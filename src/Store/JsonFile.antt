-- ===== src/Store/JsonFile.antt =====
-- The state file as the text that internal/store/store.go writes. `parse_layout` stands for
-- `time.Parse(time.RFC3339, s)` on a text that is not strictly of that form.
use mcp_chain.Base.{
  refl, ap, ◌∙◌, ℕ, ◌++◌, ◌∷◌, ◌≡◌, Bytes, Option, none, some, List, All, [], arith,
}
use mcp_chain.Store.Encodable.{fresh_state-StateIsEncodable, run-AllEncodable, RequestIsEncodable}
use mcp_chain.Store.Schema.{State, Time}
use mcp_chain.Store.Disk.{Disk, Env, Codec, save_state, load_state, fresh_state}
use mcp_chain.Store.Refinement.{execute_all-fresh, execute_all}
use mcp_chain.Store.StateText.{marshal-unmarshal, StateIsEncodable, state_json, marshal-cut}
use mcp_chain.Store.Invariant.{IsValid}
use mcp_chain.Store.Machine.{Request, run}
use mcp_chain.Clock.Text.{time_text}
use mcp_chain.Store.Transaction.{content, load_quiet, content_saved}
use mcp_chain.Store.Errors.{ok, err, corrupt_json}

saved :
    {Doc : Type 0} (json : Codec Doc) (env : Env) (st : State) (disk : Disk Doc) (doc : Doc)
    → json.marshal_indent st ≡ ok doc
    → env.write_error ≡ none
    → save_state json env st disk ≡ (ok tt, some (json.append_newline doc))
unfolding save_state
saved json env st disk doc m w = ground arith

refusal :
    {Doc : Type 0} (json : Codec Doc) (env : Env) (doc : Doc)
    → env.read_error ≡ none
    → json.unmarshal doc ≡ none
    → load_state json env (some doc) ≡ err corrupt_json
unfolding load_state
refusal json env doc readable u = ground arith

module _ (parse_layout : Bytes → Option Time) where
  abbrev pub file_json : Codec Bytes
  file_json = state_json (time_text parse_layout)

  -- A well-formed state that `saveState` has written, where the write does not fail, is what `loadState`
  -- reads back, if its strings are UTF-8, its counter is a uint64 and its times lie in the years 0 to
  -- 9999; and such a state is always written.
  pub load_state-save_state :
      (env env' : Env) (st : State) (disk : Disk Bytes)
      → IsValid st
      → StateIsEncodable (time_text parse_layout) st
      → env.write_error ≡ none
      → env'.read_error ≡ none
      → let r = save_state file_json env st disk in
        (r.0 ≡ ok tt) × (load_state file_json env' r.1 ≡ ok st)
  load_state-save_state env env' st disk v enc written readable =
      let (text, m, u) = marshal-unmarshal (time_text parse_layout) st enc v.sorted in
      rw (saved file_json env st disk text m written) (
        refl,
        load_quiet file_json env' (some (text ++ (10 ∷ []))) readable
            ∙ content_saved file_json st (text ++ (10 ∷ [])) u v.version,
      )

  -- Without errors of the operating system: from no file at all, where the strings of the requests are
  -- UTF-8 and their times lie in the years 0 to 9999, the JSON text in the file is always one of the state
  -- that the abstract history has reached.
  pub execute_all-json :
      (qs : List (Time × Request))
      → All (RequestIsEncodable (time_text parse_layout)) qs
      → content file_json (execute_all file_json qs none) ≡ ok (run fresh_state qs)
  execute_all-json qs h =
      (execute_all-fresh file_json qs (
        run-AllEncodable (time_text parse_layout) qs fresh_state h
          (fresh_state-StateIsEncodable (time_text parse_layout)))).0

  -- A file that has been cut short anywhere within the text of a state, the empty file included, is
  -- refused as corrupt, if the state is well formed, its strings are UTF-8, its counter is a uint64 and
  -- its times lie in the years 0 to 9999, and the read itself gives no error. Only the newline at the
  -- end may be missing.
  pub load_state-cut :
      (env : Env) (st : State) (text p q : Bytes) (c : ℕ)
      → IsValid st
      → StateIsEncodable (time_text parse_layout) st
      → file_json.marshal_indent st ≡ ok text
      → text ≡ p ++ (c ∷ q)
      → env.read_error ≡ none
      → load_state file_json env (some p) ≡ err corrupt_json
  load_state-cut env st text p q c v enc m cut readable =
      let refused =
        marshal-cut (time_text parse_layout) st p q c enc v.sorted (m ∙ ap (λ t. ok t) cut) in
      refusal file_json env p readable refused
