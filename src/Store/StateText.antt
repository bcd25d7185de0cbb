-- ===== src/Store/StateText.antt =====
-- Lemmas on the text that `saveState` makes and `loadState` reads (internal/store/store.go).
use mcp_chain.Base.{
  ◌^◌, ◌<◌, ◌≡◌, refl, ap, ◌∙◌, arith, Bytes, codes, none, some, List, [], ◌∷◌, ◌++◌, All,
  append_assoc, append-nil, ℕ,
}
use mcp_chain.Base.GoMap.{GoMap, IsSorted, insert}
use mcp_chain.Store.FieldLaws.{set-version, set-counter, set-records}
use mcp_chain.Store.Errors.{ok}
use mcp_chain.Store.RecordText.{RecordIsEncodable, record_printer-Printed}
use mcp_chain.Store.Schema.{State, Record}
use mcp_chain.Store.Marshal.{TimeText, entry_printers, marshal_state, state_members}
use mcp_chain.Json.PrintLaws.{ReadsAll, added, Reads-object, Reads-uint, parse-print}
use mcp_chain.Json.Scan.{Value, Members, number, no_members, member, object, parse}
use mcp_chain.Json.NumberLaws.{parse_uint-decimal}
use mcp_chain.Json.Print.{Printer, print_object, print_uint, print_member, print_members}
use mcp_chain.Store.Disk.{Decoded, decoded, Codec}
use mcp_chain.Json.QuoteScan.{IsUtf8, ascii-IsUtf8}
use mcp_chain.Json.QuoteLaws.{unquote-escape}
use mcp_chain.Store.Unmarshal.{
  into_records, into_state, into_uint, record_of, unmarshal_state, into_map, set_part, state_of,
  zero_state,
}
use mcp_chain.Json.Number.{decimal}
use mcp_chain.Json.Quote.{escape, unquote}
use mcp_chain.Json.AppendLaws.{Appends-object, AllAppend, Appends-uint}
use mcp_chain.Json.CutText.{cut_text-none, object_closes}
use mcp_chain.Store.Joins.{insert-append, Joins, Joins-nil, Joins-next}

module _ (times : TimeText) where
  abbrev pub EntryIsEncodable : Bytes × Record → Type 0
  EntryIsEncodable (k, r) = IsUtf8 0 k × RecordIsEncodable times r

  -- What a state needs so that its text gives it back.
  pub record StateIsEncodable (st : State) : Type 0 where
    pub version : st.version < 2 ^ 64
    pub counter : st.counter < 2 ^ 64
    pub records : All EntryIsEncodable st.records

  -- The printers of a map's entries, and the values that the scanner reads there.
  record EntryTexts (m : GoMap Record) : Type 0 where
    printers : List (Bytes × Printer)
    values : List Value
    printed : entry_printers times m ≡ ok printers
    reads : ReadsAll 1 1 printers values
    appends : AllAppend printers
    back :
        (base acc : GoMap Record) (ms : Members)
        → into_records times base ms ≡ some acc
        → Joins acc m
        → into_records times base (added 1 1 ms printers values) ≡ some (acc ++ m)

  into_entry :
      (base acc : GoMap Record) (ms : Members) (k : Bytes) (v : Value) (r : Record)
      → IsUtf8 0 k
      → into_records times base ms ≡ some acc
      → record_of times v ≡ some r
      → into_records times base (member (escape k) v ms) ≡ some (insert k r acc)
  unfolding into_records
  into_entry base acc ms k v r u e er =
      rw (e, er) (ap (λ t. some (insert t r acc)) (unquote-escape k u))

  entries_printed : (m : GoMap Record) → All EntryIsEncodable m → IsSorted m → EntryTexts m
  unfolding entry_printers
  entries_printed [] enc sorted = record {
    printers = [];
    values = [];
    printed = refl;
    reads = tt;
    appends = tt;
    back = λ base acc ms e j. rw (append-nil acc) e;
  }
  entries_printed ((k, r) ∷ m) ((u, er), enc) (above, sorted) =
      let (p, back) = record_printer-Printed times r er in
      let rest = entries_printed m enc sorted in
      record {
        printers = (k, p.printer) ∷ rest.printers;
        values = p.value ∷ rest.values;
        printed = rw (p.printed, rest.printed) refl;
        reads = (u, p.reads, rest.reads);
        appends = (p.appends, rest.appends);
        back = λ base acc ms e j.
            let added_entry : into_records times base (member (escape k) p.value ms)
                ≡ some (acc ++ ((k, r) ∷ [])) =
              into_entry base acc ms k p.value r u e back
              ∙ ap (λ x. some x) (insert-append k r acc j) in
            rest.back base (acc ++ ((k, r) ∷ [])) (member (escape k) p.value ms) added_entry
              (Joins-next acc m k r j above)
            ∙ ap (λ x. some x) (append_assoc acc ((k, r) ∷ []) m);
      }

  into_part :
      (k : Bytes) (v : Value) (ms : Members) (d : Decoded)
      → into_state times ms ≡ some d
      → into_state times (member k v ms) ≡ set_part times (unquote k) v d
  unfolding into_state
  into_part k v ms d e = rw e refl

  into_no_part : into_state times no_members ≡ some (zero_state times)
  unfolding into_state
  into_no_part = refl

  abbrev state_values : State → Value → List Value
  state_values st records = number (decimal st.version) ∷ number (decimal st.counter) ∷ records ∷ []

  into_state_printed :
      (st : State) (ps : List (Bytes × Printer)) (records : Value)
      → st.version < 2 ^ 64
      → st.counter < 2 ^ 64
      → into_map times none records ≡ some (some st.records)
      → into_state times
          (added 2 0 no_members (state_members times st ps) (state_values st records))
        ≡ some (decoded st)
  unfolding into_uint
  into_state_printed st ps records hv hc er =
      let z = zero_state times in
      let d1 = record z { version = st.version } in
      let d2 = record d1 { counter = st.counter } in
      let e1 =
        into_part _ _ _ z into_no_part
        ∙ set-version times z (number (decimal st.version)) st.version
            (parse_uint-decimal st.version hv) in
      let e2 =
        into_part _ _ _ d1 e1
        ∙ set-counter times d1 (number (decimal st.counter)) st.counter
            (parse_uint-decimal st.counter hc) in
      into_part _ _ _ d2 e2 ∙ set-records times d2 records (some st.records) er

  parts_append :
      (st : State) (e : EntryTexts st.records) → AllAppend (state_members times st e.printers)
  parts_append st e = (
    Appends-uint st.version,
    (Appends-uint st.counter, (Appends-object 1 e.printers e.appends, tt)),
  )

  abbrev state_value : (st : State) → EntryTexts st.records → Value
  state_value st e =
      let records = object (added 1 1 no_members e.printers e.values) in
      object (added 2 0 no_members (state_members times st e.printers) (state_values st records))

  parse_printed :
      (st : State)
      → StateIsEncodable st
      → (e : EntryTexts st.records)
      → parse (print_object 0 (state_members times st e.printers) [] ++ (10 ∷ []))
        ≡ some (state_value st e)
  parse_printed st enc e =
      let ps = state_members times st e.printers in
      let records = object (added 1 1 no_members e.printers e.values) in
      let reads = Reads-object 2 0 ps (state_values st records) (
        ascii-IsUtf8 (codes "version") refl,
        Reads-uint 2 st.version enc.version,
        (
          ascii-IsUtf8 (codes "counter") refl,
          Reads-uint 2 st.counter enc.counter,
          (ascii-IsUtf8 (codes "records") refl, Reads-object 1 1 e.printers e.values e.reads, tt),
        ),
      ) in
      rw (Appends-object 0 ps (parts_append st e) [] (10 ∷ []))
        (parse-print 3 (print_object 0 ps) (state_value st e) (omega arith) reads)

  -- The text of the state and a newline, from the texts of the records.
  unmarshal_printed :
      (st : State)
      → StateIsEncodable st
      → (e : EntryTexts st.records)
      → unmarshal_state times (print_object 0 (state_members times st e.printers) [] ++ (10 ∷ []))
        ≡ some (decoded st)
  unfolding unmarshal_state state_of into_map
  unmarshal_printed st enc e =
      let records = object (added 1 1 no_members e.printers e.values) in
      rw (parse_printed st enc e) (
        into_state_printed st e.printers records enc.version enc.counter
          (rw (e.back [] [] no_members refl (Joins-nil st.records)) refl))

  marshal_printed :
      (st : State) (e : EntryTexts st.records)
      → marshal_state times st ≡ ok (print_object 0 (state_members times st e.printers) [])
  unfolding marshal_state
  marshal_printed st e = rw e.printed refl

  -- The text of a state with a newline is decoded to that state.
  pub marshal-unmarshal :
      (st : State)
      → StateIsEncodable st
      → IsSorted st.records
      → (text : Bytes) × (marshal_state times st ≡ ok text)
        × (unmarshal_state times (text ++ (10 ∷ [])) ≡ some (decoded st))
  unfolding marshal_state
  marshal-unmarshal st enc sorted =
      let e = entries_printed st.records enc.records sorted in
      (
        print_object 0 (state_members times st e.printers) [],
        marshal_printed st e,
        unmarshal_printed st enc e,
      )

  -- A part of the text that lacks its end is not decoded.
  pub marshal-cut :
      (st : State) (p q : Bytes) (c : ℕ)
      → StateIsEncodable st
      → IsSorted st.records
      → marshal_state times st ≡ ok (p ++ (c ∷ q))
      → unmarshal_state times p ≡ none
  unfolding unmarshal_state print_object
  marshal-cut st p q c enc sorted m =
      let e = entries_printed st.records enc.records sorted in
      let printed = marshal_printed st e in
      let same : print_object 0 (state_members times st e.printers) [] ≡ p ++ (c ∷ q) = cc in
      let members = state_members times st e.printers in
      let entries : List (Bytes × Printer) =
        (codes "counter", print_uint st.counter)
        ∷ (codes "records", print_object 1 e.printers)
        ∷ [] in
      let appends = parts_append st e in
      let ends =
        object_closes (codes "version") (print_uint st.version) entries appends.0 appends.1 in
      let refused : parse p ≡ none =
        cut_text-none
          (print_member 0 (codes "version", print_uint st.version) (print_members 0 entries [])) p q
          c (state_value st e) ends (parse_printed st enc e) same in
      rw refused refl

  -- The implementation of the store's interface to the text.
  abbrev pub state_json : Codec Bytes
  state_json = record {
    marshal_indent = marshal_state times;
    append_newline = λ text. text ++ (10 ∷ []);
    unmarshal = unmarshal_state times;
    IsEncodable = StateIsEncodable;
    round_trip = marshal-unmarshal;
  }
