-- ===== src/Store/RecordText.antt =====
-- Lemmas on the text of a record and its decoding (internal/store/schema.go).
use mcp_chain.Base.{
  ℕ, ◌≡◌, refl, ap, ◌∙◌, arith, Bytes, true, Option, none, some, List, [], ◌∷◌, ◌++◌, All, codes,
}
use mcp_chain.Store.Schema.{Time, Record}
use mcp_chain.Json.PrintLaws.{Reads-null, Reads, added, Reads-object, Reads-string}
use mcp_chain.Json.Scan.{
  Value, Members, Target, scan, quoted, scan_step, member, begin_value, no_members, as_value, null,
  in_string, after, closed, back_onto, object,
}
use mcp_chain.Store.FieldLaws.{
  set-id, set-condition, set-status, set-owner_token, set-created_at, set-resolved_at,
}
use mcp_chain.Json.QuoteScan.{IsUtf8, back_onto-back_onto, ascii-IsUtf8}
use mcp_chain.Json.Print.{Printer, print_null, print_object}
use mcp_chain.Store.Marshal.{
  TimeText, resolved_printer, created_printer, print_plain, is_plain, record_members,
  record_printer,
}
use mcp_chain.Store.Errors.{◌>>=◌, Result, ok}
use mcp_chain.Store.Unmarshal.{
  into_time, into_record, into_pointer, set_member, zero_record, record_of,
}
use mcp_chain.Json.Quote.{escape, unquote}
use mcp_chain.Json.AppendLaws.{Appends-string, Appends, Appends-object, Appends-quoted}

-- Bytes that stand for themselves are scanned as they are.
scan-plain :
    (s : Bytes) (t : Target) (acc rest : Bytes)
    → All (λ c. is_plain c ≡ true) s
    → scan (in_string t acc) (s ++ (b'"' ∷ rest)) ≡ scan (closed t (back_onto s acc)) rest
unfolding scan scan_step
scan-plain [] t acc rest plain = refl
scan-plain (c ∷ s) t acc rest (p, plain) =
    let e : scan_step (in_string t acc) c ≡ in_string t (c ∷ acc) = ground arith in
    ap (λ x. scan x (s ++ (b'"' ∷ rest))) e ∙ scan-plain s t (c ∷ acc) rest plain

Reads-plain :
    (d : ℕ) (s : Bytes) → All (λ c. is_plain c ≡ true) s → Reads d (print_plain s) (quoted s)
unfolding scan scan_step begin_value
Reads-plain d s plain st c rest fits end =
    scan-plain s (as_value st) [] (c ∷ rest) plain
    ∙ ap (λ t. scan (after (quoted t) st) (c ∷ rest)) (back_onto-back_onto s [])

module _ (times : TimeText) where
  -- A time that `Time.MarshalJSON` takes.
  abbrev pub IsPrintable : Time → Type 0
  IsPrintable t = (s : Bytes) × (times.print_time t ≡ ok s)

  abbrev pub IsPrintableOption : Option Time → Type 0
  IsPrintableOption none = Unit
  IsPrintableOption (some t) = IsPrintable t

  -- What a record needs so that its text gives it back.
  pub record RecordIsEncodable (r : Record) : Type 0 where
    pub id : IsUtf8 0 r.id
    pub condition : IsUtf8 0 r.condition
    pub status : IsUtf8 0 r.status
    pub owner_token : IsUtf8 0 r.owner_token
    pub created_at : IsPrintable r.created_at
    pub resolved_at : IsPrintableOption r.resolved_at

  -- A printer that succeeded, and the value that the scanner reads its text as.
  pub record Printed (d : ℕ) (print : Result Printer) : Type 0 where
    pub printer : Printer
    pub value : Value
    pub printed : print ≡ ok printer
    pub reads : Reads d printer value
    pub appends : Appends printer

  created_printer-Printed :
      (d : ℕ) (t old : Time)
      → IsPrintable t
      → (p : Printed d (created_printer times t)) × (into_time times old p.value ≡ some t)
  unfolding created_printer into_time
  created_printer-Printed d t old (s, e) =
      let (parsed, plain) = times.round_trip t s e in
      (
        record {
          printer = print_plain s;
          value = quoted s;
          printed = ap (λ x. x >>= (λ w. ok (print_plain w))) e;
          reads = Reads-plain d s plain;
          appends = λ out rest. ap (λ x. b'"' ∷ x) (Appends-quoted s out rest);
        },
        parsed,
      )

  resolved_printer-Printed :
      (d : ℕ) (t : Option Time)
      → IsPrintableOption t
      → (p : Printed d (resolved_printer times t)) × (into_pointer times p.value ≡ some t)
  unfolding resolved_printer created_printer into_pointer
  resolved_printer-Printed d none h = (
    record {
      printer = print_null;
      value = null;
      printed = refl;
      reads = Reads-null d;
      appends = λ out rest. refl;
    },
    refl,
  )
  resolved_printer-Printed d (some t) (s, e) =
      let (parsed, plain) = times.round_trip t s e in
      (
        record {
          printer = print_plain s;
          value = quoted s;
          printed = ap (λ x. x >>= (λ w. ok (print_plain w))) e;
          reads = Reads-plain d s plain;
          appends = λ out rest. ap (λ x. b'"' ∷ x) (Appends-quoted s out rest);
        },
        rw parsed refl,
      )

  into_member :
      (k : Bytes) (v : Value) (ms : Members) (r : Record)
      → into_record times ms ≡ some r
      → into_record times (member k v ms) ≡ set_member times (unquote k) v r
  unfolding into_record
  into_member k v ms r e = rw e refl

  into_none : into_record times no_members ≡ some (zero_record times)
  unfolding into_record
  into_none = refl

  -- The values of the six members.
  abbrev record_values : Record → Value → Value → List Value
  record_values r created resolved =
      quoted (escape r.id)
      ∷ quoted (escape r.condition)
      ∷ quoted (escape r.status)
      ∷ quoted (escape r.owner_token)
      ∷ created
      ∷ resolved
      ∷ []

  into_record_printed :
      (r : Record) (created resolved : Value) (a b : Printer)
      → RecordIsEncodable r
      → into_time times (times.zero_time) created ≡ some r.created_at
      → into_pointer times resolved ≡ some r.resolved_at
      → into_record times
          (added 0 2 no_members (record_members times r a b) (record_values r created resolved))
        ≡ some r
  into_record_printed r created resolved a b enc ec er =
      let z = zero_record times in
      let r1 = record z { id = r.id } in
      let r2 = record r1 { condition = r.condition } in
      let r3 = record r2 { status = r.status } in
      let r4 = record r3 { owner_token = r.owner_token } in
      let r5 = record r4 { created_at = r.created_at } in
      let e1 = into_member _ _ _ z into_none ∙ set-id times z r.id enc.id in
      let e2 = into_member _ _ _ r1 e1 ∙ set-condition times r1 r.condition enc.condition in
      let e3 = into_member _ _ _ r2 e2 ∙ set-status times r2 r.status enc.status in
      let e4 = into_member _ _ _ r3 e3 ∙ set-owner_token times r3 r.owner_token enc.owner_token in
      let e5 = into_member _ _ _ r4 e4 ∙ set-created_at times r4 created r.created_at ec in
      into_member _ _ _ r5 e5 ∙ set-resolved_at times r5 resolved r.resolved_at er

  pub record_printer-Printed :
      (r : Record)
      → RecordIsEncodable r
      → (p : Printed 1 (record_printer times r)) × (record_of times p.value ≡ some r)
  unfolding record_printer record_of
  record_printer-Printed r enc =
      let (created, ec) = created_printer-Printed 0 r.created_at (times.zero_time) enc.created_at in
      let (resolved, er) = resolved_printer-Printed 0 r.resolved_at enc.resolved_at in
      let ps = record_members times r created.printer resolved.printer in
      let vs = record_values r created.value resolved.value in
      (
        record {
          printer = print_object 2 ps;
          value = object (added 0 2 no_members ps vs);
          printed = rw (created.printed, resolved.printed) refl;
          reads = Reads-object 0 2 ps vs (
            ascii-IsUtf8 (codes "id") refl,
            Reads-string 0 r.id enc.id,
            (
              ascii-IsUtf8 (codes "condition") refl,
              Reads-string 0 r.condition enc.condition,
              (
                ascii-IsUtf8 (codes "status") refl,
                Reads-string 0 r.status enc.status,
                (
                  ascii-IsUtf8 (codes "owner_token") refl,
                  Reads-string 0 r.owner_token enc.owner_token,
                  (
                    ascii-IsUtf8 (codes "created_at") refl,
                    created.reads,
                    (ascii-IsUtf8 (codes "resolved_at") refl, resolved.reads, tt),
                  ),
                ),
              ),
            ),
          );
          appends = Appends-object 2 ps (
            Appends-string r.id,
            (
              Appends-string r.condition,
              (
                Appends-string r.status,
                (Appends-string r.owner_token, (created.appends, (resolved.appends, tt))),
              ),
            ),
          );
        },
        into_record_printed r created.value resolved.value created.printer resolved.printer enc ec
            er,
      )
