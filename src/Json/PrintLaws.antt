-- ===== src/Json/PrintLaws.antt =====
-- Lemmas on the scanner and a printed object (encoding/json).
use mcp_chain.Base.{
  ℕ, zero, suc, ◌+◌, ◌*◌, ◌≤◌, ◌≡◌, refl, ap, ◌∙◌, arith, Bytes, List, [], ◌∷◌, ◌++◌, inl, inr,
  length, ◌^◌, ◌<◌, lt→ltb, some,
}
use mcp_chain.Json.NumberLaws.{Ends, scan-decimal}
use mcp_chain.Json.Print.{
  Printer, spaces, print_string, print_uint, print_null, print_member, print_members, print_object,
}
use mcp_chain.Json.Quote.{escape}
use mcp_chain.Json.QuoteScan.{IsUtf8, scan-escape, back_onto-back_onto}
use mcp_chain.Json.Scan.{
  Scan, Frame, Value, Members, null, number, quoted, object, no_members, member, in_object, as_key,
  as_value, begins, key_or_closes, key_wanted, colon_wanted, in_string, after, max_depth, scan_step,
  scan, begin_value, after_value, parse, scanned,
}
use mcp_chain.Json.Number.{decimal}

-- The scanner reads the printer's text as the value `v`, which has at most `depth` containers within one
-- another.
abbrev pub Reads : ℕ → Printer → Value → Type 0
Reads depth print v =
    (st : List Frame) (c : ℕ) (rest : Bytes)
    → length st + depth ≤ max_depth
    → Ends c
    → scan (begins st) (print (c ∷ rest)) ≡ scan (after v st) (c ∷ rest)

pub Reads-uint : (d u : ℕ) → u < 2 ^ 64 → Reads d (print_uint u) (number (decimal u))
Reads-uint d u h st c rest fits end = scan-decimal u c rest st h end

pub Reads-null : (d : ℕ) → Reads d print_null null
unfolding scan scan_step begin_value
Reads-null d st c rest fits end = refl

pub Reads-string : (d : ℕ) (s : Bytes) → IsUtf8 0 s → Reads d (print_string s) (quoted (escape s))
unfolding scan scan_step begin_value
Reads-string d s u st c rest fits end =
    scan-escape s (as_value st) (c ∷ rest) u
    ∙ ap (λ t. scan (after (quoted t) st) (c ∷ rest)) (back_onto-back_onto (escape s) [])

scan-spaces :
    (s : Scan) (n : ℕ) (rest : Bytes) → scan_step s 32 ≡ s → scan s (spaces n rest) ≡ scan s rest
unfolding scan spaces
scan-spaces s zero rest e = refl
scan-spaces s (suc n) rest e = ap (λ x. scan x (spaces n rest)) e ∙ scan-spaces s n rest e

-- A place for a key.
record KeyPlace (s : Scan) (ms : Members) (st : List Frame) : Type 0 where
  space : scan_step s 32 ≡ s
  line : scan_step s 10 ≡ s
  mark : scan_step s b'"' ≡ in_string (as_key ms st) []

key_or_closes-KeyPlace : (st : List Frame) → KeyPlace (key_or_closes st) no_members st
unfolding scan_step
key_or_closes-KeyPlace st = record { space = refl; line = refl; mark = refl }

key_wanted-KeyPlace : (ms : Members) (st : List Frame) → KeyPlace (key_wanted ms st) ms st
unfolding scan_step
key_wanted-KeyPlace ms st = record { space = refl; line = refl; mark = refl }

module _ (d level : ℕ) where
  Reads-member :
      (s : Scan) (ms : Members) (st : List Frame) (key : Bytes) (print : Printer) (v : Value)
      (c : ℕ) (rest : Bytes)
      → KeyPlace s ms st
      → IsUtf8 0 key
      → Reads d print v
      → suc (length st + d) ≤ max_depth
      → Ends c
      → scan s (print_member level (key, print) (c ∷ rest))
        ≡ scan (after v (in_object ms (escape key) ∷ st)) (c ∷ rest)
  unfolding scan scan_step begin_value print_member
  Reads-member s ms st key print v c rest place u reads fits end =
      let tail = b':' ∷ 32 ∷ print (c ∷ rest) in
      let text = escape key ++ (b'"' ∷ tail) in
      ap (λ x. scan x (spaces (2 * (level + 1)) (b'"' ∷ text))) place.line
      ∙ scan-spaces s (2 * (level + 1)) (b'"' ∷ text) place.space
      ∙ ap (λ x. scan x text) place.mark
      ∙ scan-escape key (as_key ms st) tail u
      ∙ ap (λ k. scan (colon_wanted k ms st) tail) (back_onto-back_onto (escape key) [])
      ∙ reads (in_object ms (escape key) ∷ st) c rest (omega arith) end

  -- Each printer reads as the value in its place.
  abbrev pub ReadsAll : List (Bytes × Printer) → List Value → Type 0
  ReadsAll [] [] = Unit
  ReadsAll [] (v ∷ vs) = ⊥
  ReadsAll (p ∷ ps) [] = ⊥
  ReadsAll ((key, print) ∷ ps) (v ∷ vs) = IsUtf8 0 key × Reads d print v × ReadsAll ps vs

  abbrev pub added : Members → List (Bytes × Printer) → List Value → Members
  added ms [] vs = ms
  added ms (p ∷ ps) [] = ms
  added ms ((key, print) ∷ ps) (v ∷ vs) = added (member (escape key) v ms) ps vs

  print_members-Ends :
      (ps : List (Bytes × Printer)) (out : Bytes)
      → (c : ℕ) × (rest : Bytes) × (print_members level ps out ≡ c ∷ rest) × Ends c
  unfolding print_members
  print_members-Ends [] out = (_, _, refl, inr refl)
  print_members-Ends (p ∷ ps) out = (_, _, refl, inl refl)

  Reads-next :
      (s : Scan) (ms : Members) (st : List Frame) (key : Bytes) (print : Printer) (v : Value)
      (ps : List (Bytes × Printer)) (out : Bytes)
      → KeyPlace s ms st
      → IsUtf8 0 key
      → Reads d print v
      → suc (length st + d) ≤ max_depth
      → scan s (print_member level (key, print) (print_members level ps out))
        ≡ scan (after v (in_object ms (escape key) ∷ st)) (print_members level ps out)
  Reads-next s ms st key print v ps out place u reads fits =
      let (c, rest, e, end) = print_members-Ends ps out in
      rw e (Reads-member s ms st key print v c rest place u reads fits end)

  Reads-members :
      (ps : List (Bytes × Printer)) (vs : List Value) (ms : Members) (k : Bytes) (v : Value)
      (st : List Frame) (out : Bytes)
      → ReadsAll ps vs
      → suc (length st + d) ≤ max_depth
      → scan (after v (in_object ms k ∷ st)) (print_members level ps out)
        ≡ scan (after (object (added (member k v ms) ps vs)) st) out
  unfolding scan scan_step after_value print_members
  Reads-members [] [] ms k v st out r fits =
      scan-spaces (after v (in_object ms k ∷ st)) (2 * level) (b'}' ∷ out) refl
  Reads-members [] (w ∷ vs) ms k v st out r fits = elim r [ ]
  Reads-members (p ∷ ps) [] ms k v st out r fits = elim r [ ]
  Reads-members ((key, print) ∷ ps) (w ∷ vs) ms k v st out (u, reads, rest) fits =
      Reads-next (key_wanted (member k v ms) st) (member k v ms) st key print w ps out
        (key_wanted-KeyPlace (member k v ms) st) u reads fits
      ∙ Reads-members ps vs (member k v ms) (escape key) w st out rest fits

  opens :
      (st : List Frame)
      → length st + suc d ≤ max_depth
      → scan_step (begins st) b'{' ≡ key_or_closes st
  unfolding scan_step begin_value
  opens st fits = rw (lt→ltb (length st) max_depth (omega arith)) refl

  -- The scanner reads a printed object.
  pub Reads-object :
      (ps : List (Bytes × Printer)) (vs : List Value)
      → ReadsAll ps vs
      → Reads (suc d) (print_object level ps) (object (added no_members ps vs))
  unfolding scan scan_step begin_value print_object
  Reads-object [] [] r st c rest fits end = ap (λ x. scan x (b'}' ∷ c ∷ rest)) (opens st fits)
  Reads-object [] (w ∷ vs) r st c rest fits end = elim r [ ]
  Reads-object (p ∷ ps) [] r st c rest fits end = elim r [ ]
  Reads-object ((key, print) ∷ ps) (w ∷ vs) (u, reads, rs) st c rest fits end =
      let out = c ∷ rest in
      ap (λ x. scan x (print_member level (key, print) (print_members level ps out)))
        (opens st fits)
      ∙ Reads-next (key_or_closes st) no_members st key print w ps out (key_or_closes-KeyPlace st) u
          reads (omega arith)
      ∙ Reads-members ps vs no_members (escape key) w st out rs (omega arith)

-- A printed value with a newline is the text of that value.
pub parse-print :
    (d : ℕ) (print : Printer) (v : Value)
    → d ≤ max_depth
    → Reads d print v
    → parse (print (10 ∷ [])) ≡ some v
unfolding parse scan scan_step after_value
parse-print d print v fits reads =
    ap (λ s. scanned (scan_step s 32)) (reads [] 10 [] (omega arith) (inr refl))
