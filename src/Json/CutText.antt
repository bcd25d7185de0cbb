-- ===== src/Json/CutText.antt =====
-- Lemmas on `json.Unmarshal` and a printed object without its last characters.
use mcp_chain.Base.{
  get_or, drop, ℕ, ◌≡◌, refl, sym, ap, ◌∙◌, subst, arith, Bool, true, false, ◌||◌, ◌==◌, Bool-cases,
  Option-cases, inl, inr, Bytes, List, [], ◌∷◌, ◌++◌, append_assoc, Option, none, some,
}
use mcp_chain.Json.Scan.{
  is_space, scan_step, scan, scanned, parse, Value, number, Frame, in_array, in_object, Part,
  sign_part, zero_part, int_part, dot_part, frac_part, e_part, e_sign_part, e_int_part, Scan,
  begins, begins_or_closes, key_or_closes, key_wanted, colon_wanted, in_string, in_escape, in_hex,
  in_number, in_literal, after, failed, begin_value, after_value, next_part, next_of_literal,
  back_onto,
}
use mcp_chain.Json.CutLaws.{is_reached, scan_step-reached}
use mcp_chain.Json.AppendLaws.{Appends, Appends-member, AllAppend}
use mcp_chain.Json.Print.{Printer, print_members, print_member, spaces}

after_value-pending :
    (v : Value) (f : Frame) (st : List Frame) → scanned (after_value v (f ∷ st) 32) ≡ none
unfolding after_value
after_value-pending v (in_array vs) st = refl
after_value-pending v (in_object ms k) st = refl

next_part-pending :
    (p : Part) (acc : Bytes) (f : Frame) (st : List Frame)
    → scanned (next_part p acc (f ∷ st) 32) ≡ none
unfolding next_part
next_part-pending sign_part acc f st = refl
next_part-pending zero_part acc f st = after_value-pending (number (back_onto acc [])) f st
next_part-pending int_part acc f st = after_value-pending (number (back_onto acc [])) f st
next_part-pending dot_part acc f st = refl
next_part-pending frac_part acc f st = after_value-pending (number (back_onto acc [])) f st
next_part-pending e_part acc f st = refl
next_part-pending e_sign_part acc f st = refl
next_part-pending e_int_part acc f st = after_value-pending (number (back_onto acc [])) f st

next_of_literal-pending :
    (ds : Bytes) (v : Value) (f : Frame) (st : List Frame)
    → scanned (next_of_literal ds v (f ∷ st) 32) ≡ none
next_of_literal-pending [] v f st = refl
next_of_literal-pending (d ∷ []) v f st = ground arith
next_of_literal-pending (d ∷ e ∷ ds) v f st = ground arith

abbrev Finished : Scan → Type 0
Finished s = (w : Value) × (s ≡ after w [])

some-ne-none {ℓ} : {A : Type 0} {P : Type ℓ} (o : Option A) (a : A) → o ≡ none → o ≡ some a → P
some-ne-none o a e h = absurd (cc)

-- The scanner accepts only behind the object.
accepts-Finished :
    (s : Scan) (v : Value) → is_reached s ≡ true → scanned (scan_step s 32) ≡ some v → Finished s
unfolding scan_step begin_value
accepts-Finished (begins []) v h e = absurd (cc)
accepts-Finished (begins (f ∷ st)) v h e = absurd (cc)
accepts-Finished (begins_or_closes st) v h e = absurd (cc)
accepts-Finished (key_or_closes st) v h e = absurd (cc)
accepts-Finished (key_wanted ms st) v h e = absurd (cc)
accepts-Finished (colon_wanted k ms st) v h e = absurd (cc)
accepts-Finished (in_string t acc) v h e = absurd (cc)
accepts-Finished (in_escape t acc) v h e = absurd (cc)
accepts-Finished (in_hex k t acc) v h e = absurd (cc)
accepts-Finished (in_number p acc []) v h e = absurd (cc)
accepts-Finished (in_number p acc (f ∷ st)) v h e =
    some-ne-none (scanned (next_part p acc (f ∷ st) 32)) v (next_part-pending p acc f st) e
accepts-Finished (in_literal ds w []) v h e = absurd (cc)
accepts-Finished (in_literal ds w (f ∷ st)) v h e =
    some-ne-none (scanned (next_of_literal ds w (f ∷ st) 32)) v (next_of_literal-pending ds w f st)
      e
accepts-Finished (after w []) v h e = (w, refl)
accepts-Finished (after w (f ∷ st)) v h e =
    some-ne-none (scanned (after_value w (f ∷ st) 32)) v (after_value-pending w f st) e
accepts-Finished failed v h e = absurd (cc)

scan-append : (s : Scan) (p q : Bytes) → scan s (p ++ q) ≡ scan (scan s p) q
unfolding scan
scan-append s [] q = refl
scan-append s (c ∷ p) q = scan-append (scan_step s c) p q

scan-reached : (s : Scan) (p : Bytes) → is_reached s ≡ true → is_reached (scan s p) ≡ true
unfolding scan
scan-reached s [] h = h
scan-reached s (c ∷ p) h = scan-reached (scan_step s c) p (scan_step-reached s c h)

has_brace : Bytes → Bool
has_brace [] = false
has_brace (c ∷ s) = (c == b'}') || has_brace s

scan-failed : (s : Bytes) → scan failed s ≡ failed
unfolding scan scan_step
scan-failed [] = refl
scan-failed (c ∷ s) = scan-failed s

-- Behind the object no bracket may follow.
scan-brace : (w : Value) (q : Bytes) → has_brace q ≡ true → scan (after w []) q ≡ failed
unfolding scan scan_step after_value has_brace
scan-brace w [] h = cc
scan-brace w (c ∷ q) h = elim (Bool-cases (is_space c)) [
  | inl space ↦ rw space (scan-brace w q (ground arith))
  | inr other ↦ rw other (scan-failed q)
]

cut-none :
    (p q : Bytes) (v : Value)
    → parse (b'{' ∷ (p ++ q)) ≡ some v
    → has_brace q ≡ true
    → parse (b'{' ∷ p) ≡ none
unfolding parse scan scan_step begin_value
cut-none p q v whole h =
    let s = scan (key_or_closes []) p in
    elim (Option-cases (scanned (scan_step s 32))) [
      | inl refused ↦ refused
      | inr (w, e) ↦
          let (x, fin) = accepts-Finished s w (scan-reached (key_or_closes []) p refl) e in
          let fails : scan (key_or_closes []) (p ++ q) ≡ failed =
            scan-append (key_or_closes []) p q ∙ ap (λ t. scan t q) fin ∙ scan-brace x q h in
          absurd (
            some-ne-none (scanned (scan_step (scan (key_or_closes []) (p ++ q)) 32)) v
              (ap (λ t. scanned (scan_step t 32)) fails) whole)
    ]

-- The last byte is the end of an object.
abbrev pub closes : Bytes → Bool
closes [] = false
closes (c ∷ []) = c == b'}'
closes (c ∷ d ∷ s) = closes (d ∷ s)

pub closes-append : (x : Bytes) (d : ℕ) (s : Bytes) → closes (x ++ (d ∷ s)) ≡ closes (d ∷ s)
closes-append [] d s = refl
closes-append (c ∷ []) d s = refl
closes-append (c ∷ e ∷ x) d s = closes-append (e ∷ x) d s

closes-has_brace : (s : Bytes) (t : Bytes) → closes s ≡ true → has_brace (s ++ t) ≡ true
unfolding has_brace
closes-has_brace [] t h = cc
closes-has_brace (c ∷ []) t h = ground arith
closes-has_brace (c ∷ d ∷ s) t h = ground (arith, closes-has_brace (d ∷ s) t h)

-- A text that begins and ends as an object, and is one together with a newline, is none when a part of its
-- end is missing.
pub cut_text-none :
    (text p q : Bytes) (c : ℕ) (v : Value)
    → closes (b'{' ∷ text) ≡ true
    → parse ((b'{' ∷ text) ++ (10 ∷ [])) ≡ some v
    → b'{' ∷ text ≡ p ++ (c ∷ q)
    → parse p ≡ none
cut_text-none text [] q c v ends whole e = unfold parse scan scan_step in refl
cut_text-none text (d ∷ p) q c v ends whole e =
    let lead : b'{' ≡ d = ap (λ s. get_or s 0 0) e in
    let body : text ≡ p ++ (c ∷ q) = ap (λ s. drop 1 s) e in
    let last : closes (c ∷ q) ≡ true =
      sym (closes-append (b'{' ∷ p) c q) ∙ subst (λ t. closes (b'{' ∷ t) ≡ true) body ends in
    let all : parse (b'{' ∷ (p ++ ((c ∷ q) ++ (10 ∷ [])))) ≡ some v =
      subst (λ t. parse (b'{' ∷ t) ≡ some v)
        (ap (λ t. t ++ (10 ∷ [])) body ∙ append_assoc p (c ∷ q) (10 ∷ [])) whole in
    subst (λ x. parse (x ∷ p) ≡ none) lead
      (cut-none p ((c ∷ q) ++ (10 ∷ [])) v all (closes-has_brace (c ∷ q) (10 ∷ []) last))

closes-suffix : (x s : Bytes) → closes s ≡ true → closes (x ++ s) ≡ true
closes-suffix x [] h = cc
closes-suffix x (d ∷ s) h = closes-append x d s ∙ h

members_close : (ps : List (Bytes × Printer)) → AllAppend ps → closes (print_members 0 ps []) ≡ true
unfolding print_members spaces
members_close [] h = refl
members_close ((key, print) ∷ ps) (h, hs) =
    let out = print_members 0 ps [] in
    rw (sym (Appends-member 0 key print h [] out))
      (closes-suffix (b',' ∷ print_member 0 (key, print) []) out (members_close ps hs))

-- An object's members and its end.
pub object_closes :
    (key : Bytes) (print : Printer) (ps : List (Bytes × Printer))
    → Appends print
    → AllAppend ps
    → closes (b'{' ∷ print_member 0 (key, print) (print_members 0 ps [])) ≡ true
object_closes key print ps h hs =
    let out = print_members 0 ps [] in
    rw (sym (Appends-member 0 key print h [] out))
      (closes-suffix (b'{' ∷ print_member 0 (key, print) []) out (members_close ps hs))
