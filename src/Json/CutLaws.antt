-- ===== src/Json/CutLaws.antt =====
-- Lemmas on the scanner of `json.Unmarshal` and a text without its last characters.
use mcp_chain.Base.{ℕ, ◌≡◌, refl, arith, Bool, true, false, Bytes, List, [], ◌∷◌, suc, zero}
use mcp_chain.Json.Scan.{
  scan_step, Value, number, Frame, in_array, in_object, Target, as_key, as_value, Part, sign_part,
  zero_part, int_part, dot_part, frac_part, e_part, e_sign_part, e_int_part, Scan, begins,
  begins_or_closes, key_or_closes, key_wanted, colon_wanted, in_string, in_escape, in_hex,
  in_number, in_literal, after, failed, begin_value, after_value, next_part, next_of_literal,
  back_onto, next_hex, closed,
}

abbrev pub is_nested : List Frame → Bool
is_nested [] = false
is_nested (f ∷ st) = true

abbrev pub is_nested_target : Target → Bool
is_nested_target (as_key ms st) = true
is_nested_target (as_value st) = is_nested st

-- The states that are within the object or behind it.
abbrev pub is_reached : Scan → Bool
is_reached (begins st) = is_nested st
is_reached (begins_or_closes st) = is_nested st
is_reached (key_or_closes st) = true
is_reached (key_wanted ms st) = true
is_reached (colon_wanted k ms st) = true
is_reached (in_string t acc) = is_nested_target t
is_reached (in_escape t acc) = is_nested_target t
is_reached (in_hex k t acc) = is_nested_target t
is_reached (in_number p acc st) = is_nested st
is_reached (in_literal ds v st) = is_nested st
is_reached (after v st) = true
is_reached failed = true

after_value-reached : (v : Value) (st : List Frame) (c : ℕ) → is_reached (after_value v st c) ≡ true
unfolding after_value
after_value-reached v [] c = ground arith
after_value-reached v (in_array vs ∷ st) c = ground arith
after_value-reached v (in_object ms k ∷ st) c = ground arith

begin_value-reached :
    (f : Frame) (st : List Frame) (c : ℕ) → is_reached (begin_value (f ∷ st) c) ≡ true
unfolding begin_value
begin_value-reached f st c = ground arith

next_part-reached :
    (p : Part) (acc : Bytes) (f : Frame) (st : List Frame) (c : ℕ)
    → is_reached (next_part p acc (f ∷ st) c) ≡ true
unfolding next_part
next_part-reached sign_part acc f st c = ground arith
next_part-reached zero_part acc f st c =
    ground (arith, after_value-reached (number (back_onto acc [])) (f ∷ st) c)
next_part-reached int_part acc f st c =
    ground (arith, after_value-reached (number (back_onto acc [])) (f ∷ st) c)
next_part-reached dot_part acc f st c = ground arith
next_part-reached frac_part acc f st c =
    ground (arith, after_value-reached (number (back_onto acc [])) (f ∷ st) c)
next_part-reached e_part acc f st c = ground arith
next_part-reached e_sign_part acc f st c = ground arith
next_part-reached e_int_part acc f st c =
    ground (arith, after_value-reached (number (back_onto acc [])) (f ∷ st) c)

next_of_literal-reached :
    (ds : Bytes) (v : Value) (f : Frame) (st : List Frame) (c : ℕ)
    → is_reached (next_of_literal ds v (f ∷ st) c) ≡ true
next_of_literal-reached [] v f st c = refl
next_of_literal-reached (d ∷ []) v f st c = ground arith
next_of_literal-reached (d ∷ e ∷ ds) v f st c = ground arith

closed-reached :
    (t : Target) (acc : Bytes) → is_nested_target t ≡ true → is_reached (closed t acc) ≡ true
closed-reached (as_key ms st) acc h = refl
closed-reached (as_value st) acc h = refl

next_hex-reached :
    (k : ℕ) (t : Target) (acc : Bytes)
    → is_nested_target t ≡ true
    → is_reached (next_hex k t acc) ≡ true
next_hex-reached zero t acc h = h
next_hex-reached (suc k) t acc h = h

-- No byte leads out of them.
pub scan_step-reached : (s : Scan) (c : ℕ) → is_reached s ≡ true → is_reached (scan_step s c) ≡ true
unfolding scan_step
scan_step-reached (begins []) c h = cc
scan_step-reached (begins (f ∷ st)) c h = begin_value-reached f st c
scan_step-reached (begins_or_closes []) c h = cc
scan_step-reached (begins_or_closes (in_array vs ∷ st)) c h =
    ground (arith, begin_value-reached (in_array vs) st c)
scan_step-reached (begins_or_closes (in_object ms k ∷ st)) c h = ground arith
scan_step-reached (key_or_closes st) c h = ground arith
scan_step-reached (key_wanted ms st) c h = ground arith
scan_step-reached (colon_wanted k ms st) c h = ground arith
scan_step-reached (in_string t acc) c h = ground (arith, closed-reached t acc h)
scan_step-reached (in_escape t acc) c h = ground arith
scan_step-reached (in_hex k t acc) c h = ground (arith, next_hex-reached k t (c ∷ acc) h)
scan_step-reached (in_number p acc []) c h = cc
scan_step-reached (in_number p acc (f ∷ st)) c h = next_part-reached p acc f st c
scan_step-reached (in_literal ds v []) c h = cc
scan_step-reached (in_literal ds v (f ∷ st)) c h = next_of_literal-reached ds v f st c
scan_step-reached (after v st) c h = after_value-reached v st c
scan_step-reached failed c h = refl
