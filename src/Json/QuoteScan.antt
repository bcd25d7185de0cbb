-- ===== src/Json/QuoteScan.antt =====
-- Lemmas on the scanner and a quoted text (encoding/json).
use mcp_chain.Base.{
  ℕ, zero, suc, ◌+◌, ◌-◌, ◌/◌, ◌%◌, ◌≡◌, refl, sym, ap, ◌∙◌, arith, Bytes, codes, Bool, true, false,
  not, [], ◌∷◌, ◌++◌, ◌&&◌, ◌||◌, ◌==◌, ltb, get_or, if◌then◌else◌, append_assoc, ◌<◌,
}
use mcp_chain.Idgen.Hex.{hex_digit}
use mcp_chain.Json.Scan.{
  Target, in_string, in_escape, in_hex, next_hex, closed, back_onto, is_hex, scan_step, scan,
}
use mcp_chain.Json.Quote.{
  escape_byte, escape_front, following, is_separator, escape_from, escape, rune_size, is_tail,
}

-- Well-formed UTF-8, where the first `k` bytes belong to a character that has begun.
abbrev pub IsUtf8 : ℕ → Bytes → Type 0
IsUtf8 zero [] = Unit
IsUtf8 (suc k) [] = ⊥
IsUtf8 (suc k) (b ∷ s) = (is_tail b ≡ true) × IsUtf8 k s
IsUtf8 zero (b ∷ s) = ((ltb b 128 || not (rune_size b s == 0)) ≡ true) × IsUtf8 (following b s) s

-- Within a string the scanner takes the text whole.
abbrev pub Passes : Bytes → Type 0
Passes w =
    (t : Target) (acc rest : Bytes)
    → scan (in_string t acc) (w ++ rest) ≡ scan (in_string t (back_onto w acc)) rest

is_hex-hex_digit : (d : ℕ) → d < 16 → is_hex (hex_digit d) ≡ true
unfolding hex_digit
is_hex-hex_digit d h = ground arith

step_byte :
    (t : Target) (acc : Bytes) (c : ℕ)
    → (c == b'"') ≡ false
    → (c == b'\\') ≡ false
    → ltb c 32 ≡ false
    → scan_step (in_string t acc) c ≡ in_string t (c ∷ acc)
unfolding scan_step
step_byte t acc c p q r = rw (p, q, r) refl

Passes-byte :
    (c : ℕ) → (c == b'"') ≡ false → (c == b'\\') ≡ false → ltb c 32 ≡ false → Passes (c ∷ [])
unfolding scan
Passes-byte c p q r t acc rest = ap (λ s. scan s rest) (step_byte t acc c p q r)

step_hex :
    (k : ℕ) (t : Target) (acc : Bytes) (c : ℕ)
    → is_hex c ≡ true
    → scan_step (in_hex k t acc) c ≡ next_hex k t (c ∷ acc)
unfolding scan_step
step_hex k t acc c h = rw h refl

back_onto-append : (v w acc : Bytes) → back_onto (v ++ w) acc ≡ back_onto w (back_onto v acc)
back_onto-append [] w acc = refl
back_onto-append (c ∷ v) w acc = back_onto-append v w (c ∷ acc)

Passes-hex :
    (d e : ℕ)
    → d < 16
    → e < 16
    → Passes (b'\\' ∷ b'u' ∷ b'0' ∷ b'0' ∷ hex_digit d ∷ hex_digit e ∷ [])
unfolding scan scan_step
Passes-hex d e hd he t acc rest =
    ap (λ s. scan s (hex_digit e ∷ rest))
      (step_hex 1 t (b'0' ∷ b'0' ∷ b'u' ∷ b'\\' ∷ acc) (hex_digit d) (is_hex-hex_digit d hd))
    ∙ ap (λ s. scan s rest)
        (step_hex 0 t (hex_digit d ∷ b'0' ∷ b'0' ∷ b'u' ∷ b'\\' ∷ acc) (hex_digit e)
          (is_hex-hex_digit e he))

step_slash :
    (t : Target) (acc : Bytes) (c : ℕ)
    → ((c == b'"') || (c == b'\\')) ≡ true
    → scan_step (in_escape t acc) c ≡ in_string t (c ∷ acc)
unfolding scan_step
step_slash t acc c h = ground arith

Passes-slash : (c : ℕ) → ((c == b'"') || (c == b'\\')) ≡ true → Passes (b'\\' ∷ c ∷ [])
unfolding scan scan_step
Passes-slash c h t acc rest = ap (λ s. scan s rest) (step_slash t (b'\\' ∷ acc) c h)

Passes-if :
    (c : Bool) (v w : Bytes)
    → (c ≡ true → Passes v)
    → (c ≡ false → Passes w)
    → Passes (if c then v else w)
Passes-if true v w p q = p refl
Passes-if false v w p q = q refl

Passes-escape_byte : (b : ℕ) → ltb b 128 ≡ true → Passes (escape_byte b)
unfolding escape_byte scan scan_step
Passes-escape_byte b h = Passes-if ((b == b'"') || (b == b'\\')) _ _ (Passes-slash b) λ n1.
    Passes-if (b == 8) _ _ (λ y t acc rest. refl)
      λ n2.
        Passes-if (b == 12) _ _ (λ y t acc rest. refl)
          λ n3.
            Passes-if (b == 10) _ _ (λ y t acc rest. refl)
              λ n4.
                Passes-if (b == 13) _ _ (λ y t acc rest. refl)
                  λ n5.
                    Passes-if (b == 9) _ _ (λ y t acc rest. refl)
                      λ n6.
                        Passes-if (ltb b 32 || (b == b'<') || (b == b'>') || (b == b'&')) _ _
                          (λ y. Passes-hex (b / 16) (b % 16) (ground arith) (omega arith))
                          λ n7. Passes-byte b (ground arith) (ground arith) (ground arith)

Passes-separator : (c : ℕ) → is_hex c ≡ true → Passes (codes "\\u202" ++ (c ∷ []))
unfolding scan scan_step
Passes-separator c h t acc rest =
    ap (λ s. scan s rest) (step_hex 0 t (b'2' ∷ b'0' ∷ b'2' ∷ b'u' ∷ b'\\' ∷ acc) c h)

Passes-escape_front :
    (b : ℕ) (s : Bytes) → (ltb b 128 || not (rune_size b s == 0)) ≡ true → Passes (escape_front b s)
unfolding escape_front is_separator scan scan_step
Passes-escape_front b s h = Passes-if (ltb b 128) _ _ (Passes-escape_byte b) λ n1.
    Passes-if (rune_size b s == 0) _ _ (λ y t acc rest. refl)
      λ n2.
        Passes-if (is_separator b s) _ _
          (λ y. Passes-separator (get_or s 1 0 - 168 + b'8') (ground arith))
          λ n3. Passes-byte b (ground arith) (ground arith) (ground arith)

Passes-append : (v w : Bytes) → Passes v → Passes w → Passes (v ++ w)
Passes-append v w p q t acc rest =
    ap (scan (in_string t acc)) (append_assoc v w rest)
    ∙ p t acc (w ++ rest)
    ∙ q t (back_onto v acc) rest
    ∙ ap (λ a. scan (in_string t a) rest) (sym (back_onto-append v w acc))

Passes-escape_from : (keep : Bool) (k : ℕ) (s : Bytes) → IsUtf8 k s → Passes (escape_from keep k s)
unfolding escape_from scan
Passes-escape_from keep zero [] u = λ t acc rest. refl
Passes-escape_from keep (suc k) [] u = elim u [ ]
Passes-escape_from true (suc k) (b ∷ s) (tail, u) =
    Passes-append (b ∷ []) (escape_from true k s)
      (Passes-byte b (ground arith) (ground arith) (ground arith)) (Passes-escape_from true k s u)
Passes-escape_from false (suc k) (b ∷ s) (tail, u) = Passes-escape_from false k s u
Passes-escape_from keep zero (b ∷ s) (first, u) =
    Passes-append (escape_front b s) _ (Passes-escape_front b s first)
      (Passes-escape_from (if is_separator b s then false else true) (following b s) s u)

-- The scanner reads an escaped text up to the quote behind it.
pub scan-escape :
    (s : Bytes) (t : Target) (rest : Bytes)
    → IsUtf8 0 s
    → scan (in_string t []) (escape s ++ (b'"' ∷ rest))
      ≡ scan (closed t (back_onto (escape s) [])) rest
unfolding escape scan scan_step
scan-escape s t rest u = Passes-escape_from true 0 s u t [] (b'"' ∷ rest)

pub back_onto-back_onto : (s acc : Bytes) → back_onto (back_onto s acc) [] ≡ back_onto acc s
back_onto-back_onto [] acc = refl
back_onto-back_onto (c ∷ s) acc = back_onto-back_onto s (c ∷ acc)

abbrev pub is_ascii : Bytes → Bool
is_ascii [] = true
is_ascii (c ∷ s) = ltb c 128 && is_ascii s

pub ascii-IsUtf8 : (s : Bytes) → is_ascii s ≡ true → IsUtf8 0 s
unfolding following
ascii-IsUtf8 [] h = tt
ascii-IsUtf8 (c ∷ s) h =
    let small : ltb c 128 ≡ true = ground arith in
    (ground arith, rw small (ascii-IsUtf8 s (ground arith)))
