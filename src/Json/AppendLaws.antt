-- ===== src/Json/AppendLaws.antt =====
-- Lemmas on a printer's text and the text that follows it (`json.MarshalIndent`).
use mcp_chain.Base.{
  ℕ, zero, suc, ◌+◌, ◌*◌, ◌≡◌, refl, ap, ◌∙◌, Bytes, List, [], ◌∷◌, ◌++◌, All, append_assoc,
}
use mcp_chain.Json.Print.{
  Printer, spaces, print_string, print_uint, print_member, print_members, print_object,
}
use mcp_chain.Json.Number.{decimal}
use mcp_chain.Json.Quote.{escape}

abbrev pub Appends : Printer → Type 0
Appends p = (out rest : Bytes) → p out ++ rest ≡ p (out ++ rest)

abbrev pub AllAppend : List (Bytes × Printer) → Type 0
AllAppend = All (λ m. Appends m.1)

pub Appends-quoted :
    (s out rest : Bytes) → (s ++ (b'"' ∷ out)) ++ rest ≡ s ++ (b'"' ∷ (out ++ rest))
Appends-quoted s out rest = append_assoc s (b'"' ∷ out) rest

pub Appends-string : (s : Bytes) → Appends (print_string s)
Appends-string s out rest = ap (λ t. b'"' ∷ t) (Appends-quoted (escape s) out rest)

pub Appends-uint : (u : ℕ) → Appends (print_uint u)
Appends-uint u out rest = append_assoc (decimal u) out rest

Appends-spaces : (n : ℕ) → Appends (spaces n)
unfolding spaces
Appends-spaces zero out rest = refl
Appends-spaces (suc n) out rest = ap (λ t. 32 ∷ t) (Appends-spaces n out rest)

module _ (level : ℕ) where
  pub Appends-member :
      (key : Bytes) (print : Printer) → Appends print → Appends (print_member level (key, print))
  unfolding print_member
  Appends-member key print h out rest =
      ap (λ t. 10 ∷ t)
        (Appends-spaces (2 * (level + 1)) (print_string key (b':' ∷ 32 ∷ print out)) rest
          ∙ ap (λ t. spaces (2 * (level + 1)) t)
              (Appends-string key (b':' ∷ 32 ∷ print out) rest
                ∙ ap (λ t. print_string key (b':' ∷ 32 ∷ t)) (h out rest)))

  Appends-members : (ps : List (Bytes × Printer)) → AllAppend ps → Appends (print_members level ps)
  unfolding print_members
  Appends-members [] h out rest = ap (λ t. 10 ∷ t) (Appends-spaces (2 * level) (b'}' ∷ out) rest)
  Appends-members ((key, print) ∷ ps) (h, hs) out rest =
      ap (λ t. b',' ∷ t)
        (Appends-member key print h (print_members level ps out) rest
          ∙ ap (λ t. print_member level (key, print) t) (Appends-members ps hs out rest))

  pub Appends-object :
      (ps : List (Bytes × Printer)) → AllAppend ps → Appends (print_object level ps)
  unfolding print_object
  Appends-object [] h out rest = refl
  Appends-object ((key, print) ∷ ps) (h, hs) out rest =
      ap (λ t. b'{' ∷ t)
        (Appends-member key print h (print_members level ps out) rest
          ∙ ap (λ t. print_member level (key, print) t) (Appends-members ps hs out rest))
