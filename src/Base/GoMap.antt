-- ===== src/Base/GoMap.antt =====
-- Go maps with string keys. The entries are kept in the order of their keys, so that equal maps are
-- equal lists; this is also the order in which `encoding/json` writes them.
use mathlib.Core.Path.{◌≡◌, refl, subst}
use mathlib.Core.List.{List, [], ◌∷◌}
use mathlib.Core.Option.{Option, none, some}
use native.Mathlib.Omega.{arith}
use mathlib.Core.Bool.{true}
use mathlib.Core.Logic.{inl, inr}
use mcp_chain.Base.Tests.{Bool-cases, if◌then◌else◌}
use Prim.Native.Nat.{suc}
use mcp_chain.Base.Lists.{length, All}
use mcp_chain.Base.Text.{
  Bytes, str_eq, str_eq_iff, str_lt, str_lt_irrefl, str_lt_trans, str_lt_total,
}

abbrev pub GoMap {ℓ} : Type ℓ → Type ℓ
GoMap V = List (Bytes × V)

module _ {ℓ} {V : Type ℓ} where
  -- `m[k]` with its `ok`.
  unfoldable pub lookup : Bytes → GoMap V → Option V
  lookup k [] = none
  lookup k ((j, v) ∷ m) = if str_eq j k then some v else lookup k m

  -- `m[k] = v`.
  unfoldable pub insert : Bytes → V → GoMap V → GoMap V
  insert k v [] = (k, v) ∷ []
  insert k v ((j, w) ∷ m) =
      let rest = insert k v m in
      if str_eq j k then (k, v) ∷ m else if str_lt k j then (k, v) ∷ (j, w) ∷ m else (j, w) ∷ rest

  -- `delete(m, k)`.
  unfoldable pub delete : Bytes → GoMap V → GoMap V
  delete k [] = []
  delete k ((j, w) ∷ m) = let rest = delete k m in if str_eq j k then rest else (j, w) ∷ rest

  -- The first key of `m` lies behind `k`.
  abbrev pub Above : Bytes → GoMap V → Type 0
  Above k [] = Unit
  Above k ((j, v) ∷ m) = str_lt k j ≡ true

  abbrev pub IsSorted : GoMap V → Type 0
  IsSorted [] = Unit
  IsSorted ((j, v) ∷ m) = Above j m × IsSorted m

  pub lookup-insert :
      (k j : Bytes) (v : V) (m : GoMap V)
      → lookup j (insert k v m) ≡ (if str_eq k j then some v else lookup j m)
  unfolding lookup insert
  lookup-insert k j v [] = refl
  lookup-insert k j v ((i, w) ∷ m) =
      ground (arith, str_eq_iff k j, str_eq_iff i k, str_eq_iff i j, lookup-insert k j v m)

  pub lookup-delete :
      (k j : Bytes) (m : GoMap V)
      → lookup j (delete k m) ≡ (if str_eq k j then none else lookup j m)
  unfolding lookup delete
  lookup-delete k j [] = ground arith
  lookup-delete k j ((i, w) ∷ m) =
      ground (arith, str_eq_iff k j, str_eq_iff i k, str_eq_iff i j, lookup-delete k j m)

  Above-insert :
      (i k : Bytes) (v : V) (m : GoMap V) → str_lt i k ≡ true → Above i m → Above i (insert k v m)
  unfolding insert
  Above-insert i k v [] h a = h
  Above-insert i k v ((j, w) ∷ m) h a = ground arith

  pub insert-IsSorted : (k : Bytes) (v : V) (m : GoMap V) → IsSorted m → IsSorted (insert k v m)
  unfolding insert
  insert-IsSorted k v [] s = (tt, tt)
  insert-IsSorted k v ((j, w) ∷ m) s =
      ground
        (arith, insert-IsSorted k v m s.1, str_eq_iff j k, str_lt_total j k, Above-insert j k v m)

  pub Above-trans : (i k : Bytes) (m : GoMap V) → str_lt i k ≡ true → Above k m → Above i m
  Above-trans i k [] h a = tt
  Above-trans i k ((j, w) ∷ m) h a = str_lt_trans i k j h a

  Above-delete : (i k : Bytes) (m : GoMap V) → Above i m → IsSorted m → Above i (delete k m)
  unfolding delete
  Above-delete i k [] a s = tt
  Above-delete i k ((j, w) ∷ m) a s =
      ground (arith, Above-delete i k m (Above-trans i j m a s.0) s.1)

  pub delete-IsSorted : (k : Bytes) (m : GoMap V) → IsSorted m → IsSorted (delete k m)
  unfolding delete
  delete-IsSorted k [] s = tt
  delete-IsSorted k ((j, w) ∷ m) s =
      ground (arith, delete-IsSorted k m s.1, Above-delete j k m s.0 s.1)

  pub lookup-Above : (k : Bytes) (m : GoMap V) → Above k m → IsSorted m → lookup k m ≡ none
  unfolding lookup
  lookup-Above k [] a s = refl
  lookup-Above k ((j, w) ∷ m) a s =
      ground
        (arith, str_eq_iff j k, str_lt_irrefl k, lookup-Above k m (Above-trans k j m a s.0) s.1)

  -- `P` holds of every key and its value.
  abbrev pub Entries {κ} : (Bytes → V → Type κ) → GoMap V → Type (ℓ ⊔ κ)
  Entries P m = (k : Bytes) (v : V) → lookup k m ≡ some v → P k v

  pub insert-Entries {κ} :
      (P : Bytes → V → Type κ) (k : Bytes) (v : V) (m : GoMap V)
      → P k v
      → Entries P m
      → Entries P (insert k v m)
  insert-Entries P k v m p h j w e = elim (Bool-cases (str_eq k j)) [
    | inl same ↦
        let key : k ≡ j = (str_eq_iff k j).0 same in
        let value : v ≡ w = ground (arith, lookup-insert k j v m) in
        subst (λ i. P i w) key (subst (P k) value p)
    | inr other ↦ h j w (ground (arith, lookup-insert k j v m))
  ]

  pub delete-Entries {κ} :
      (P : Bytes → V → Type κ) (k : Bytes) (m : GoMap V) → Entries P m → Entries P (delete k m)
  delete-Entries P k m h j w e = h j w (ground (arith, lookup-delete k j m))

module _ {ℓ} {V : Type ℓ} where
  -- No key twice, in whatever order the entries stand.
  abbrev pub Once : GoMap V → Type ℓ
  Once [] = Unit
  Once ((j, v) ∷ m) = (lookup j m ≡ none) × Once m

  pub IsSorted-Once : (m : GoMap V) → IsSorted m → Once m
  IsSorted-Once [] s = tt
  IsSorted-Once ((j, v) ∷ m) s = (lookup-Above j m s.0 s.1, IsSorted-Once m s.1)

  delete_absent : (k : Bytes) (m : GoMap V) → lookup k m ≡ none → delete k m ≡ m
  unfolding lookup delete
  delete_absent k [] h = refl
  delete_absent k ((j, v) ∷ m) h = ground (arith, delete_absent k m)

  -- A deletion of a key that is there makes the map one entry shorter.
  pub length-delete :
      (k : Bytes) (v : V) (m : GoMap V)
      → Once m
      → lookup k m ≡ some v
      → suc (length (delete k m)) ≡ length m
  unfolding lookup delete
  length-delete k v [] o h = cc
  length-delete k v ((j, w) ∷ m) o h =
      ground (arith, length-delete k v m o.1, delete_absent k m, str_eq_iff j k)

-- What holds of every entry.
module _ {ℓ κ} {V : Type ℓ} (P : Bytes × V → Type κ) where
  pub All-insert : (k : Bytes) (v : V) (m : GoMap V) → P (k, v) → All P m → All P (insert k v m)
  unfolding insert
  All-insert k v [] p h = (p, tt)
  All-insert k v ((j, w) ∷ m) p (hj, h) = elim (Bool-cases (str_eq j k)) [
    | inl same ↦ rw same (p, h)
    | inr other ↦ elim (Bool-cases (str_lt k j)) [
      | inl before ↦ rw (other, before) (p, (hj, h))
      | inr behind ↦ rw (other, behind) (hj, All-insert k v m p h)
    ]
  ]

  pub All-delete : (k : Bytes) (m : GoMap V) → All P m → All P (delete k m)
  unfolding delete
  All-delete k [] h = tt
  All-delete k ((j, w) ∷ m) (hj, h) = elim (Bool-cases (str_eq j k)) [
    | inl same ↦ rw same (All-delete k m h)
    | inr other ↦ rw other (hj, All-delete k m h)
  ]

  pub All-lookup : (k : Bytes) (v : V) (m : GoMap V) → lookup k m ≡ some v → All P m → P (k, v)
  unfolding lookup
  All-lookup k v [] e h = cc
  All-lookup k v ((j, w) ∷ m) e (hj, h) = elim (Bool-cases (str_eq j k)) [
    | inl same ↦
        let key : j ≡ k = (str_eq_iff j k).0 same in
        let value : w ≡ v = ground arith in
        subst (λ x. P (x, v)) key (subst (λ x. P (j, x)) value hj)
    | inr other ↦ All-lookup k v m (ground arith) h
  ]
