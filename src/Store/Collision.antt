-- ===== src/Store/Collision.antt =====
-- The ids of `Register` and those of `RegisterWithID` as one name space (internal/store/store.go).
use mcp_chain.Idgen.Load.{words}
use mcp_chain.Base.{
  ◌++◌, ℕ, ◌≡◌, refl, true, false, Bool, arith, Bytes, List, [], ◌∷◌, ◌<◌, ◌^◌, All, ◌&&◌,
  get_elem?, some, Bool-cases, suc, zero, ltb, inl, tests, inr, ◌-◌, none, ◌≢◌, str_eq_refl,
  str_eq_ne,
}
use mcp_chain.Store.Machine.{register, register_with_id, resolve, step, serve, allocated, done}
use mcp_chain.Store.Slug.{validate_id, validate_id_iff, IsSlugByte}
use mcp_chain.Store.Errors.{Result, ok, err, sentinel, err_not_owner}
use mcp_chain.Idgen.EffList.{eff_words}
use mcp_chain.Idgen.Hex.{IsHexDigit, format_04x, format_04x-IsHexDigit, length-format_04x}
use mcp_chain.Idgen.Allocate.{allocate}
use mcp_chain.Idgen.Load.{words-eff_words}
use mcp_chain.Idgen.Allocate.Laws.{allocate_word, allocate_hex}
use mcp_chain.Idgen.Words.{hex_dash}
use mcp_chain.Store.Ops.{register_fn, register_with_id_fn, resolve_fn, pending_record}
use mcp_chain.Store.Schema.{State, Time, pending-ne-resolved}
use mcp_chain.Base.GoMap.{lookup, lookup-insert, insert}

abbrev is_ok : Result (Unit {0}) → Bool
is_ok (ok _) = true
is_ok (err _) = false

all_slugs : List Bytes → Bool
all_slugs [] = true
all_slugs (w ∷ ws) = is_ok (validate_id w) && all_slugs ws

eff_words-all_slugs : all_slugs eff_words ≡ true
unfolding all_slugs validate_id
eff_words-all_slugs = refl

is_ok→ok : (r : Result (Unit {0})) → is_ok r ≡ true → r ≡ ok tt
is_ok→ok (ok tt) h = refl
is_ok→ok (err e) h = cc

all_slugs-get_elem? :
    (ws : List Bytes) (i : ℕ) (w : Bytes)
    → all_slugs ws ≡ true
    → get_elem? ws i ≡ some w
    → validate_id w ≡ ok tt
unfolding all_slugs
all_slugs-get_elem? [] i w h e = cc
all_slugs-get_elem? (x ∷ ws) zero w h e = is_ok→ok (validate_id w) (ground arith)
all_slugs-get_elem? (x ∷ ws) (suc i) w h e = all_slugs-get_elem? ws i w (ground arith) e

hex_digits-slug : (s : Bytes) → All IsHexDigit s → All IsSlugByte s
hex_digits-slug [] h = tt
hex_digits-slug (c ∷ s) h = (ground arith, hex_digits-slug s h.1)

-- Every id that `Allocate` gives to a uint64 counter passes `validateID`.
pub validate_id-allocate : (c : ℕ) → c < 2 ^ 64 → validate_id (allocate c) ≡ ok tt
validate_id-allocate c h = elim (Bool-cases (ltb c 1296)) [
  | inl word ↦
      all_slugs-get_elem? words c (allocate c) (rw words-eff_words eff_words-all_slugs)
        (allocate_word c (omega tests)).0
  | inr hex ↦ rw (allocate_hex c (omega tests) h) (
      (validate_id_iff (hex_dash ++ format_04x (c - 1295))).1 (
        omega arith,
        (
          omega arith,
          (
            omega arith,
            (
              inr (inr (inr refl)),
              hex_digits-slug (format_04x (c - 1295)) (format_04x-IsHexDigit (c - 1295)),
            ),
          ),
        ),
        omega (arith, (length-format_04x (c - 1295)).1 (omega arith)),
      ))
]

-- Where the id of a uint64 counter is free, any session can take it by `RegisterWithID`. The next
-- `Register`, under another token, then returns that same id and stores its own record over the first one, without an
-- error: the first session's condition and token are gone, and it can no longer resolve the id that it
-- registered.
pub register_overwrites :
    (st : State) (token1 condition1 token2 condition2 : Bytes) (now1 now2 now3 : Time)
    → st.counter < 2 ^ 64
    → lookup (allocate st.counter) st.records ≡ none
    → token1 ≢ token2
    → let id = allocate st.counter in
      let named = register_with_id token1 id condition1 in
      let st1 = step st (now1, named) in
      let st2 = step st1 (now2, register token2 condition2) in
      (serve now1 named st ≡ ok (st1, done))
      × (lookup id st1.records ≡ some (pending_record id condition1 token1 now1))
      × (serve now2 (register token2 condition2) st1 ≡ ok (st2, allocated id))
      × (lookup id st2.records ≡ some (pending_record id condition2 token2 now2))
      × (serve now3 (resolve id token1 (record { force = false })) st2
          ≡ err (sentinel err_not_owner))
unfolding step serve register_fn register_with_id_fn resolve_fn
register_overwrites st token1 condition1 token2 condition2 now1 now2 now3 h free ne =
    let id = allocate st.counter in
    let good = validate_id-allocate st.counter h in
    let r1 = pending_record id condition1 token1 now1 in
    let r2 = pending_record id condition2 token2 now2 in
    let first = lookup-insert id id r1 st.records in
    let second = lookup-insert id id r2 (insert id r1 st.records) in
    let self = str_eq_refl id in
    (
      ground arith,
      ground arith,
      ground arith,
      ground arith,
      ground (arith, pending-ne-resolved, str_eq_ne token1 token2 ne),
    )
