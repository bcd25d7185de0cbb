-- ===== src/Tests/Store.antt =====
-- Tests of the store, and its theorems on the sample file.
use mcp_chain.Store.Methods
use mcp_chain.Base.{
  ◌≡◌, refl, codes, some, none, arith, false, true, [], ◌∷◌, ◌⊎◌, Bytes, str_eq_iff, ◌+◌, ◌↔◌, ℕ,
  List, str_eq, get_elem?, length,
}
use mcp_chain.Store.Errors.{ok, err, sentinel, failed, write, invalid_byte, err_not_owner}
use mcp_chain.Store.Machine.{
  register, register_with_id, resolve, purge, done, allocated, Request, step, serve, run,
}
use mcp_chain.Store.Faults.{ReleaseFailed, execute-err}
use mcp_chain.Store.Fate.{Birth, step-Birth, Fate, step-Fate}
use mcp_chain.Store.Slug.{validate_id_iff, IsSlug, validate_id}
use mcp_chain.Store.Durable.{execute-ok}
use mcp_chain.Tests.Samples.{sample-IsValid, sample-held, ash, oak, sample, direct, tokens_differ}
use mcp_chain.Store.Schema.{Time, PurgeOptions, Record}
use mcp_chain.Store.Refinement.{
  execute-Agrees, execute_all-fresh, execute, execute_all, reply_of, AllEncodable,
}
use mcp_chain.Base.GoMap.{GoMap, lookup, delete}
use mcp_chain.Store.Invariant.{step-IsValid, IsValid}
use mcp_chain.Store.Disk.{Env, fresh_state, with_locked_state}
use mcp_chain.Store.Ops.{
  purge_targets, purge_fn, purge_loop, register_fn, resolve_fn, pending_record,
}
use mcp_chain.Store.Identity.{allocated_ids_distinct, allocated_ids}
use mcp_chain.Store.Transaction.{content, quiet}
use mcp_chain.Store.PurgeLaws.{kept, unresolved, purge_fn_effect, purge_loop_any_order}
use mcp_chain.Idgen.Allocate.{allocate}
use mcp_chain.Idgen.Load.{words-eff_words}
use mcp_chain.Store.Collision.{register_overwrites}

slug_ok : validate_id (codes "my-plan.v2_x") ≡ ok tt
unfolding validate_id
slug_ok = refl

slug_bad : validate_id (codes "a/b") ≡ err (invalid_byte (codes "a/b") 1 b'/')
unfolding validate_id
slug_bad = refl

abbrev by_owner : Request
by_owner = resolve (codes "ash") (codes "a1") (record { force = false })

abbrev by_other : Request
by_other = resolve (codes "ash") (codes "zz") (record { force = false })

abbrev sweep : PurgeOptions
sweep = record { id = []; all = false; resolved = true }

refused : serve 20 by_other sample ≡ err (sentinel err_not_owner)
unfolding serve resolve_fn lookup str_eq
refused = refl

swept : purge_fn sweep sample ≡ ok (record sample { records = (codes "ash", ash) ∷ [] }, 1)
unfolding purge_fn delete lookup str_eq
swept = refl

ash_found : lookup (codes "ash") sample.records ≡ some ash
unfolding lookup str_eq
ash_found = refl

yew_missing : lookup (codes "yew") sample.records ≡ none
unfolding lookup str_eq
yew_missing = refl

validate_id_iff_example : (validate_id (codes "ash") ≡ ok tt) ↔ IsSlug (codes "ash")
validate_id_iff_example = validate_id_iff (codes "ash")

step-IsValid_example : IsValid (step sample (20, by_owner))
step-IsValid_example = step-IsValid sample (20, by_owner) sample-IsValid

step-Fate_example :
    Fate 20 by_owner (codes "ash") ash 5 (lookup (codes "ash") (step sample (20, by_owner)).records)
step-Fate_example = step-Fate 20 by_owner sample (codes "ash") ash sample-IsValid ash_found

step-Birth_example :
    Birth 20 by_owner (codes "yew") 5 (lookup (codes "yew") (step sample (20, by_owner)).records)
step-Birth_example = step-Birth 20 by_owner sample (codes "yew") sample-IsValid yew_missing

purge_fn_effect_example :
    ((j : Bytes) → lookup j ((codes "ash", ash) ∷ []) ≡ kept sweep j (lookup j sample.records))
    × (◌≡◌ {A = ℕ} 2 2)
    × (◌≡◌ {A = ℕ} 5 5)
    × (◌≡◌ {A = ℕ} 1 1)
unfolding purge_targets str_eq
purge_fn_effect_example =
    purge_fn_effect sweep sample (record sample { records = (codes "ash", ash) ∷ [] }) 1
      sample-IsValid.sorted refl swept

abbrev oak_first : GoMap Record
oak_first = (codes "oak", oak) ∷ (codes "ash", ash) ∷ []

oak-ne-ash : str_eq (codes "oak") (codes "ash") ≡ false
unfolding str_eq
oak-ne-ash = refl

same_entries : (k : Bytes) → lookup k oak_first ≡ lookup k sample.records
unfolding lookup
same_entries k = ground (arith, str_eq_iff (codes "oak") k, str_eq_iff (codes "ash") k, oak-ne-ash)

purge_loop_any_order_example :
    ((j : Bytes)
      → lookup j (purge_loop oak_first sample.records 0).0 ≡ unresolved (lookup j sample.records))
    × ((purge_loop oak_first sample.records 0).1 + length (purge_loop oak_first sample.records 0).0
        ≡ 2)
unfolding lookup str_eq
purge_loop_any_order_example =
    purge_loop_any_order oak_first sample.records (refl, (refl, tt)) sample-IsValid.sorted
      same_entries

abbrev history : List (Time × Request)
history =
    (20, register (codes "a1") (codes "x"))
    ∷ (21, purge (record { id = []; all = true; resolved = false }))
    ∷ (22, register (codes "a1") (codes "y"))
    ∷ []

second_allocated : get_elem? (allocated_ids sample history) 1 ≡ some (allocate 6)
unfolding allocated_ids step serve register_fn purge_fn purge_targets str_eq
second_allocated = refl

allocated_ids_distinct_example : ◌≡◌ {A = ℕ} 1 1
allocated_ids_distinct_example =
    allocated_ids_distinct sample history 1 1 (allocate 6) (omega arith) second_allocated
      second_allocated

execute-Agrees_example :
    ((execute direct by_owner (quiet 20) (some sample)).0 ≡ reply_of (serve 20 by_owner sample))
    × (content direct (execute direct by_owner (quiet 20) (some sample)).1
        ≡ ok (step sample (20, by_owner)))
execute-Agrees_example =
    execute-Agrees direct by_owner 20 (some sample) sample sample-held sample-IsValid tt

execute_all-fresh_example :
    (content direct (execute_all direct history none) ≡ ok (run fresh_state history))
    × IsValid (run fresh_state history)
unfolding AllEncodable
execute_all-fresh_example = execute_all-fresh direct history (tt, (tt, (tt, tt)))

abbrev full_disk : Env
full_disk = record (quiet 20) { write_error = some (codes "no space left on device") }

write_fails :
    (execute direct by_owner full_disk (some sample)).0
    ≡ err (failed write (codes "no space left on device"))
unfolding execute Methods.resolve with_locked_state resolve_fn lookup str_eq
write_fails = refl

execute-err_example :
    ((execute direct by_owner full_disk (some sample)).1 ≡ some sample)
    ⊎ ReleaseFailed full_disk (failed write (codes "no space left on device"))
execute-err_example = execute-err direct by_owner full_disk (some sample) _ write_fails

owner_done : (execute direct by_owner (quiet 20) (some sample)).0 ≡ ok done
unfolding execute Methods.resolve with_locked_state resolve_fn lookup str_eq
owner_done = refl

execute-ok_example :
    (serve 20 by_owner sample ≡ ok (step sample (20, by_owner), done))
    × (content direct (execute direct by_owner (quiet 20) (some sample)).1
        ≡ ok (step sample (20, by_owner)))
execute-ok_example =
    execute-ok direct by_owner (quiet 20) (some sample) sample done owner_done sample-held
      sample-IsValid tt

sixth_free : lookup (allocate 5) sample.records ≡ none
unfolding lookup str_eq allocate
sixth_free = rw words-eff_words

register_overwrites_example :
    let id = allocate 5 in
    let named = register_with_id (codes "a1") id (codes "mine") in
    let st1 = step sample (20, named) in
    let st2 = step st1 (21, register (codes "b2") (codes "theirs")) in
    (serve 20 named sample ≡ ok (st1, done))
    × (lookup id st1.records ≡ some (pending_record id (codes "mine") (codes "a1") 20))
    × (serve 21 (register (codes "b2") (codes "theirs")) st1 ≡ ok (st2, allocated id))
    × (lookup id st2.records ≡ some (pending_record id (codes "theirs") (codes "b2") 21))
    × (serve 22 (resolve id (codes "a1") (record { force = false })) st2
        ≡ err (sentinel err_not_owner))
register_overwrites_example =
    register_overwrites sample (codes "a1") (codes "mine") (codes "b2") (codes "theirs") 20 21 22
      (omega arith) sixth_free tokens_differ
