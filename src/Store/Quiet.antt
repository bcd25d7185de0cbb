-- ===== src/Store/Quiet.antt =====
-- The methods called without errors of the operating system, in terms of the state in the file.
use mcp_chain.Base.{◌≡◌, refl, some, arith, Bytes, ◌||◌, ◌∙◌, if◌then◌else◌, str_eq, inr}
use mcp_chain.Store.Errors.{ok, err, GoError, sentinel, err_already_resolved, err_not_owner}
use mcp_chain.Store.Methods
use mcp_chain.Base.GoMap.{insert-IsSorted, insert, lookup}
use mcp_chain.Store.Disk.{Codec, Disk, release}
use mcp_chain.Store.Schema.{ResolveOptions, Record, State, Time, status_resolved}
use mcp_chain.Store.Invariant.{Effect-IsValid, IsValid, insert-IsValid}
use mcp_chain.Store.Ops.{resolve_fn, register_fn, get_fn}
use mcp_chain.Store.Transaction.{content, quiet, refuse, commit, load_quiet}
use mcp_chain.Idgen.Allocate.{allocate}
use mcp_chain.Store.Refinement.{shared_quiet}
use mcp_chain.Store.Methods.{register}
use mcp_chain.Store.Effect.{registered, allocates}
use mcp_chain.Store.Machine.{Request}

-- The state behind a `Resolve` of the record `r`.
abbrev pub settled : State → Bytes → Record → Time → State
settled st id r now = record st {
  records = insert id (record r { status = status_resolved; resolved_at = some now }) st.records;
}

-- `Resolve` refuses a record that is resolved, and one of another token unless forced.
pub resolve_fn_cases :
    (id token : Bytes) (opts : ResolveOptions) (now : Time) (st : State) (r : Record)
    → lookup id st.records ≡ some r
    → resolve_fn id token opts now st ≡ (
        if str_eq r.status status_resolved
        then err (sentinel err_already_resolved)
        else if opts.force || str_eq token r.owner_token
        then ok (settled st id r now, tt)
        else err (sentinel err_not_owner))
unfolding resolve_fn
resolve_fn_cases id token opts now st r e = ground arith

pub registered-IsValid :
    (st : State) (token condition : Bytes) (now : Time)
    → IsValid st
    → IsValid (registered st token condition now)
registered-IsValid st token condition now v =
    Effect-IsValid {now = now} {st = st} {q = Request.register token condition}
      (allocates token condition refl refl) v

pub settled-IsValid :
    (st : State) (id : Bytes) (r : Record) (now : Time)
    → lookup id st.records ≡ some r
    → IsValid st
    → IsValid (settled st id r now)
settled-IsValid st id r now found v =
    insert-IsValid st st.counter id _
      (record { keyed = (v.entries id r found).keyed; status = inr (now, refl, refl) }) v

module _ {Doc : Type 0} (json : Codec Doc) (now : Time) (disk : Disk Doc) (st : State)
    (held : content json disk ≡ ok st) where
  pub get-quiet : (id : Bytes) → Methods.get json id (quiet now) disk ≡ get_fn id st
  unfolding Methods.get
  get-quiet id =
      shared_quiet json (get_fn id) now disk st (load_quiet json (quiet now) disk refl ∙ held)

  pub register-quiet :
      (token condition : Bytes)
      → IsValid st
      → json.IsEncodable (registered st token condition now)
      → ((Methods.register json token condition (quiet now) disk).0 ≡ ok (allocate st.counter))
        × (content json (Methods.register json token condition (quiet now) disk).1
            ≡ ok (registered st token condition now))
  unfolding Methods.register register_fn release
  register-quiet token condition v enc =
      let v' = registered-IsValid st token condition now v in
      let (file, value) =
        commit json (register_fn token condition now) (quiet now) disk st
          (registered st token condition now) (allocate st.counter) held refl refl refl refl enc
          v'.sorted v'.version in
      (value, file)

  pub resolve-quiet :
      (id token : Bytes) (opts : ResolveOptions) (r : Record)
      → IsValid st
      → json.IsEncodable (settled st id r now)
      → resolve_fn id token opts now st ≡ ok (settled st id r now, tt)
      → ((Methods.resolve json id token opts (quiet now) disk).0 ≡ ok tt)
        × (content json (Methods.resolve json id token opts (quiet now) disk).1
            ≡ ok (settled st id r now))
  unfolding Methods.resolve release
  resolve-quiet id token opts r v enc e =
      let (file, value) =
        commit json (resolve_fn id token opts now) (quiet now) disk st (settled st id r now) tt held
          refl refl refl e enc (insert-IsSorted id _ st.records v.sorted) v.version in
      (value, file)

  pub resolve_refused :
      (id token : Bytes) (opts : ResolveOptions) (e : GoError)
      → resolve_fn id token opts now st ≡ err e
      → Methods.resolve json id token opts (quiet now) disk ≡ (err e, disk)
  unfolding Methods.resolve
  resolve_refused id token opts e h =
      refuse json (resolve_fn id token opts now) (quiet now) disk st e held refl refl h
