-- ===== src/Rendezvous.antt =====
-- The whole chain, from one session's registration to the exit code that another waits for: the
-- handlers of internal/mcpserver/server.go and `runStatus` of internal/cli/status.go on one file.
use mcp_chain.Base.{
  ◌≡◌, refl, none, some, arith, Bytes, ◌≢◌, false, [], str_eq_iff, ◌∷◌, ◌∙◌, codes, str_eq_refl, ap,
}
use mcp_chain.Store.Errors.{ok, err, sentinel, err_not_owner}
use mcp_chain.Cli.Output.{text}
use mcp_chain.Mcpserver.Handlers.{register_handler, resolve_handler}
use mcp_chain.Cli.Status.{run_status}
use mcp_chain.Store.Invariant.{IsValid}
use mcp_chain.Store.Disk.{Disk, Codec}
use mcp_chain.Store.Schema.{
  State, Record, Time, pending-ne-resolved, status_pending, ResolveOptions, status_resolved,
}
use mcp_chain.Store.Quiet.{
  resolve_fn_cases, settled, register-quiet, resolve-quiet, resolve_refused, settled-IsValid,
  registered-IsValid,
}
use mcp_chain.Store.Transaction.{content, quiet}
use mcp_chain.Base.GoMap.{lookup, lookup-insert}
use mcp_chain.Idgen.Allocate.{allocate}
use mcp_chain.Mcpserver.Errors.{map_store_error}
use mcp_chain.Store.Effect.{registered}
use mcp_chain.Store.Ops.{resolve_fn, pending_record}
use mcp_chain.Cli.StatusLaws.{run_status-promised, promised}

module _ {Doc : Type 0} (json : Codec Doc) where
  -- A session registers a condition.
  registers_pending :
      (token condition : Bytes) (now : Time) (disk : Disk Doc) (st : State)
      → content json disk ≡ ok st
      → IsValid st
      → json.IsEncodable (registered st token condition now)
      → let answer =
          register_handler json token (record { condition = condition }) (quiet now) disk in
        (answer.0 ≡ record { error = none; out = record { id = allocate st.counter } })
        × (content json answer.1 ≡ ok (registered st token condition now))
  unfolding register_handler
  registers_pending token condition now disk st held v enc =
      let (value, file) = register-quiet json now disk st held token condition v enc in
      (ground (arith, value), file)

  -- A session resolves an id that it registered.
  resolves_own :
      (token id : Bytes) (now : Time) (disk : Disk Doc) (st : State) (r : Record)
      → content json disk ≡ ok st
      → IsValid st
      → json.IsEncodable (settled st id r now)
      → lookup id st.records ≡ some r
      → r.status ≡ status_pending
      → r.owner_token ≡ token
      → let answer = resolve_handler json token (record { id = id }) (quiet now) disk in
        (answer.0 ≡ record { error = none; out = tt })
        × (content json answer.1 ≡ ok (settled st id r now))
  unfolding resolve_handler
  resolves_own token id now disk st r held v enc found pending owner =
      let opts : ResolveOptions = record { force = false } in
      let allowed : resolve_fn id token opts now st ≡ ok (settled st id r now, tt) = ground (
        arith,
        resolve_fn_cases id token opts now st r found,
        pending-ne-resolved,
        str_eq_iff token r.owner_token,
      ) in
      let (value, file) = resolve-quiet json now disk st held id token opts r v enc allowed in
      (ground (arith, value), file)

  -- Another session is refused.
  refuses_other :
      (token id : Bytes) (now : Time) (disk : Disk Doc) (st : State) (r : Record)
      → content json disk ≡ ok st
      → lookup id st.records ≡ some r
      → r.status ≡ status_pending
      → r.owner_token ≢ token
      → resolve_handler json token (record { id = id }) (quiet now) disk
        ≡ (record { error = some (map_store_error (sentinel err_not_owner)); out = tt }, disk)
  unfolding resolve_handler
  refuses_other token id now disk st r held found pending other =
      let opts : ResolveOptions = record { force = false } in
      let refused : resolve_fn id token opts now st ≡ err (sentinel err_not_owner) = ground (
        arith,
        resolve_fn_cases id token opts now st r found,
        pending-ne-resolved,
        str_eq_iff token r.owner_token,
      ) in
      ground (
        arith,
        resolve_refused json now disk st held id token opts (sentinel err_not_owner) refused,
      )

  -- Without errors of the operating system, on a non-empty path and a file that holds a well-formed
  -- state, where the states behind the registration and behind the resolution are encodable: a session's
  -- `register` returns an id without an error; `mcp-chain status` of that id then gives exit code 2 and
  -- "pending"; `resolve` by a session of another token is refused with `not_owner` and leaves the file
  -- as it was; `resolve` by the first session succeeds; and `mcp-chain status` then gives exit code 0
  -- and "resolved".
  pub rendezvous :
      (token other condition path : Bytes) (now1 now2 now3 now4 now5 : Time) (disk : Disk Doc)
      (st : State)
      → path ≢ []
      → content json disk ≡ ok st
      → IsValid st
      → json.IsEncodable (registered st token condition now1)
      → json.IsEncodable (
          settled
            (registered st token condition now1)
            (allocate st.counter)
            (pending_record (allocate st.counter) condition token now1)
            now4)
      → token ≢ other
      → let id = allocate st.counter in
        let registering =
          register_handler json token (record { condition = condition }) (quiet now1) disk in
        let resolving =
          resolve_handler json token (record { id = id }) (quiet now4) registering.1 in
        (registering.0 ≡ record { error = none; out = record { id = id } })
        × (run_status json path id (quiet now2) registering.1
            ≡ record { out = text (codes "pending\n") ∷ []; err_out = []; exit_code = 2 })
        × (resolve_handler json other (record { id = id }) (quiet now3) registering.1 ≡ (
          record { error = some (map_store_error (sentinel err_not_owner)); out = tt },
          registering.1,
        ))
        × (resolving.0 ≡ record { error = none; out = tt })
        × (run_status json path id (quiet now5) resolving.1
            ≡ record { out = text (codes "resolved\n") ∷ []; err_out = []; exit_code = 0 })
  rendezvous token other condition path now1 now2 now3 now4 now5 disk st ne held v enc1 enc2
        differs =
      let id = allocate st.counter in
      let st1 = registered st token condition now1 in
      let r = pending_record id condition token now1 in
      let (answer1, held1) = registers_pending token condition now1 disk st held v enc1 in
      let disk1 =
        (register_handler json token (record { condition = condition }) (quiet now1) disk).1 in
      let v1 = registered-IsValid st token condition now1 v in
      let found : lookup id st1.records ≡ some r =
        ground (arith, lookup-insert id id r st.records, str_eq_refl id) in
      let (answer2, held2) = resolves_own token id now4 disk1 st1 r held1 v1 enc2 found refl refl in
      let disk2 = (resolve_handler json token (record { id = id }) (quiet now4) disk1).1 in
      let st2 = settled st1 id r now4 in
      let v2 = settled-IsValid st1 id r now4 found v1 in
      let r2 : Record = record r { status = status_resolved; resolved_at = some now4 } in
      let found2 : lookup id st2.records ≡ some r2 =
        ground (arith, lookup-insert id id r2 st1.records, str_eq_refl id) in
      (
        answer1,
        run_status-promised json path id now2 disk1 st1 ne held1 v1 ∙ ap (promised id) found,
        refuses_other other id now3 disk1 st1 r held1 found refl differs,
        answer2,
        run_status-promised json path id now5 disk2 st2 ne held2 v2 ∙ ap (promised id) found2,
      )
