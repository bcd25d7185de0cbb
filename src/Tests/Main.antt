-- ===== src/Tests/Main.antt =====
-- `main` with concrete arguments, and two sessions on one file.
use mcp_chain.Base.{
  subst, ◌≡◌, ◌≢◌, ◌⊎◌, refl, ℕ, codes, Bytes, List, true, some, [], ◌∷◌, get_elem?, str_eq,
}
use mcp_chain.Main.{
  ParseResult, parsed, exited, status, resolve, exits, main, run_command, Kong, WritesStderr,
  asks_version, version_line,
}
use mcp_chain.Tests.Surroundings.{here, files, whole, random, nothing, place}
use mcp_chain.Tests.Samples.{direct}
use mcp_chain.Cli.Commands.{resolve_command}
use mcp_chain.MainLaws.{HasVersion, Reports, Touched, main_effects}
use mcp_chain.Cli.Output.{Outcome, text}

complaint : Outcome
complaint = record { out = []; err_out = text (codes "mcp-chain: error") ∷ []; exit_code = 1 }

-- A grammar with one form of each of two commands.
abbrev small_grammar : List Bytes → ParseResult
small_grammar [] = exited complaint
small_grammar (a ∷ []) = exited complaint
small_grammar (a ∷ id ∷ []) = parsed (status id)
small_grammar (a ∷ id ∷ flag ∷ args) = parsed (resolve id true)

abbrev small_kong : Kong
small_kong = record { parse_args = small_grammar; fatal = λ s. complaint }

complaint-out : complaint.out ≡ []
unfolding complaint
complaint-out = refl

small_grammar-out : (args : List Bytes) (o : Outcome) → small_grammar args ≡ exited o → o.out ≡ []
small_grammar-out [] o e =
    let same : complaint ≡ o = cc in subst (λ x. x.out ≡ []) same complaint-out
small_grammar-out (a ∷ []) o e =
    let same : complaint ≡ o = cc in subst (λ x. x.out ≡ []) same complaint-out
small_grammar-out (a ∷ id ∷ []) o e = cc
small_grammar-out (a ∷ id ∷ flag ∷ args) o e = cc

small_kong-WritesStderr : WritesStderr small_kong
small_kong-WritesStderr = record { parse_args = small_grammar-out; fatal = λ s. complaint-out }

version_anywhere :
    main direct nothing small_kong whole
      (codes "1.0")
      here
      random
      files
      (codes "status" ∷ codes "--version" ∷ [])
    ≡ exits (version_line (codes "1.0")) files
unfolding main asks_version str_eq
version_anywhere = refl

abbrev forced : List Bytes
forced = codes "resolve" ∷ codes "ash" ∷ codes "--force" ∷ []

forced_ends :
    let r = resolve_command direct nothing here (codes "ash") true files in
    main direct nothing small_kong whole (codes "1.0") here random files forced ≡ exits r.0 r.1
unfolding main run_command asks_version str_eq
forced_ends = refl

main_effects_example :
    let r = resolve_command direct nothing here (codes "ash") true files in
    (HasVersion forced
      × (r.0.out ≡ text (codes "mcp-chain 1.0\n") ∷ [])
      × (r.0.err_out ≡ [])
      × (r.0.exit_code ≡ 0)
      × (r.1 place ≡ files place))
    ⊎ (((i : ℕ) → get_elem? forced i ≢ some (codes "--version"))
        × ((r.0.out ≡ []) ⊎ Reports (parsed (resolve (codes "ash") true)))
        × Touched direct nothing small_kong whole
            (codes "1.0")
            here
            random
            files
            place
            (parsed (resolve (codes "ash") true))
            r.1)
main_effects_example =
    main_effects direct nothing small_kong whole (codes "1.0") here random files place forced _ _
      small_kong-WritesStderr forced_ends
