-- ===== src/Statepath/ResolveLaws.antt =====
-- Where the state file lies, and when there is no such place.
use mcp_chain.Base.{
  ◌≡◌, ◌≢◌, refl, sym, ◌∙◌, ◌↔◌, arith, Bytes, codes, Option, none, some, [], ◌∷◌, ◌++◌, subst,
  false, Bool-cases, Option-cases, inl, inr, str_eq, str_eq_iff,
}
use mcp_chain.Statepath.CleanLaws.{IsName, split_slash-NoSlash, join-join}
use mcp_chain.Statepath.Paths.{join, slash, split_slash, step_into}
use mcp_chain.Statepath.Resolve.{
  path, err_home_unset, parent_dir, resolve, dir_name, home_subdir, state_file_name,
}
use mcp_chain.Cli.StatusLaws.{open_store-ok}
use mcp_chain.Store.Errors.{ok}
use mcp_chain.Store.Methods

dir_name-IsName : IsName dir_name
unfolding split_slash step_into str_eq
dir_name-IsName = ((split_slash-NoSlash dir_name).0, λ rooted ws. refl)

home_subdir-IsName : IsName home_subdir
unfolding split_slash step_into str_eq
home_subdir-IsName = ((split_slash-NoSlash home_subdir).0, λ rooted ws. refl)

state_file_name-IsName : IsName state_file_name
unfolding split_slash step_into str_eq
state_file_name-IsName = ((split_slash-NoSlash state_file_name).0, λ rooted ws. refl)

-- The state file's name is appended to the directory.
parent_dir-join :
    (getenv : Bytes → Bytes) (parent : Bytes)
    → parent_dir getenv ≡ some parent
    → join parent state_file_name ≡ parent ++ (slash ∷ state_file_name)
unfolding parent_dir
parent_dir-join getenv parent e =
    let x = getenv (codes "XDG_STATE_HOME") in
    let h = getenv (codes "HOME") in
    elim (Bool-cases (str_eq x [])) [
      | inr set ↦
          let same : join x dir_name ≡ parent = ground arith in
          subst (λ p. join p state_file_name ≡ p ++ (slash ∷ state_file_name)) same
            (join-join x dir_name state_file_name (ne set) dir_name-IsName state_file_name-IsName)
      | inl unset ↦ elim (Bool-cases (str_eq h [])) [
        | inl none_set ↦ absurd (ground arith)
        | inr set ↦
            let same : join h home_subdir ≡ parent = ground arith in
            subst (λ p. join p state_file_name ≡ p ++ (slash ∷ state_file_name)) same
              (join-join h home_subdir state_file_name (ne set) home_subdir-IsName
                state_file_name-IsName)
      ]
    ]
  where
    ne : {s : Bytes} → str_eq s [] ≡ false → s ≢ []
    ne {s} off e = absurd (ground (arith, str_eq_iff s []))

append-cons-ne : (a : Bytes) (b : Bytes) → a ++ (slash ∷ b) ≢ []
append-cons-ne [] b e = cc
append-cons-ne (c ∷ a) b e = cc

-- A path that `Resolve` returns is the directory that it has made without an error, a slash and
-- "state.json", whatever the environment variables hold; and `Open` accepts it.
pub resolve_in_made :
    (getenv : Bytes → Bytes) (mkdir_error : Option Bytes) (p : Bytes)
    → (resolve getenv mkdir_error).1 ≡ path p
    → (parent : Bytes) × ((resolve getenv mkdir_error).0 ≡ some parent)
      × (mkdir_error ≡ none)
      × (p ≡ parent ++ codes "/state.json")
      × (Methods.open_store p ≡ ok p)
unfolding resolve
resolve_in_made getenv mkdir_error p h = elim (Option-cases (parent_dir getenv)) [
  | inl unset ↦ absurd (ground arith)
  | inr (parent, e) ↦ elim (Option-cases mkdir_error) [
    | inr (text, failing) ↦ absurd (ground arith)
    | inl fine ↦
        let joined : join parent state_file_name ≡ p = ground arith in
        let whole = sym joined ∙ parent_dir-join getenv parent e in
        (
          parent,
          ground arith,
          fine,
          whole,
          open_store-ok p (λ e. append-cons-ne parent state_file_name (sym whole ∙ e)),
        )
  ]
]

-- `Resolve` gives ErrHomeUnset just where both variables are unset or empty.
pub resolve_home_unset :
    (getenv : Bytes → Bytes) (mkdir_error : Option Bytes)
    → ((resolve getenv mkdir_error).1 ≡ err_home_unset)
      ↔ ((getenv (codes "XDG_STATE_HOME") ≡ []) × (getenv (codes "HOME") ≡ []))
unfolding resolve parent_dir
resolve_home_unset getenv mkdir_error =
    ground (
      arith,
      str_eq_iff (getenv (codes "XDG_STATE_HOME")) [],
      str_eq_iff (getenv (codes "HOME")) [],
    )
