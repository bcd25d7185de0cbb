-- ===== src/Tests/Statepath.antt =====
-- The place of the state file, for concrete environment variables.
use mcp_chain.Base.{
  ◌≡◌, refl, codes, Bytes, Option, some, none, [], ◌++◌, ◌↔◌, str_eq, if◌then◌else◌,
}
use mcp_chain.Statepath.Paths.{clean, join, split_slash, walk, step_into, path_text}
use mcp_chain.Statepath.Resolve.{resolve, parent_dir, path, err_home_unset}
use mcp_chain.Statepath.ResolveLaws.{resolve_in_made, resolve_home_unset}
use mcp_chain.Store.Errors.{ok}
use mcp_chain.Store.Methods

cleaned : clean (codes "/a/./b//../c/../../..") ≡ codes "/"
unfolding clean split_slash walk step_into path_text str_eq
cleaned = refl

cleaned_relative : clean (codes "../a/./b/../c/") ≡ codes "../a/c"
unfolding clean split_slash walk step_into path_text str_eq
cleaned_relative = refl

cleaned_empty : clean (codes "a/..") ≡ codes "."
unfolding clean split_slash walk step_into path_text str_eq
cleaned_empty = refl

-- Only HOME is set.
abbrev at_home : Bytes → Bytes
at_home name = if str_eq name (codes "HOME") then codes "/home/u/" else []

home_path : (resolve at_home none).1 ≡ path (codes "/home/u/.mcp-chain/state.json")
unfolding resolve parent_dir join clean split_slash walk step_into path_text str_eq
home_path = refl

resolve_in_made_example :
    (parent : Bytes) × ((resolve at_home none).0 ≡ some parent)
    × (◌≡◌ {A = Option Bytes} none none)
    × (codes "/home/u/.mcp-chain/state.json" ≡ parent ++ codes "/state.json")
    × (Methods.open_store (codes "/home/u/.mcp-chain/state.json")
        ≡ ok (codes "/home/u/.mcp-chain/state.json"))
resolve_in_made_example =
    resolve_in_made at_home none (codes "/home/u/.mcp-chain/state.json") home_path

resolve_home_unset_example :
    ((resolve at_home none).1 ≡ err_home_unset)
    ↔ ((at_home (codes "XDG_STATE_HOME") ≡ []) × (at_home (codes "HOME") ≡ []))
resolve_home_unset_example = resolve_home_unset at_home none
