-- ===== src/Statepath/Paths.antt =====
-- `filepath.Join` and `filepath.Clean` on Unix, as internal/statepath/resolve.go uses them.
use mcp_chain.Base.{
  ℕ, Bytes, codes, Bool, true, false, List, [], ◌∷◌, ◌++◌, ◌||◌, ◌==◌, if◌then◌else◌, str_eq,
}

abbrev pub slash : ℕ
slash = 47

abbrev pub dot_dot : Bytes
dot_dot = codes ".."

abbrev pub first_grows : ℕ → List Bytes → List Bytes
first_grows c [] = (c ∷ []) ∷ []
first_grows c (w ∷ ws) = (c ∷ w) ∷ ws

-- The parts of a path between its slashes.
unfoldable pub split_slash : Bytes → List Bytes
split_slash [] = [] ∷ []
split_slash (c ∷ s) =
    let rest = split_slash s in if c == slash then [] ∷ rest else first_grows c rest

-- `..` takes the last part away; at the root it is dropped, and where there is nothing to take away it
-- stays.
abbrev pub back : Bool → List Bytes → List Bytes
back rooted [] = if rooted then [] else dot_dot ∷ []
back rooted (w ∷ ws) = if str_eq w dot_dot then dot_dot ∷ w ∷ ws else ws

-- One part, with the parts that are kept so far, the last first.
unfoldable pub step_into : Bool → List Bytes → Bytes → List Bytes
step_into rooted ws w =
    if str_eq w [] || str_eq w (codes ".")
    then ws
    else if str_eq w dot_dot
    then back rooted ws
    else w ∷ ws

unfoldable pub walk : Bool → List Bytes → List Bytes → List Bytes
unfolding step_into
walk rooted ws [] = ws
walk rooted ws (v ∷ vs) = walk rooted (step_into rooted ws v) vs

-- The parts with slashes between them.
unfoldable pub path_text : List Bytes → Bytes
path_text [] = []
path_text (w ∷ []) = w
path_text (w ∷ v ∷ ws) = path_text (v ∷ ws) ++ (slash ∷ w)

abbrev pub is_rooted : Bytes → Bool
is_rooted [] = false
is_rooted (c ∷ s) = c == slash

abbrev pub rendered : Bool → List Bytes → Bytes
rendered true ws = slash ∷ path_text ws
rendered false [] = codes "."
rendered false (w ∷ ws) = path_text (w ∷ ws)

-- `filepath.Clean`.
unfoldable pub clean : Bytes → Bytes
unfolding walk split_slash path_text
clean path = rendered (is_rooted path) (walk (is_rooted path) [] (split_slash path))

-- `filepath.Join` of two elements.
unfoldable pub join : Bytes → Bytes → Bytes
unfolding clean
join [] [] = []
join [] (c ∷ b) = clean (c ∷ b)
join (c ∷ a) b = clean ((c ∷ a) ++ (slash ∷ b))
