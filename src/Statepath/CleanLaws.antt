-- ===== src/Statepath/CleanLaws.antt =====
-- Lemmas on cleaned and joined paths (internal/statepath/resolve.go).
use mcp_chain.Base.{
  ℕ, ◌≡◌, ◌≢◌, refl, ap, ◌∙◌, arith, Bytes, Bool, true, false, List, [], ◌∷◌, ◌++◌, ◌==◌, All,
  Bool-cases, inl, inr, str_eq, subst,
}
use mcp_chain.Statepath.Paths.{
  slash, dot_dot, first_grows, split_slash, back, step_into, walk, path_text, rendered, clean, join,
}

abbrev pub NoSlash : Bytes → Type 0
NoSlash = All (λ c. (c == slash) ≡ false)

NoSlash-first_grows :
    (c : ℕ) (ws : List Bytes)
    → (c == slash) ≡ false
    → All NoSlash ws
    → All NoSlash (first_grows c ws)
NoSlash-first_grows c [] p h = ((p, tt), tt)
NoSlash-first_grows c (w ∷ ws) p h = ((p, h.0), h.1)

pub split_slash-NoSlash : (s : Bytes) → All NoSlash (split_slash s)
unfolding split_slash
split_slash-NoSlash [] = (tt, tt)
split_slash-NoSlash (c ∷ s) = elim (Bool-cases (c == slash)) [
  | inl y ↦ rw y (tt, split_slash-NoSlash s)
  | inr n ↦ rw n (NoSlash-first_grows c (split_slash s) n (split_slash-NoSlash s))
]

split_slash-cons : (s : Bytes) → (w : Bytes) × (ws : List Bytes) × (split_slash s ≡ w ∷ ws)
unfolding split_slash
split_slash-cons [] = ([], [], refl)
split_slash-cons (c ∷ s) =
    let (w, ws, e) = split_slash-cons s in
    elim (Bool-cases (c == slash)) [
      | inl y ↦ ([], split_slash s, rw y refl)
      | inr n ↦ (c ∷ w, ws, rw (n, e) refl)
    ]

first_grows-append :
    (c : ℕ) (s : Bytes) (vs : List Bytes)
    → first_grows c (split_slash s ++ vs) ≡ first_grows c (split_slash s) ++ vs
first_grows-append c s vs = let (w, ws, e) = split_slash-cons s in rw e refl

split_slash-append : (a b : Bytes) → split_slash (a ++ (slash ∷ b)) ≡ split_slash a ++ split_slash b
unfolding split_slash
split_slash-append [] b = refl
split_slash-append (c ∷ a) b = elim (Bool-cases (c == slash)) [
  | inl y ↦ rw (y, split_slash-append a b) refl
  | inr n ↦ rw (n, split_slash-append a b) (first_grows-append c a (split_slash b))
]

split_slash_one : (w : Bytes) → NoSlash w → split_slash w ≡ w ∷ []
unfolding split_slash
split_slash_one [] h = refl
split_slash_one (c ∷ w) h = rw (h.0, split_slash_one w h.1) refl

walk-append :
    (rooted : Bool) (ws vs us : List Bytes)
    → walk rooted ws (vs ++ us) ≡ walk rooted (walk rooted ws vs) us
unfolding walk
walk-append rooted ws [] us = refl
walk-append rooted ws (v ∷ vs) us = walk-append rooted (step_into rooted ws v) vs us

-- Each part is one that a walk keeps.
abbrev pub IsKept : Bool → List Bytes → Type 0
IsKept rooted [] = Unit
IsKept rooted (w ∷ ws) = (step_into rooted ws w ≡ w ∷ ws) × NoSlash w × IsKept rooted ws

back-IsKept : (rooted : Bool) (ws : List Bytes) → IsKept rooted ws → IsKept rooted (back rooted ws)
unfolding step_into str_eq
back-IsKept true [] k = tt
back-IsKept false [] k = (refl, (refl, (refl, tt)), tt)
back-IsKept rooted (w ∷ ws) k = elim (Bool-cases (str_eq w dot_dot)) [
  | inl y ↦ rw y (rw y refl, (refl, (refl, tt)), k)
  | inr n ↦ rw n k.2
]

step_into-IsKept :
    (rooted : Bool) (ws : List Bytes) (w : Bytes)
    → NoSlash w
    → IsKept rooted ws
    → IsKept rooted (step_into rooted ws w)
unfolding step_into
step_into-IsKept rooted ws w n k = ground (arith, back-IsKept rooted ws k)

walk-IsKept :
    (rooted : Bool) (ws vs : List Bytes)
    → All NoSlash vs
    → IsKept rooted ws
    → IsKept rooted (walk rooted ws vs)
unfolding walk
walk-IsKept rooted ws [] n k = k
walk-IsKept rooted ws (v ∷ vs) n k =
    walk-IsKept rooted (step_into rooted ws v) vs n.1 (step_into-IsKept rooted ws v n.0 k)

-- Walking the text of kept parts finds them again.
walk-path_text :
    (rooted : Bool) (w : Bytes) (ws : List Bytes)
    → IsKept rooted (w ∷ ws)
    → walk rooted [] (split_slash (path_text (w ∷ ws))) ≡ w ∷ ws
unfolding walk path_text
walk-path_text rooted w [] k = rw (split_slash_one w k.1, k.0) refl
walk-path_text rooted w (v ∷ ws) k =
    rw
      (
        split_slash-append (path_text (v ∷ ws)) w,
        split_slash_one w k.1,
        walk-append rooted [] (split_slash (path_text (v ∷ ws))) (w ∷ []),
        walk-path_text rooted v ws k.2,
        k.0,
      )
      refl

path_text-cons :
    (rooted : Bool) (w : Bytes) (ws : List Bytes)
    → IsKept rooted (w ∷ ws)
    → (c : ℕ) × (s : Bytes) × (path_text (w ∷ ws) ≡ c ∷ s) × ((c == slash) ≡ false)
unfolding path_text step_into str_eq
path_text-cons rooted [] [] k = let e = k.0 in absurd (cc)
path_text-cons rooted (c ∷ s) [] k = (c, s, refl, k.1.0)
path_text-cons rooted w (v ∷ ws) k =
    let (c, s, e, off) = path_text-cons rooted v ws k.2 in
    (c, s ++ (slash ∷ w), ap (λ t. t ++ (slash ∷ w)) e, off)

-- A part that every walk keeps.
abbrev pub IsName : Bytes → Type 0
IsName n = NoSlash n × ((rooted : Bool) (ws : List Bytes) → step_into rooted ws n ≡ n ∷ ws)

join_name :
    (c : ℕ) (a n : Bytes)
    → IsName n
    → join (c ∷ a) n ≡ rendered (c == slash) (n ∷ walk (c == slash) [] (split_slash (c ∷ a)))
unfolding join clean walk
join_name c a n name =
    let parts = split_slash-append (c ∷ a) n in
    let walked = walk-append (c == slash) [] (split_slash (c ∷ a)) (n ∷ []) in
    rw
      (
        parts,
        split_slash_one n name.0,
        walked,
        name.1 (c == slash) (walk (c == slash) [] (split_slash (c ∷ a))),
      )
      refl

join_kept :
    (rooted : Bool) (c : ℕ) (a n : Bytes) (ws : List Bytes)
    → (c == slash) ≡ rooted
    → walk rooted [] (split_slash (c ∷ a)) ≡ ws
    → IsName n
    → join (c ∷ a) n ≡ rendered rooted (n ∷ ws)
join_kept rooted c a n ws root again name = join_name c a n name ∙ (rw (root, again) refl)

-- A name joined to a clean path is appended to it.
join-rendered :
    (rooted : Bool) (w : Bytes) (ws : List Bytes) (n : Bytes)
    → IsKept rooted (w ∷ ws)
    → IsName n
    → join (rendered rooted (w ∷ ws)) n ≡ rendered rooted (w ∷ ws) ++ (slash ∷ n)
unfolding path_text split_slash walk step_into str_eq
join-rendered true w ws n k name =
    join_name slash (path_text (w ∷ ws)) n name
    ∙ ap (λ v. rendered true (n ∷ v)) (walk-path_text true w ws k)
join-rendered false w ws n k name =
    let (c, s, e, off) = path_text-cons false w ws k in
    let again : walk false [] (split_slash (c ∷ s)) ≡ w ∷ ws =
      subst (λ t. walk false [] (split_slash t) ≡ w ∷ ws) e (walk-path_text false w ws k) in
    ap (λ t. join t n) e ∙ join_kept false c s n (w ∷ ws) off again name

-- Joining two names, one after the other, appends the second to what the first has given.
pub join-join :
    (x n m : Bytes) → x ≢ [] → IsName n → IsName m → join (join x n) m ≡ join x n ++ (slash ∷ m)
join-join [] n m ne name1 name2 = absurd (ne refl)
join-join (c ∷ a) n m ne name1 name2 =
    let rooted = c == slash in
    let ws = walk rooted [] (split_slash (c ∷ a)) in
    let kept : IsKept rooted ws =
      walk-IsKept rooted [] (split_slash (c ∷ a)) (split_slash-NoSlash (c ∷ a)) tt in
    rw (join_name c a n name1)
      (join-rendered rooted n ws m (name1.1 rooted ws, name1.0, kept) name2)
