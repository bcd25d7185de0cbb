-- ===== src/Store/Joins.antt =====
-- A Go map that is built from the entries of a document in the order of their keys.
use mcp_chain.Base.{
  ◌≡◌, refl, arith, Bytes, true, [], ◌∷◌, ◌++◌, All, str_lt, str_lt_trans, str_lt_irrefl, str_lt-ne,
  All-append,
}
use mcp_chain.Base.GoMap.{GoMap, Above, insert}
use mcp_chain.Store.Schema.{Record}

-- Every key of the map comes before `k`.
abbrev Precede : GoMap Record → Bytes → Type 0
Precede m k = All (λ e. str_lt e.0 k ≡ true) m

pub insert-append :
    (k : Bytes) (r : Record) (m : GoMap Record) → Precede m k → insert k r m ≡ m ++ ((k, r) ∷ [])
unfolding insert
insert-append k r [] h = refl
insert-append k r ((j, w) ∷ m) (lt, h) =
    ground (arith, str_lt-ne j k lt, str_lt_trans j k j lt, str_lt_irrefl j, insert-append k r m h)

Precede-trans : (m : GoMap Record) (k j : Bytes) → Precede m k → str_lt k j ≡ true → Precede m j
Precede-trans [] k j h lt = tt
Precede-trans ((i, r) ∷ m) k j (hi, h) lt = (str_lt_trans i k j hi lt, Precede-trans m k j h lt)

-- The keys of `m` come before those of the sorted map `m'`.
abbrev pub Joins : GoMap Record → GoMap Record → Type 0
Joins m [] = Unit
Joins m ((k, r) ∷ m') = Precede m k

pub Joins-nil : (m : GoMap Record) → Joins [] m
Joins-nil [] = tt
Joins-nil ((k, r) ∷ m) = tt

pub Joins-next :
    (m m' : GoMap Record) (k : Bytes) (r : Record)
    → Joins m ((k, r) ∷ m')
    → Above k m'
    → Joins (m ++ ((k, r) ∷ [])) m'
Joins-next m [] k r h above = tt
Joins-next m ((j, w) ∷ m') k r h above =
    All-append (λ e. str_lt e.0 j ≡ true) m ((k, r) ∷ []) (Precede-trans m k j h above) (above, tt)
