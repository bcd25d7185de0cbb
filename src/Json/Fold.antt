-- ===== src/Json/Fold.antt =====
-- How `encoding/json` matches the key of an object with the name of a field (internal/store/schema.go):
-- `foldName`. Every other character folds to one that is in no name of a field.
use mcp_chain.Base.{
  ℕ, zero, suc, ◌-◌, Bytes, Bool, [], ◌∷◌, ◌&&◌, ◌==◌, leb, get_or, str_eq, if◌then◌else◌,
}

-- What a character folds to, and how many further bytes it has: U+017F folds to `S` and U+212A to `K`.
unfoldable pub fold_front : ℕ → Bytes → ℕ × ℕ
fold_front c s =
    if (c == 197) && (get_or s 0 0 == 191)
    then (b'S', 1)
    else if (c == 226) && ((get_or s 0 0 == 132) && (get_or s 1 0 == 170))
    then (b'K', 2)
    else if leb b'a' c && leb c b'z'
    then (c - 32, 0)
    else (c, 0)

-- The name, whose first `k` bytes belong to a character that is folded already.
unfoldable pub fold_from : ℕ → Bytes → Bytes
unfolding fold_front
fold_from k [] = []
fold_from (suc k) (c ∷ s) = fold_from k s
fold_from zero (c ∷ s) = (fold_front c s).0 ∷ fold_from (fold_front c s).1 s

-- The key names the field, exactly or up to case.
unfoldable pub names_field : Bytes → Bytes → Bool
unfolding fold_from str_eq
names_field key field = str_eq (fold_from 0 key) (fold_from 0 field)
