-- ===== src/Json/Print.antt =====
-- The objects of `json.MarshalIndent(s, "", "  ")` (internal/store/store.go). A printer writes its text in
-- front of what follows.
use mcp_chain.Base.{ℕ, zero, suc, ◌+◌, ◌*◌, Bytes, List, [], ◌∷◌, ◌++◌}
use mcp_chain.Json.Number.{decimal}
use mcp_chain.Json.Quote.{escape}

abbrev pub Printer : Type 0
Printer = Bytes → Bytes

unfoldable pub spaces : ℕ → Printer
spaces zero out = out
spaces (suc n) out = 32 ∷ spaces n out

abbrev pub print_string : Bytes → Printer
print_string s out = b'"' ∷ (escape s ++ (b'"' ∷ out))

abbrev pub print_uint : ℕ → Printer
print_uint u out = decimal u ++ out

abbrev pub print_null : Printer
print_null out = b'n' ∷ b'u' ∷ b'l' ∷ b'l' ∷ out

-- A member on a line of its own, within an object at the depth `level`.
unfoldable pub print_member : ℕ → Bytes × Printer → Printer
unfolding spaces
print_member level (key, print) out =
    10 ∷ spaces (2 * (level + 1)) (print_string key (b':' ∷ 32 ∷ print out))

-- The members behind the first one, and the end of the object.
unfoldable pub print_members : ℕ → List (Bytes × Printer) → Printer
unfolding print_member spaces
print_members level [] out = 10 ∷ spaces (2 * level) (b'}' ∷ out)
print_members level (m ∷ ms) out = b',' ∷ print_member level m (print_members level ms out)

unfoldable pub print_object : ℕ → List (Bytes × Printer) → Printer
unfolding print_member print_members
print_object level [] out = b'{' ∷ b'}' ∷ out
print_object level (m ∷ ms) out = b'{' ∷ print_member level m (print_members level ms out)
