-- ===== src/Json/Number.antt =====
-- The unsigned numbers of `encoding/json` (internal/store/store.go): `strconv.AppendUint` and
-- `strconv.ParseUint`, both in base 10 for 64 bits. Twenty digits are enough for 64 bits, so nineteen
-- rounds of fuel are.
use mcp_chain.Base.{
  ℕ, zero, suc, ◌+◌, ◌-◌, ◌*◌, ◌/◌, ◌%◌, ◌^◌, Bytes, true, false, Option, none, some, [], ◌∷◌, ltb,
  not, if◌then◌else◌,
}
use mcp_chain.Json.Scan.{is_digit}

-- `for us >= 10 { buf[i] = '0' + us%10; us /= 10 }` and the last digit.
unfoldable pub decimal_loop : ℕ → ℕ → Bytes → Bytes
decimal_loop zero u out = (b'0' + u % 10) ∷ out
decimal_loop (suc f) u out = elim (ltb u 10) [
  | true ↦ (b'0' + u) ∷ out
  | false ↦ decimal_loop f (u / 10) ((b'0' + u % 10) ∷ out)
]

-- `strconv.AppendUint(b, u, 10)`.
unfoldable pub decimal : ℕ → Bytes
unfolding decimal_loop
decimal u = decimal_loop 19 u []

unfoldable pub parse_digits : Bytes → ℕ → Option ℕ
parse_digits [] n = some n
parse_digits (c ∷ s) n =
    let m = n * 10 + (c - b'0') in
    let rest = parse_digits s m in
    if not (is_digit c) then none else if ltb m (2 ^ 64) then rest else none

-- `strconv.ParseUint(s, 10, 64)`.
unfoldable pub parse_uint : Bytes → Option ℕ
unfolding parse_digits
parse_uint [] = none
parse_uint (c ∷ s) = parse_digits (c ∷ s) 0
