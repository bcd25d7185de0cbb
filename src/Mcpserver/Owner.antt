-- ===== src/Mcpserver/Owner.antt =====
-- internal/mcpserver/owner.go: the token that a server process stamps on the records it registers.
use mcp_chain.Base.{◌<◌, ℕ, ◌*◌, ◌/◌, ◌%◌, ◌≡◌, refl, ap, [], ◌∷◌, arith, length, All, Bytes}
use mcp_chain.Idgen.Hex.{
  hex_digit, digit_value, digit_value-hex_digit, IsHexDigit, hex_digit-IsHexDigit,
}
use mcp_chain.Store.Errors.{Result, ok, err}

-- `hex.EncodeToString`: two digits for each byte.
unfoldable pub encode_to_string : Bytes → Bytes
encode_to_string [] = []
encode_to_string (b ∷ src) = hex_digit (b / 16) ∷ hex_digit (b % 16) ∷ encode_to_string src

-- `NewOwnerToken`, from what `rand.Read(buf[:])` returns: the sixteen bytes of `buf`, or its error.
unfoldable pub new_owner_token : Result Bytes → Result Bytes
unfolding encode_to_string
new_owner_token (err e) = err e
new_owner_token (ok buf) = ok (encode_to_string buf)

abbrev pub IsByte : ℕ → Type 0
IsByte b = b < 256

digits_eq : (x y : ℕ) → x < 16 → y < 16 → hex_digit x ≡ hex_digit y → x ≡ y
digits_eq x y hx hy e =
    omega (arith, digit_value-hex_digit x hx, digit_value-hex_digit y hy, ap digit_value e)

length-encode_to_string : (src : Bytes) → length (encode_to_string src) ≡ 2 * length src
unfolding encode_to_string
length-encode_to_string [] = omega arith
length-encode_to_string (b ∷ src) = omega (arith, length-encode_to_string src)

encode_to_string-IsHexDigit : (src : Bytes) → All IsByte src → All IsHexDigit (encode_to_string src)
unfolding encode_to_string
encode_to_string-IsHexDigit [] h = tt
encode_to_string-IsHexDigit (b ∷ src) h = (
  hex_digit-IsHexDigit (b / 16) (omega arith),
  (hex_digit-IsHexDigit (b % 16) (omega arith), encode_to_string-IsHexDigit src h.1),
)

encode_to_string-injective :
    (s t : Bytes) → All IsByte s → All IsByte t → encode_to_string s ≡ encode_to_string t → s ≡ t
unfolding encode_to_string
encode_to_string-injective [] [] hs ht e = refl
encode_to_string-injective [] (c ∷ t) hs ht e = cc
encode_to_string-injective (b ∷ s) [] hs ht e = cc
encode_to_string-injective (b ∷ s) (c ∷ t) hs ht e =
    let high = digits_eq (b / 16) (c / 16) (omega arith) (omega arith) (cc) in
    let low = digits_eq (b % 16) (c % 16) (omega arith) (omega arith) (cc) in
    let rest = encode_to_string-injective s t hs.1 ht.1 (cc) in let same : b ≡ c = omega arith in cc

-- From sixteen random bytes the token has 32 hexadecimal digits, and different random bytes give
-- different tokens.
pub new_owner_token_lem :
    (buf : Bytes)
    → All IsByte buf
    → length buf ≡ 16
    → (token : Bytes) × (new_owner_token (ok buf) ≡ ok token)
      × (length token ≡ 32)
      × All IsHexDigit token
      × ((other : Bytes) → All IsByte other → new_owner_token (ok other) ≡ ok token → other ≡ buf)
unfolding new_owner_token
new_owner_token_lem buf h n = (
  encode_to_string buf,
  refl,
  omega (arith, length-encode_to_string buf),
  encode_to_string-IsHexDigit buf h,
  λ other ho e. encode_to_string-injective other buf ho h (cc),
)
