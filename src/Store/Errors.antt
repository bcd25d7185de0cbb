-- ===== src/Store/Errors.antt =====
-- internal/store/errors.go, and the errors that the methods build with `errors.New` and
-- `fmt.Errorf`. An error is the sentinel that it wraps and the values that its message shows; the
-- message's text is not rendered.
use mcp_chain.Base.{
  ◌≡◌, refl, ◌⊎◌, inl, inr, ℕ, Bool, false, Option, none, some, Bytes, ◌==◌, ◌⊎◌, ◌≡◌, inr, inl,
}

pub data Sentinel : Type 0 where
  err_unknown_id err_already_resolved err_not_owner err_schema_version : Sentinel
  err_corrupt_json err_purge_arg_required err_id_taken err_invalid_id : Sentinel

-- The calls outside the package whose errors are passed on with a context.
pub data Call : Type 0 where
  acquire_exclusive acquire_shared release_exclusive release_shared read write marshal : Call
  create_temp write_temp sync_temp close_temp chmod_temp rename : Call

pub data GoError : Type 0 where
  -- A sentinel as it is.
  sentinel : Sentinel → GoError
  -- `%w: length %d (must be 1–64)` of ErrInvalidID.
  invalid_length : ℕ → GoError
  -- `%w: %q (byte %d: %q)` of ErrInvalidID: the id, the position and the byte.
  invalid_byte : Bytes → ℕ → ℕ → GoError
  -- `%w: %q` of ErrIDTaken.
  id_taken : Bytes → GoError
  -- `%w: %s: %v (back up and remove to reset)` of ErrCorruptJSON.
  corrupt_json : GoError
  -- `%w: got version %d, want %d (file: %s)` of ErrSchemaVersion.
  schema_version : ℕ → ℕ → GoError
  -- `Open requires non-empty path`.
  empty_path : GoError
  -- An error of the operating system or of a library, by its text.
  failed : Call → Bytes → GoError

-- A value, or the error that was returned in its place.
pub data Result {ℓ} (A : Type ℓ) : Type ℓ where
  ok : A → Result A
  err : GoError → Result A

infixl 5 ◌>>=◌
abbrev pub ◌>>=◌ {ℓ κ} : {A : Type ℓ} {B : Type κ} → Result A → (A → Result B) → Result B
ok a >>= f = f a
err e >>= f = err e

pub Result-cases {ℓ} :
    {A : Type ℓ} (r : Result A) → ((e : GoError) × (r ≡ err e)) ⊎ ((a : A) × (r ≡ ok a))
Result-cases (ok a) = inr (a, refl)
Result-cases (err e) = inl (e, refl)

-- The sentinel at the end of the chain of `%w`.
unfoldable pub unwrap : GoError → Option Sentinel
unwrap (sentinel s) = some s
unwrap (invalid_length n) = some err_invalid_id
unwrap (invalid_byte id i c) = some err_invalid_id
unwrap (id_taken id) = some err_id_taken
unwrap corrupt_json = some err_corrupt_json
unwrap (schema_version got want) = some err_schema_version
unwrap empty_path = none
unwrap (failed call text) = none

-- Sentinels are pointers, each to a value of its own: this numbers them.
abbrev pub address : Sentinel → ℕ
address err_unknown_id = 0
address err_already_resolved = 1
address err_not_owner = 2
address err_schema_version = 3
address err_corrupt_json = 4
address err_purge_arg_required = 5
address err_id_taken = 6
address err_invalid_id = 7

-- `errors.Is(err, target)`.
unfoldable pub errors_is : GoError → Sentinel → Bool
unfolding unwrap
errors_is e target = elim (unwrap e) [ none ↦ false | some s ↦ address s == address target ]
