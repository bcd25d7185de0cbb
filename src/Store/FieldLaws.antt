-- ===== src/Store/FieldLaws.antt =====
-- Lemmas on the field names that `json.MarshalIndent` writes and `json.Unmarshal` looks up
-- (internal/store/schema.go).
use mcp_chain.Base.{◌≡◌, ap, Bytes, codes, some, Option, ℕ}
use mcp_chain.Json.Fold.{names_field, fold_from}
use mcp_chain.Json.Quote.{escape, unquote}
use mcp_chain.Json.QuoteLaws.{unquote-escape}
use mcp_chain.Json.QuoteScan.{IsUtf8}
use mcp_chain.Json.Scan.{Value, quoted}
use mcp_chain.Store.Marshal.{TimeText}
use mcp_chain.Store.Disk.{Decoded}
use mcp_chain.Store.Schema.{Record, Time}
use mcp_chain.Store.Unmarshal.{
  set_member, set_part, into_string, into_time, into_pointer, into_uint, into_map,
}
use mcp_chain.Base.Chain.{◌>>=◌}
use mcp_chain.Base.GoMap.{GoMap}

module _ (times : TimeText) where
  module _ (r : Record) (s : Bytes) (u : IsUtf8 0 s) where
    pub set-id :
        set_member times (unquote (escape (codes "id"))) (quoted (escape s)) r
        ≡ some (record r { id = s })
    unfolding set_member names_field fold_from unquote escape into_string
    set-id = ap (λ t. some (record r { id = t })) (unquote-escape s u)

    pub set-condition :
        set_member times (unquote (escape (codes "condition"))) (quoted (escape s)) r
        ≡ some (record r { condition = s })
    unfolding set_member names_field fold_from unquote escape into_string
    set-condition = ap (λ t. some (record r { condition = t })) (unquote-escape s u)

    pub set-status :
        set_member times (unquote (escape (codes "status"))) (quoted (escape s)) r
        ≡ some (record r { status = s })
    unfolding set_member names_field fold_from unquote escape into_string
    set-status = ap (λ t. some (record r { status = t })) (unquote-escape s u)

    pub set-owner_token :
        set_member times (unquote (escape (codes "owner_token"))) (quoted (escape s)) r
        ≡ some (record r { owner_token = s })
    unfolding set_member names_field fold_from unquote escape into_string
    set-owner_token = ap (λ t. some (record r { owner_token = t })) (unquote-escape s u)

  module _ (r : Record) (v : Value) where
    pub set-created_at :
        (t : Time)
        → into_time times r.created_at v ≡ some t
        → set_member times (unquote (escape (codes "created_at"))) v r
          ≡ some (record r { created_at = t })
    unfolding set_member names_field fold_from unquote escape
    set-created_at t e = ap (λ x. x >>= (λ y. some (record r { created_at = y }))) e

    pub set-resolved_at :
        (t : Option Time)
        → into_pointer times v ≡ some t
        → set_member times (unquote (escape (codes "resolved_at"))) v r
          ≡ some (record r { resolved_at = t })
    unfolding set_member names_field fold_from unquote escape
    set-resolved_at t e = ap (λ x. x >>= (λ y. some (record r { resolved_at = y }))) e

  module _ (d : Decoded) (v : Value) where
    pub set-version :
        (x : ℕ)
        → into_uint d.version v ≡ some x
        → set_part times (unquote (escape (codes "version"))) v d ≡ some (record d { version = x })
    unfolding set_part names_field fold_from unquote escape
    set-version x e = ap (λ x. x >>= (λ y. some (record d { version = y }))) e

    pub set-counter :
        (x : ℕ)
        → into_uint d.counter v ≡ some x
        → set_part times (unquote (escape (codes "counter"))) v d ≡ some (record d { counter = x })
    unfolding set_part names_field fold_from unquote escape
    set-counter x e = ap (λ x. x >>= (λ y. some (record d { counter = y }))) e

    pub set-records :
        (x : Option (GoMap Record))
        → into_map times d.records v ≡ some x
        → set_part times (unquote (escape (codes "records"))) v d ≡ some (record d { records = x })
    unfolding set_part names_field fold_from unquote escape
    set-records x e = ap (λ x. x >>= (λ y. some (record d { records = y }))) e
