-- ===== src/Json.antt =====
-- The part of `encoding/json` that internal/store/store.go uses for the state file: `json.Unmarshal`
-- of an object and `json.MarshalIndent`.
pub mod Scan
pub mod Quote
pub mod QuoteScan
pub mod QuoteGives
pub mod QuoteLaws
pub mod Number
pub mod NumberLaws
pub mod Print
pub mod Fold
pub mod PrintLaws
pub mod AppendLaws
pub mod CutLaws
pub mod CutText
