-- ===== src/Cli/Table.antt =====
-- internal/cli/format/table.go: the table of `mcp-chain list`, as the text that is handed to the
-- tabwriter.
use mcp_chain.Base.{
  ℕ, Bytes, codes, Bool, not, List, [], ◌∷◌, ◌++◌, Option, none, some, length, take, leb, ltb, ◌==◌,
  ◌-◌, if◌then◌else◌, str_lt,
}
use mcp_chain.Cli.Output.{Piece, text, newline}
use mcp_chain.Clock.Format.{format_rfc3339}
use mcp_chain.Store.Schema.{ExportedRecord, Time}

-- `conditionMaxWidth`.
abbrev pub condition_max_width : ℕ
condition_max_width = 48

-- The function that `WriteTable` gives to `sort.SliceStable`.
unfoldable pub less : ExportedRecord → ExportedRecord → Bool
less a b =
    if not (a.created_at == b.created_at) then ltb a.created_at b.created_at else str_lt a.id b.id

-- An element goes before the first one that is not less than it.
unfoldable pub insert_stable : ExportedRecord → List ExportedRecord → List ExportedRecord
insert_stable r [] = r ∷ []
insert_stable r (x ∷ xs) =
    let rest = insert_stable r xs in if less x r then x ∷ rest else r ∷ x ∷ xs

-- `sort.SliceStable`: elements that are equal in the order keep their order.
unfoldable pub slice_stable : List ExportedRecord → List ExportedRecord
unfolding insert_stable
slice_stable [] = []
slice_stable (r ∷ rs) = insert_stable r (slice_stable rs)

-- `truncate`.
unfoldable pub truncate : Bytes → ℕ → Bytes
truncate s max =
    if leb (length s) max
    then s
    else if ltb max 3
    then take max s
    else take (max - 3) s ++ codes "..."

-- `formatResolvedAt`.
unfoldable pub format_resolved_at : Option Time → Piece
format_resolved_at none = text (codes "-")
format_resolved_at (some t) = text (format_rfc3339 t)

abbrev tab : Piece
tab = text (codes "\t")

-- One `fmt.Fprintf` of the loop.
unfoldable pub row : ExportedRecord → List Piece
unfolding truncate format_resolved_at
row r =
    text r.id
    ∷ tab
    ∷ text r.status
    ∷ tab
    ∷ text (truncate r.condition condition_max_width)
    ∷ tab
    ∷ text (format_rfc3339 r.created_at)
    ∷ tab
    ∷ format_resolved_at r.resolved_at
    ∷ newline
    ∷ []

unfoldable pub rows : List ExportedRecord → List Piece
unfolding row
rows [] = []
rows (r ∷ rs) = row r ++ rows rs

abbrev pub header : Piece
header = text (codes "ID\tSTATUS\tCONDITION\tCREATED\tRESOLVED\n")

-- `WriteTable` up to the `Flush`.
unfoldable pub write_table : List ExportedRecord → List Piece
unfolding slice_stable rows
write_table [] = []
write_table (r ∷ rs) = header ∷ rows (slice_stable (r ∷ rs))
