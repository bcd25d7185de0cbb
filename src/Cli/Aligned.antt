-- ===== src/Cli/Aligned.antt =====
-- The columns of the table of `mcp-chain list` (internal/cli/format/table.go).
use mcp_chain.Base.{
  ℕ, suc, zero, ◌+◌, ◌≤◌, ◌≡◌, refl, ap, ◌∙◌, arith, Bytes, codes, true, false, List, [], ◌∷◌, ◌++◌,
  map, append_assoc, All, All-append, Bool-cases, inl, inr, take, leb, length, Option, none, some,
}
use mcp_chain.Cli.TabwriterLaws.{
  Line, IsLine, lines_text, IsCell, is_inner, filled, split_rows-lines_text, done, w1, w2,
  five_cells, five_columns, w3, w4,
}
use mcp_chain.Cli.Table.{
  write_table, rows, row, truncate, format_resolved_at, slice_stable, insert_stable,
  condition_max_width, less,
}
use mcp_chain.Store.Schema.{Time, ExportedRecord}
use mcp_chain.Cli.Tabwriter.{table_text, join_rows, align, blank, flush_all}
use mcp_chain.Clock.Format.{format_rfc3339, clock_reading}
use mcp_chain.Cli.Output.{text}
use mcp_chain.Clock.RoundTrip.{format_rfc3339-IsPlain}
use mcp_chain.Clock.Calendar.{year_zero}
use mcp_chain.Store.Marshal.{is_plain}

-- The lines `ks` of a table with the lines `ls`: each cell but the last is filled with spaces to the width
-- of its column, which is two more than the longest cell of the column has characters.
unfoldable pub aligned : List Line → List Line → Bytes
aligned ls [] = []
aligned ls (k ∷ ks) =
    filled (w1 ls) k.first
    ++ (filled (w2 ls) k.second
        ++ (filled (w3 ls) k.third
            ++ (filled (w4 ls) k.fourth ++ (k.fifth ++ (10 ∷ aligned ls ks)))))

regroup : (a b c d e : Bytes) → (((([] ++ a) ++ b) ++ c) ++ d) ++ e ≡ a ++ (b ++ (c ++ (d ++ e)))
regroup a b c d e = simp append_assoc refl

join_done : (ls ks : List Line) → join_rows (map (done ls) ks ++ (blank false ∷ [])) ≡ aligned ls ks
unfolding join_rows aligned
join_done ls [] = refl
join_done ls (k ∷ []) =
    regroup (filled (w1 ls) k.first) (filled (w2 ls) k.second) (filled (w3 ls) k.third)
      (filled (w4 ls) k.fourth) (k.fifth ++ (10 ∷ []))
join_done ls (k ∷ j ∷ ks) =
    regroup (filled (w1 ls) k.first) (filled (w2 ls) k.second) (filled (w3 ls) k.third)
      (filled (w4 ls) k.fourth)
      (k.fifth ++ (10 ∷ join_rows (map (done ls) (j ∷ ks) ++ (blank false ∷ []))))
    ∙ ap
        (λ out.
          filled (w1 ls) k.first
          ++ (filled (w2 ls) k.second
              ++ (filled (w3 ls) k.third ++ (filled (w4 ls) k.fourth ++ (k.fifth ++ (10 ∷ out))))))
        (join_done ls (j ∷ ks))

align-aligned :
    (l : Line) (ls : List Line)
    → All IsLine (l ∷ ls)
    → align (lines_text (l ∷ ls)) ≡ aligned (l ∷ ls) (l ∷ ls)
unfolding align
align-aligned l ls h =
    rw (split_rows-lines_text (l ∷ ls) h, five_cells l ls)
      (ap join_rows (five_columns (l ∷ ls)) ∙ join_done (l ∷ ls) (l ∷ ls))

abbrev pub header_line : Line
header_line = record {
  first = codes "ID";
  second = codes "STATUS";
  third = codes "CONDITION";
  fourth = codes "CREATED";
  fifth = codes "RESOLVED";
}

abbrev pub resolved_text : Option Time → Bytes
resolved_text none = codes "-"
resolved_text (some t) = format_rfc3339 t

abbrev pub line_of : ExportedRecord → Line
line_of r = record {
  first = r.id;
  second = r.status;
  third = truncate r.condition condition_max_width;
  fourth = format_rfc3339 r.created_at;
  fifth = resolved_text r.resolved_at;
}

format_resolved_at-resolved_text : (t : Option Time) → format_resolved_at t ≡ text (resolved_text t)
unfolding format_resolved_at
format_resolved_at-resolved_text none = refl
format_resolved_at-resolved_text (some t) = refl

rows-lines_text : (rs : List ExportedRecord) → table_text (rows rs) ≡ lines_text (map line_of rs)
unfolding table_text rows row lines_text
rows-lines_text [] = refl
rows-lines_text (r ∷ rs) =
    rw (format_resolved_at-resolved_text r.resolved_at, rows-lines_text rs) refl

-- The times of a record lie in the years 0 to 9999.
abbrev pub InYears : Time → Type 0
InYears t =
    (year_zero ≤ (clock_reading t).date.year) × ((clock_reading t).date.year ≤ year_zero + 9999)

abbrev pub InYearsOption : Option Time → Type 0
InYearsOption none = Unit
InYearsOption (some t) = InYears t

-- A record whose strings have no tab and no end of a line.
pub record IsPlainRecord (r : ExportedRecord) : Type 0 where
  pub id : IsCell r.id
  pub status : IsCell r.status
  pub condition : IsCell r.condition
  pub created_at : InYears r.created_at
  pub resolved_at : InYearsOption r.resolved_at

plain_inner : (c : ℕ) → is_plain c ≡ true → is_inner c ≡ true
plain_inner c h = ground arith

plain-IsCell : (s : Bytes) → All (λ c. is_plain c ≡ true) s → IsCell s
plain-IsCell [] h = tt
plain-IsCell (c ∷ s) (hc, h) = (plain_inner c hc, plain-IsCell s h)

time-IsCell : (t : Time) → InYears t → IsCell (format_rfc3339 t)
time-IsCell t (first, last) = plain-IsCell (format_rfc3339 t) (format_rfc3339-IsPlain t first last)

resolved_text-IsCell : (t : Option Time) → InYearsOption t → IsCell (resolved_text t)
resolved_text-IsCell none h = (refl, tt)
resolved_text-IsCell (some t) h = time-IsCell t h

take-IsCell : (n : ℕ) (s : Bytes) → IsCell s → IsCell (take n s)
take-IsCell zero s h = tt
take-IsCell (suc n) [] h = tt
take-IsCell (suc n) (c ∷ s) (hc, h) = (hc, take-IsCell n s h)

truncate-IsCell : (s : Bytes) → IsCell s → IsCell (truncate s condition_max_width)
unfolding truncate
truncate-IsCell s h = elim (Bool-cases (leb (length s) condition_max_width)) [
  | inl fits ↦ rw fits h
  | inr long ↦ rw long (
      All-append (λ c. is_inner c ≡ true) (take 45 s) (codes "...") (take-IsCell 45 s h)
        (refl, (refl, (refl, tt))))
]

line_of-IsLine : (r : ExportedRecord) → IsPlainRecord r → IsLine (line_of r)
line_of-IsLine r h = record {
  first = h.id;
  second = h.status;
  third = truncate-IsCell r.condition h.condition;
  fourth = time-IsCell r.created_at h.created_at;
  fifth = resolved_text-IsCell r.resolved_at h.resolved_at;
}

insert_stable-All :
    (r : ExportedRecord) (rs : List ExportedRecord)
    → IsPlainRecord r
    → All IsPlainRecord rs
    → All IsPlainRecord (insert_stable r rs)
unfolding insert_stable
insert_stable-All r [] h hs = (h, tt)
insert_stable-All r (x ∷ xs) h (hx, hs) = elim (Bool-cases (less x r)) [
  | inl behind ↦ rw behind (hx, insert_stable-All r xs h hs)
  | inr here ↦ rw here (h, (hx, hs))
]

slice_stable-All :
    (rs : List ExportedRecord) → All IsPlainRecord rs → All IsPlainRecord (slice_stable rs)
unfolding slice_stable
slice_stable-All [] h = tt
slice_stable-All (r ∷ rs) (h, hs) = insert_stable-All r (slice_stable rs) h (slice_stable-All rs hs)

lines-IsLine : (rs : List ExportedRecord) → All IsPlainRecord rs → All IsLine (map line_of rs)
lines-IsLine [] h = tt
lines-IsLine (r ∷ rs) (h, hs) = (line_of-IsLine r h, lines-IsLine rs hs)

header_line-IsLine : IsLine header_line
header_line-IsLine = record {
  first = (refl, (refl, tt));
  second = (refl, (refl, (refl, (refl, (refl, (refl, tt))))));
  third = (refl, (refl, (refl, (refl, (refl, (refl, (refl, (refl, (refl, tt)))))))));
  fourth = (refl, (refl, (refl, (refl, (refl, (refl, (refl, tt)))))));
  fifth = (refl, (refl, (refl, (refl, (refl, (refl, (refl, (refl, tt))))))));
}

write_table-lines_text :
    (r : ExportedRecord) (rs : List ExportedRecord)
    → table_text (write_table (r ∷ rs))
      ≡ lines_text (header_line ∷ map line_of (slice_stable (r ∷ rs)))
unfolding write_table table_text lines_text
write_table-lines_text r rs =
    ap (λ t. codes "ID\tSTATUS\tCONDITION\tCREATED\tRESOLVED\n" ++ t)
      (rows-lines_text (slice_stable (r ∷ rs)))

-- What `mcp-chain list` writes for records that are not none, where no string has a tab or an end of a
-- line and the times lie in the years 0 to 9999: the header, and under it one line for each record in
-- the order of the table, with the condition cut and the times in RFC 3339. Each cell but the last is
-- filled with spaces to the width of its column, so that every column begins at one place.
pub flush_all-write_table :
    (r : ExportedRecord) (rs : List ExportedRecord)
    → All IsPlainRecord (r ∷ rs)
    → let ls = header_line ∷ map line_of (slice_stable (r ∷ rs)) in
      flush_all (write_table (r ∷ rs)) ≡ (text (aligned ls ls) ∷ [], none)
unfolding flush_all
flush_all-write_table r rs h =
    let body = map line_of (slice_stable (r ∷ rs)) in
    ap (λ s. (text (align s) ∷ [], none)) (write_table-lines_text r rs)
    ∙ ap (λ s. (text s ∷ [], none))
        (align-aligned header_line body
          (header_line-IsLine, lines-IsLine (slice_stable (r ∷ rs)) (slice_stable-All (r ∷ rs) h)))
