-- ===== src/Table/Csv/Reading.antt =====
-- A reader of comma separated texts as RFC 4180 describes them, written without the export: cells
-- are parted by commas and records by CR LF, and a quoted cell holds what stands between its
-- quotes, two quotes for one.
use Prim.Native.Char.{Char, code}
use text.Mathlib.TextLemmas.{nil-append, cons-append, append-nil, append_assoc}
use enterprise_platform.Common.{
  String, false, List, [], ◌∷◌, map, filter, ◌≡◌, ◌≢◌, refl, ap, ◌∙◌, sym, arith, if◌then◌else◌,
  nat_eq, ◌⊕◌, join_with, Bool-cases, inl, inr,
}
use enterprise_platform.Table.Values.{Value, Host}
use enterprise_platform.Table.Types.{ColumnDef}
use enterprise_platform.Table.Csv.{
  needs_quote, escaped, csv_cell, formatted, exportable_column, rows_to_csv,
}

-- Where the reader stands: at the start of a cell, in a cell without quotes, behind a CR in one,
-- between quotes, or behind a quote that ends the cell unless another follows.
pub data Place : Type 0 where
  start plain behind_cr quoted behind_quote : Place

abbrev out_of_quotes : Place → Char → Place
out_of_quotes place c =
    if nat_eq (code c) b',' then start else if nat_eq (code c) 13 then behind_cr else place

abbrev next : Place → Char → Place
next start c = if nat_eq (code c) b'"' then quoted else out_of_quotes plain c
next plain c = out_of_quotes plain c
next behind_cr c = if nat_eq (code c) 10 then start else plain
next quoted c = if nat_eq (code c) b'"' then behind_quote else quoted
next behind_quote c = if nat_eq (code c) b'"' then quoted else out_of_quotes plain c

-- A character in front of the first cell of the first record; a first cell; a first record.
abbrev put : Char → List (List String) → List (List String)
put c [] = []
put c ([] ∷ records) = [] ∷ records
put c ((cell ∷ cells) ∷ records) = (String.◌∷◌ c cell ∷ cells) ∷ records

abbrev new_cell : List (List String) → List (List String)
new_cell [] = []
new_cell (cells ∷ records) = ("" ∷ cells) ∷ records

abbrev new_record : List (List String) → List (List String)
new_record records = ("" ∷ []) ∷ records

abbrev add_out : Char → List (List String) → List (List String)
add_out c records =
    if nat_eq (code c) b','
    then new_cell records
    else if nat_eq (code c) 13
    then records
    else put c records

abbrev add : Place → Char → List (List String) → List (List String)
add start c records = if nat_eq (code c) b'"' then records else add_out c records
add plain c records = add_out c records
add behind_cr c records =
    if nat_eq (code c) 10 then new_record records else put "\r" (put c records)
add quoted c records = if nat_eq (code c) b'"' then records else put c records
add behind_quote c records = if nat_eq (code c) b'"' then put c records else add_out c records

-- The records of a text, read from a place.
unfoldable pub read_from : Place → String → List (List String)
read_from place String.[] = new_record []
read_from place (String.◌∷◌ c s) = add place c (read_from (next place c) s)

unfoldable pub read_csv : String → List (List String)
unfolding read_from
read_csv s = read_from start s

abbrev put_all : String → List (List String) → List (List String)
put_all String.[] records = records
put_all (String.◌∷◌ c s) records = put c (put_all s records)

put_all-first :
    (s : String) (cells : List String) (records : List (List String))
    → put_all s (("" ∷ cells) ∷ records) ≡ (s ∷ cells) ∷ records
put_all-first String.[] cells records = refl
put_all-first (String.◌∷◌ c s) cells records = rw (put_all-first s cells records) refl

-- Behind a cell, the rest of a text is read to the same records from each of the places that the
-- end of a cell leads to.
abbrev IsEnd : String → List (List String) → Type 0
IsEnd k records =
    (read_from start k ≡ records)
    × ((read_from plain k ≡ records) × (read_from behind_quote k ≡ records))

unquoted :
    (v k : String) (records : List (List String))
    → needs_quote v ≡ false
    → read_from plain k ≡ records
    → read_from plain (escaped v ⊕ k) ≡ put_all v records
unfolding needs_quote escaped read_from
unquoted String.[] k records h e = rw (nil-append k) e
unquoted (String.◌∷◌ c v) k records h e = elim (Bool-cases (nat_eq (code c) b'"')) [
  | inl q ↦ ground (arith, q, h)
  | inr q ↦ rw (q, cons-append c (escaped v) k) (ground (arith, h, unquoted v k records))
]

-- The first character of an unquoted cell is read as a later one is.
unquoted_cell :
    (v k : String) (records : List (List String))
    → needs_quote v ≡ false
    → IsEnd k records
    → read_from start (escaped v ⊕ k) ≡ put_all v records
unfolding needs_quote escaped read_from
unquoted_cell String.[] k records h e = rw (nil-append k) (e.0)
unquoted_cell (String.◌∷◌ c v) k records h e = elim (Bool-cases (nat_eq (code c) b'"')) [
  | inl q ↦ ground (arith, q, h)
  | inr q ↦
      rw (q, cons-append c (escaped v) k)
        (let rest = unquoted v k records in ground (arith, h, e, q, rest))
]

quoted_cell :
    (v k : String) (records : List (List String))
    → read_from behind_quote k ≡ records
    → read_from quoted (escaped v ⊕ "\"" ⊕ k) ≡ put_all v records
unfolding escaped read_from
quoted_cell String.[] k records e =
    rw (nil-append ("\"" ⊕ k), cons-append "\"" "" k, nil-append k) e
quoted_cell (String.◌∷◌ c v) k records e = elim (Bool-cases (nat_eq (code c) b'"')) [
  | inl q ↦
      rw
        (
          q,
          cons-append c (String.◌∷◌ c (escaped v)) ("\"" ⊕ k),
          cons-append c (escaped v) ("\"" ⊕ k),
        )
        (let rest = quoted_cell v k records e in ground (arith, q, rest))
  | inr q ↦ rw (q, cons-append c (escaped v) ("\"" ⊕ k), q, quoted_cell v k records e) refl
]

read-csv_cell :
    (v k : String) (records : List (List String))
    → IsEnd k records
    → read_from start (csv_cell v ⊕ k) ≡ put_all v records
unfolding csv_cell read_from
read-csv_cell v k records e = elim (Bool-cases (needs_quote v)) [
  | inl q ↦
      rw
        (
          q,
          append_assoc "\"" (escaped v ⊕ "\"") k,
          cons-append "\"" "" ((escaped v ⊕ "\"") ⊕ k),
          nil-append ((escaped v ⊕ "\"") ⊕ k),
          append_assoc (escaped v) "\"" k,
        )
        (quoted_cell v k records e.1.1)
  | inr q ↦ rw q (unquoted_cell v k records q e)
]

-- A record behind which the rest of a text is read to `new_record records`.
read-line :
    (v : String) (vs : List String) (k : String) (records : List (List String))
    → IsEnd k (new_record records)
    → read_from start (join_with "," (map csv_cell (v ∷ vs)) ⊕ k) ≡ (v ∷ vs) ∷ records
unfolding join_with read_from
read-line v [] k records e = read-csv_cell v k (new_record records) e ∙ put_all-first v [] records
read-line v (w ∷ vs) k records e =
    let line = join_with "," (map csv_cell (w ∷ vs)) in
    let comma : "," ⊕ line ⊕ k ≡ String.◌∷◌ "," (line ⊕ k) =
      cons-append "," "" (line ⊕ k) ∙ ap (λ t. String.◌∷◌ "," t) (nil-append (line ⊕ k)) in
    let rest : read_from start (line ⊕ k) ≡ (w ∷ vs) ∷ records = read-line w vs k records e in
    rw (append_assoc (csv_cell v) ("," ⊕ line) k, append_assoc "," line k, comma)
      (read-csv_cell v (String.◌∷◌ "," (line ⊕ k)) (new_cell ((w ∷ vs) ∷ records))
          (ap new_cell rest, (ap new_cell rest, ap new_cell rest))
        ∙ put_all-first v (w ∷ vs) records)

abbrev csv_line : List String → String
csv_line cells = join_with "," (map csv_cell cells)

read-lines :
    (v : String) (vs : List String) (rest : List (String × List String))
    → read_from start (join_with "\r\n" (csv_line (v ∷ vs) ∷ map (λ r. csv_line (r.0 ∷ r.1)) rest))
      ≡ (v ∷ vs) ∷ map (λ r. r.0 ∷ r.1) rest
unfolding join_with read_from
read-lines v vs [] =
    let whole : csv_line (v ∷ vs) ≡ csv_line (v ∷ vs) ⊕ "" = sym (append-nil (csv_line (v ∷ vs))) in
    ap (read_from start) whole ∙ read-line v vs "" [] (refl, (refl, refl))
read-lines v vs ((w, ws) ∷ rest) =
    let more =
      join_with "\r\n"
        (csv_line (w ∷ ws) ∷ map (λ (r : String × List String). csv_line (r.0 ∷ r.1)) rest) in
    let records : List (List String) =
      (w ∷ ws) ∷ map (λ (r : String × List String). r.0 ∷ r.1) rest in
    let break : "\r\n" ⊕ more ≡ String.◌∷◌ "\r" (String.◌∷◌ "\n" more) =
      cons-append "\r" "\n" more
      ∙ ap (λ t. String.◌∷◌ "\r" t)
          (cons-append "\n" "" more ∙ ap (λ t. String.◌∷◌ "\n" t) (nil-append more)) in
    let ended : read_from start more ≡ records = read-lines w ws rest in
    rw break (
      read-line v vs (String.◌∷◌ "\r" (String.◌∷◌ "\n" more)) records
        (ap new_record ended, (ap new_record ended, ap new_record ended)))

map-map {ℓ κ μ} :
    {A : Type ℓ} {B : Type κ} {C : Type μ} (g : B → C) (f : A → B) (xs : List A)
    → map g (map f xs) ≡ map (λ x. g (f x)) xs
map-map g f [] = refl
map-map g f (x ∷ xs) = ap (λ ys. g (f x) ∷ ys) (map-map g f xs)

-- A reader that knows nothing of the export, only RFC 4180, reads back from the exported text the
-- headers of the exported columns and then, row by row, the formatted text of every cell, whatever
-- commas, quotes and line breaks these texts hold, when at least one column is exported.
pub read_csv-rows_to_csv :
    (host : Host) (rows : List Value) (columns : List ColumnDef)
    → filter exportable_column columns ≢ []
    → read_csv (rows_to_csv host rows columns)
      ≡ map (λ (c : ColumnDef). c.header) (filter exportable_column columns)
        ∷ map (λ row. map (formatted host row) (filter exportable_column columns)) rows
unfolding read_csv rows_to_csv
read_csv-rows_to_csv host rows columns some_column =
    elim (filter exportable_column columns)
        as (λ exported.
          exported ≢ []
          → read_from start (
              join_with "\r\n" (
                csv_line (map (λ (c : ColumnDef). c.header) exported)
                ∷ map (λ row. csv_line (map (formatted host row) exported)) rows))
            ≡ map (λ (c : ColumnDef). c.header) exported
              ∷ map (λ row. map (formatted host row) exported) rows) [
                | [] ↦ (λ h. absurd (h refl))
                | c ∷ cs ↦ (λ h.
                    let cells : Value → String × List String =
                      λ row. (formatted host row c, map (formatted host row) cs) in
                    rw
                      (
                        sym (
                            map-map (λ (r : String × List String). csv_line (r.0 ∷ r.1)) cells
                              rows),
                        sym (map-map (λ (r : String × List String). r.0 ∷ r.1) cells rows),
                      )
                      (read-lines c.header (map (λ (c : ColumnDef). c.header) cs) (map cells rows)))
              ]
      some_column
