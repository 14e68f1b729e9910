-- ===== src/Table/Csv.antt =====
-- app/shared/components/dph/data-table/export.util.ts: the text of the CSV export.
pub mod Reading
use Prim.Native.Char.{Char, code}
use Prim.Native.String
use enterprise_platform.Common.{
  String, Bool, true, false, not, ◌&&◌, ◌||◌, Option, none, some, List, [], ◌∷◌, map, filter,
  if◌then◌else◌, get_or, nat_eq, ◌⊕◌, join_with, has_suffix,
}
use enterprise_platform.Table.Values.{Value, Host, is_nullish, to_text, read_nested}
use enterprise_platform.Table.Types.{ColumnDef, CellType, actions}

-- `/[",\r\n]/.test(value)`, for one character.
abbrev pub is_special : Char → Bool
is_special c =
    (nat_eq (code c) b'"' || nat_eq (code c) b',') || (nat_eq (code c) 13 || nat_eq (code c) 10)

unfoldable pub needs_quote : String → Bool
needs_quote String.[] = false
needs_quote (String.◌∷◌ c s) = is_special c || needs_quote s

-- `value.replace(/"/g, '""')`
unfoldable pub escaped : String → String
escaped String.[] = String.[]
escaped (String.◌∷◌ c s) =
    if nat_eq (code c) b'"'
    then String.◌∷◌ c (String.◌∷◌ c (escaped s))
    else String.◌∷◌ c (escaped s)

unfoldable pub csv_cell : String → String
unfolding needs_quote escaped
csv_cell value = if needs_quote value then "\"" ⊕ escaped value ⊕ "\"" else escaped value

abbrev pub is_actions : Option CellType → Bool
is_actions (some actions) = true
is_actions _ = false

abbrev pub exportable_column : ColumnDef → Bool
exportable_column c = get_or c.exportable true && not (is_actions c.type)

-- The text of a row's cell before it is quoted.
unfoldable pub formatted : Host → Value → ColumnDef → String
unfolding to_text read_nested
formatted host row col =
    let raw = read_nested row col.field in
    elim col.format [
      | none ↦ if is_nullish raw then "" else to_text host raw
      | some format ↦ format raw row
    ]

unfoldable pub rows_to_csv : Host → List Value → List ColumnDef → String
unfolding csv_cell formatted join_with
rows_to_csv host rows columns =
    let exported = filter exportable_column columns in
    let line = λ (cells : List String). join_with "," (map csv_cell cells) in
    join_with "\r\n" (
      line (map (λ (c : ColumnDef). c.header) exported)
      ∷ map (λ row. line (map (formatted host row) exported)) rows)

-- `a.download`
unfoldable pub download_name : String → String
unfolding has_suffix
download_name filename = if has_suffix ".csv" filename then filename else filename ⊕ ".csv"
