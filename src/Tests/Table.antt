-- ===== src/Tests/Table.antt =====
-- A table of two columns over plain rows.
use enterprise_platform.Common.{
  ℤ, pos, length, filter, ℕ, suc, ◌≤◌, String, ◌≡◌, refl, true, ◌&&◌, Option, none, some, List, [],
  ◌∷◌, map, arith,
}
use enterprise_platform.Table.Values.{
  Value, undefined, null, text, number, object, end, prop, Host, read_nested,
}
use enterprise_platform.Table.Types.{asc, desc, gt, FilterValue, ColumnDef, TableQuery}
use enterprise_platform.Table.Source.{match_filter, apply_sort, load}
use enterprise_platform.Table.Source.Sorting.{IsSortedBy}
use enterprise_platform.Table.Source.Columns.{
  is_numeric, key_eq, ordered, by_column, cell_key, apply_sort-column,
}
use enterprise_platform.Table.Source.Pages.{first_pages, all_rows, first_pages-all_rows}
use enterprise_platform.Table.Csv.{exportable_column, formatted, rows_to_csv}
use enterprise_platform.Table.Csv.Reading.{read_csv, read_csv-rows_to_csv}
use mathlib.Core.List.{Perm}

abbrev pub plain_host : Host
plain_host = record {
  number_of = λ s. none;
  time_of = λ s. none;
  date_text = λ t. "";
  year_of = λ t. t;
  month_of = λ t. 0;
  date_of = λ t. 0;
  locale_compare = λ s t. pos 0;
}

abbrev person : ℕ → String → Value → Value
person ref name age = object ref (prop "name" (text name) (prop "age" age end))

abbrev people : List Value
people =
    person 1 "Ann, \"A.\"" (number (pos 41))
    ∷ person 2 "Bo" null
    ∷ person 3 "Cy" (number (pos 7))
    ∷ []

abbrev pub column : String → String → ColumnDef
column name title = record {
  field = name;
  header = title;
  type = none;
  sortable = true;
  visible = none;
  toggleable = none;
  exportable = none;
  format = none;
  editable = none;
  aggregator = none;
}

abbrev pub columns : List ColumnDef
columns = column "name" "Name" ∷ column "age" "Age" ∷ []

abbrev pub older_than : FilterValue
older_than = record { op = gt; value = number (pos 5); value2 = undefined }

abbrev query : TableQuery
query = record {
  page = 1;
  page_size = 1;
  sort = by_column "age" desc;
  filters = record { field = "age"; value = some older_than } ∷ [];
  global_filter = none;
}

apply_sort-column_example :
    Perm (apply_sort plain_host people (by_column "age" asc)) people
    × (IsSortedBy
          (λ a b. ordered asc (cell_key "age" a) (cell_key "age" b))
          (apply_sort plain_host people (by_column "age" asc))
        × ((k : Option ℤ)
            → filter
                (λ row. is_numeric (read_nested row "age") && key_eq (cell_key "age" row) k)
                (apply_sort plain_host people (by_column "age" asc))
              ≡ filter
                  (λ row. is_numeric (read_nested row "age") && key_eq (cell_key "age" row) k)
                  people))
unfolding read_nested
apply_sort-column_example =
    apply_sort-column plain_host "age" asc refl people (refl, (refl, (refl, tt)))

first_pages-all_rows_example :
    (first_pages plain_host (pos 0) people query 2 ≡ (all_rows plain_host (pos 0) people query))
    × ((k : ℕ)
        → ((load plain_host (pos 0) people (record query { page = suc k })).total
            ≡ length (first_pages plain_host (pos 0) people query 2))
          × (length (load plain_host (pos 0) people (record query { page = suc k })).rows
              ≤ query.page_size))
unfolding apply_sort match_filter
first_pages-all_rows_example = first_pages-all_rows plain_host (pos 0) people query 2 (omega arith)

read_csv-rows_to_csv_example :
    read_csv (rows_to_csv plain_host people columns)
    ≡ map (λ (c : ColumnDef). c.header) (filter exportable_column columns)
      ∷ map (λ row. map (formatted plain_host row) (filter exportable_column columns)) people
read_csv-rows_to_csv_example = read_csv-rows_to_csv plain_host people columns (λ e. cc)
