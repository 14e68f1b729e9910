-- ===== src/Table/Handlers.antt =====
-- app/shared/components/dph/data-table.component.ts: the event handlers. A handler returns the new
-- state and what it emits, in order.
use enterprise_platform.Common.{
  ℕ, ◌+◌, ◌/◌, String, Bool, true, false, not, ◌&&◌, Option, none, some, List, [], ◌∷◌, ◌++◌,
  if◌then◌else◌, ◌==◌, length, filter, is_some, get_or, ℤ, Dict, lookup, insert, remove,
}
use enterprise_platform.Table.Values.{Value, Host, to_text, strict_eq, read_nested}
use enterprise_platform.Table.Types.{
  SortState, FilterValue, ColumnFilter, ColumnDef, TableQuery, InlineEdit, cell, TableConfig,
  PaginationState,
}
use enterprise_platform.Table.Source.{apply_filters_and_global}
use enterprise_platform.Table.Csv.{is_actions, rows_to_csv, download_name}
use enterprise_platform.Table.View.{
  nothing, many, EditingCell, Inputs, TableState, text_or_none, query_of, view_rows, is_multiple,
  or_nat, selection_rows, find_sort, sort_for, next_direction, without_sort, sort_entry,
}

pub data Output : Type 0 where
  page_change : PaginationState → Output
  sort_change : List SortState → Output
  filter_change : List ColumnFilter → Output
  cell_edit : Value → String → Value → Value → Output
  bulk_action : String → List Value → Output
  export_request : List Value → Output
  download : String → String → Output
  query_asked : TableQuery → Output

abbrev pub Handled : Type 0
Handled = TableState × List Output

-- `meta` is `event.ctrlKey || event.metaKey`.
unfoldable pub on_header_click : TableConfig → ColumnDef → Bool → TableState → Handled
unfolding find_sort
on_header_click config col meta s =
    let next = next_direction (sort_for s col.field) in
    let states =
      (if config.multi_sort && meta
        then without_sort col.field s.sort_states ++ sort_entry col.field next
        else sort_entry col.field next) in
    let clicked : TableState = record s {
      sort_states = states;
      sort_field = col.field;
      sort_direction = next;
    } in
    if col.sortable then (clicked, sort_change states ∷ []) else (s, [])

abbrev pub without_filter : String → List ColumnFilter → List ColumnFilter
without_filter name fs = filter (λ f. not (f.field == name)) fs

abbrev pub filter_entry : String → Option FilterValue → List ColumnFilter
filter_entry name none = []
filter_entry name (some v) = record { field = name; value = some v } ∷ []

abbrev pub on_filter_change : String → Option FilterValue → TableState → Handled
on_filter_change name value s =
    let next = without_filter name s.column_filters ++ filter_entry name value in
    let changed : TableState = record s { column_filters = next; page = 1 } in
    (changed, filter_change next ∷ [])

abbrev pub clear_filter : String → TableState → Handled
clear_filter name s = on_filter_change name none s

abbrev pub clear_all_filters : TableState → Handled
clear_all_filters s =
    let cleared : TableState = record s {
      column_filters = [];
      global_filter = "";
      search_term = "";
    } in
    (cleared, filter_change [] ∷ [])

-- The box is bound to `searchTerm`; a timer that is running is replaced.
abbrev pub on_search_input : String → TableState → Handled
on_search_input term s =
    let typed : TableState = record s { search_term = term; search_timer = true } in (typed, [])

-- The timer fires 300 ms after the last input.
abbrev pub search_timer_fired : TableState → Handled
search_timer_fired s =
    let searched : TableState = record s {
      global_filter = s.search_term;
      page = 1;
      search_timer = false;
    } in
    if s.search_timer then (searched, []) else (s, [])

abbrev pub clear_search : TableState → Handled
clear_search s =
    let cleared : TableState = record s { search_term = ""; global_filter = "" } in (cleared, [])

-- `first` and `rows` come from the paginator, whose page has at least one row. For `rows` 0, where
-- the source's quotient is NaN or Infinity, the model does not stand for the code.
unfoldable pub on_page : Host → ℤ → Inputs → ℕ → ℕ → TableState → Handled
unfolding view_rows
on_page host now inputs first rows s =
    let paged : TableState = record s { page = first / rows + 1; page_size = rows } in
    let change : PaginationState = record {
      page = first / rows + 1;
      page_size = rows;
      total = or_nat inputs.total_records (length (view_rows host now inputs paged));
      page_sizes = get_or inputs.config.page_sizes (10 ∷ 25 ∷ 50 ∷ 100 ∷ []);
    } in
    (paged, page_change change ∷ [])

abbrev pub on_bulk_action : String → TableState → Handled
on_bulk_action key s = (s, bulk_action key (selection_rows s) ∷ [])

abbrev pub clear_selection : TableConfig → TableState → Handled
clear_selection config s =
    let cleared : TableState = record s {
      selection = if is_multiple config.selection_mode then many [] else nothing;
    } in
    (cleared, [])

unfoldable pub select_all_matching : Host → ℤ → Inputs → TableState → Handled
unfolding apply_filters_and_global
select_all_matching host now inputs s =
    let query : TableQuery = record {
      page = 1;
      page_size = length inputs.data_rows;
      sort = [];
      filters = s.column_filters;
      global_filter = text_or_none s.global_filter;
    } in
    let selected : TableState = record s {
      selection = many (apply_filters_and_global host now inputs.data_rows query);
    } in
    if inputs.source
    then (s, [])
    else if is_multiple inputs.config.selection_mode
    then (selected, [])
    else (s, [])

abbrev row_id_of : TableConfig → Value → Value
row_id_of config r = read_nested r config.id_field

unfoldable pub is_editing : TableConfig → TableState → Value → String → Bool
unfolding read_nested
is_editing config s r name = elim s.editing_cell [
  | none ↦ false
  | some ec ↦ ec.field == name && strict_eq ec.row_id (row_id_of config r)
]

abbrev pub edits_cells : Option InlineEdit → Bool
edits_cells (some cell) = true
edits_cells _ = false

abbrev pub is_editable : Option (Value → Bool) → Value → Bool
is_editable none r = false
is_editable (some editable) r = editable r

unfoldable pub on_cell_dbl_click : TableConfig → Value → ColumnDef → TableState → Handled
unfolding read_nested
on_cell_dbl_click config r col s =
    let target : EditingCell = record { row_id = row_id_of config r; field = col.field } in
    let editing : TableState = record s {
      edit_value = read_nested r col.field;
      editing_cell = some target;
    } in
    if edits_cells config.inline_edit && is_editable col.editable r then (editing, []) else (s, [])

-- The editor of the cell is bound to `editValue`.
abbrev pub on_edit_input : Value → TableState → Handled
on_edit_input v s = let typed : TableState = record s { edit_value = v } in (typed, [])

unfoldable pub commit_edit : Value → ColumnDef → TableState → Handled
unfolding read_nested
commit_edit r col s =
    let old = read_nested r col.field in
    let closed : TableState = record s { editing_cell = none } in
    let emitted =
      (if strict_eq old s.edit_value then [] else cell_edit r col.field old s.edit_value ∷ []) in
    if is_some s.editing_cell then (closed, emitted) else (s, [])

abbrev pub cancel_edit : TableState → Handled
cancel_edit s = let closed : TableState = record s { editing_cell = none } in (closed, [])

unfoldable pub toggle_expand : Host → TableConfig → Value → TableState → Handled
unfolding lookup insert remove to_text read_nested
toggle_expand host config r s =
    let id = to_text host (row_id_of config r) in
    let keys = s.expanded_row_keys in
    let toggled : TableState = record s {
      expanded_row_keys =
          if get_or (lookup id keys) false then remove id keys else insert id true keys;
    } in
    (toggled, [])

unfoldable pub toggle_column : String → Bool → TableState → Handled
unfolding insert
toggle_column name visible s =
    let toggled : TableState = record s {
      visibility_override = insert name visible s.visibility_override;
    } in
    (toggled, [])

abbrev pub is_toggleable : ColumnDef → Bool
is_toggleable c = get_or c.toggleable true && not (is_actions c.type)

unfoldable pub all_columns : Bool → List ColumnDef → Dict Bool → Dict Bool
unfolding insert
all_columns visible [] out = out
all_columns visible (c ∷ cs) out =
    all_columns visible cs (if is_toggleable c then insert c.field visible out else out)

unfoldable pub set_all_columns : TableConfig → Bool → TableState → Handled
unfolding all_columns
set_all_columns config visible s =
    let chosen : TableState = record s {
      visibility_override = all_columns visible config.columns [];
    } in
    (chosen, [])

abbrev pub reset_columns : TableState → Handled
reset_columns s = let reset : TableState = record s { visibility_override = [] } in (reset, [])

abbrev pub refresh : Inputs → TableState → Handled
refresh inputs s = if inputs.source then (s, query_asked (query_of s) ∷ []) else (s, [])

unfoldable pub export_csv : Host → ℤ → Inputs → TableState → Handled
unfolding view_rows rows_to_csv download_name
export_csv host now inputs s =
    let rows = view_rows host now inputs s in
    (
      s,
      download (download_name (get_or inputs.config.export_filename "table-export"))
            (rows_to_csv host rows inputs.config.columns)
          ∷ export_request rows
          ∷ [],
    )
