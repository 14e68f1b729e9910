-- ===== src/Table/View.antt =====
-- app/shared/components/dph/data-table.component.ts: the table's own state and the values that are
-- computed from it. When Angular runs the effects that follow a change is not modelled; the query
-- that the effect asks for is `query_of`, and what happens to it is in Pipeline.
use enterprise_platform.Common.{
  ℕ, zero, suc, ◌+◌, String, Bool, true, false, not, ◌&&◌, ◌||◌, Option, none, some, List, [], ◌∷◌,
  if◌then◌else◌, ◌==◌, length, filter, is_some, get_or, nat_eq, ltb, ℤ, Dict, lookup, insert,
}
use enterprise_platform.Table.Values.{Value, undefined, Host}
use enterprise_platform.Table.Types.{
  Direction, asc, desc, SortState, FilterValue, ColumnFilter, ColumnDef, TableQuery, SelectionMode,
  multiple, TableConfig,
}
use enterprise_platform.Table.Source.{apply_filters_and_global, apply_sort}

-- `T | T[] | null`
pub data Selection : Type 0 where
  nothing : Selection
  one : Value → Selection
  many : List Value → Selection

pub record EditingCell : Type 0 where
  pub row_id : Value
  pub field : String

-- The inputs; `source` says whether a data source is given.
pub record Inputs : Type 0 where
  pub config : TableConfig
  pub data_rows : List Value
  pub source : Bool
  pub total_records : ℕ

pub record TableState : Type 0 where
  pub selection : Selection
  pub page : ℕ
  pub page_size : ℕ
  pub sort_field : String
  pub sort_direction : Option Direction
  pub sort_states : List SortState
  pub column_filters : List ColumnFilter
  pub global_filter : String
  pub search_term : String
  pub search_timer : Bool
  pub edit_value : Value
  pub editing_cell : Option EditingCell
  pub visibility_override : Dict Bool
  pub expanded_row_keys : Dict Bool
  pub remote_rows : List Value

abbrev pub initial : TableState
initial = record {
  selection = nothing;
  page = 1;
  page_size = 25;
  sort_field = "";
  sort_direction = none;
  sort_states = [];
  column_filters = [];
  global_filter = "";
  search_term = "";
  search_timer = false;
  edit_value = undefined;
  editing_cell = none;
  visibility_override = [];
  expanded_row_keys = [];
  remote_rows = [];
}

abbrev pub has_nat : ℕ → List ℕ → Bool
has_nat n [] = false
has_nat n (m ∷ ms) = nat_eq m n || has_nat n ms

-- The effect that takes the page size of the configuration while it is still the default one.
abbrev pub take_page_size : TableConfig → TableState → TableState
take_page_size config s = elim config.default_page_size [
  | none ↦ s
  | some size ↦
      if (ltb 0 size && nat_eq s.page_size 25) && has_nat size (get_or config.page_sizes [])
      then record s { page_size = size }
      else s
]

-- `this.globalFilter() || undefined`
abbrev pub text_or_none : String → Option String
text_or_none t = if t == "" then none else some t

abbrev pub query_of : TableState → TableQuery
query_of s = record {
  page = s.page;
  page_size = s.page_size;
  sort = s.sort_states;
  filters = s.column_filters;
  global_filter = text_or_none s.global_filter;
}

-- The first loop of `visibilityMap`, into a map that has the columns before.
unfoldable pub column_visibility : List ColumnDef → Dict Bool → Dict Bool
unfolding insert
column_visibility [] out = out
column_visibility (c ∷ cs) out = column_visibility cs (insert c.field (get_or c.visible true) out)

-- Its second loop: `out[k] = ovr[k]` for every key.
unfoldable pub override_visibility : Dict Bool → Dict Bool → Dict Bool → Dict Bool
unfolding insert lookup
override_visibility keys ovr [] = keys
override_visibility keys ovr ((k, v) ∷ rest) =
    override_visibility (insert k (get_or (lookup k ovr) true) keys) ovr rest

unfoldable pub visibility_map : TableConfig → TableState → Dict Bool
unfolding column_visibility override_visibility
visibility_map config s =
    override_visibility (column_visibility config.columns []) s.visibility_override
      s.visibility_override

-- `map[c.field] !== false`
unfoldable pub visible_columns : TableConfig → TableState → List ColumnDef
unfolding visibility_map lookup
visible_columns config s =
    filter (λ c. get_or (lookup c.field (visibility_map config s)) true) config.columns

unfoldable pub view_rows : Host → ℤ → Inputs → TableState → List Value
unfolding apply_filters_and_global apply_sort
view_rows host now inputs s =
    let found = apply_filters_and_global host now inputs.data_rows (query_of s) in
    if inputs.source then s.remote_rows else apply_sort host found s.sort_states

abbrev one_if : Bool → ℕ
one_if true = 1
one_if false = 0

abbrev pub is_multiple : Option SelectionMode → Bool
is_multiple (some multiple) = true
is_multiple _ = false

unfoldable pub empty_colspan : TableConfig → TableState → ℕ
unfolding visible_columns
empty_colspan config s =
    length (visible_columns config s)
    + one_if config.expandable
    + one_if (is_multiple config.selection_mode)
    + one_if (ltb 0 config.row_actions)

abbrev pub active_filters : TableState → List ColumnFilter
active_filters s = filter (λ f. is_some f.value) s.column_filters

abbrev pub has_active_filters : TableState → Bool
has_active_filters s = ltb 0 (length (active_filters s)) || not (s.global_filter == "")

abbrev pub selection_rows : TableState → List Value
selection_rows s = elim s.selection [ nothing ↦ [] | one r ↦ r ∷ [] | many rs ↦ rs ]

abbrev pub selected_count : TableState → ℕ
selected_count s = elim s.selection [ nothing ↦ 0 | one r ↦ 1 | many rs ↦ length rs ]

abbrev pub or_nat : ℕ → ℕ → ℕ
or_nat zero n = n
or_nat (suc m) n = suc m

abbrev pub total_matching : Inputs → ℕ
total_matching inputs = or_nat inputs.total_records (length inputs.data_rows)

abbrev pub effective_empty_message : TableConfig → TableState → String
effective_empty_message config s =
    if has_active_filters s
    then get_or config.empty_after_filter_message "No results match your filters."
    else get_or config.empty_message "No data to display."

unfoldable pub find_sort : String → List SortState → Option SortState
find_sort name [] = none
find_sort name (s ∷ ss) = if s.field == name then some s else find_sort name ss

abbrev pub sort_for : TableState → String → Option SortState
sort_for s name = find_sort name s.sort_states

-- `findIndex`, none for -1.
unfoldable pub sort_index : String → List SortState → Option ℕ
sort_index name [] = none
sort_index name (s ∷ ss) =
    let rest = sort_index name ss in
    if s.field == name then some 0 else elim rest [ none ↦ none | some i ↦ some (suc i) ]

unfoldable pub multi_sort_badge : TableConfig → TableState → String → Option ℕ
unfolding sort_index
multi_sort_badge config s name =
    if not config.multi_sort
    then none
    else if ltb (length s.sort_states) 2
    then none
    else elim (sort_index name s.sort_states) [ none ↦ none | some i ↦ some (suc i) ]

unfoldable pub find_filter : String → List ColumnFilter → Option FilterValue
find_filter name [] = none
find_filter name (f ∷ fs) = if f.field == name then f.value else find_filter name fs

abbrev pub filter_value_for : TableState → String → Option FilterValue
filter_value_for s name = find_filter name s.column_filters

abbrev pub next_direction : Option SortState → Option Direction
next_direction none = some asc
next_direction (some s) = elim s.direction [ none ↦ none | some asc ↦ some desc | some desc ↦ none ]

abbrev pub without_sort : String → List SortState → List SortState
without_sort name ss = filter (λ s. not (s.field == name)) ss

abbrev pub sort_entry : String → Option Direction → List SortState
sort_entry name none = []
sort_entry name (some dir) = record { field = name; direction = some dir } ∷ []
