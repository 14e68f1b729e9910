-- ===== src/Table/Types.antt =====
-- The vocabulary of app/shared/components/dph/dph.types.ts that the data table works with. Fields
-- that only choose styles, icons and widths are left out.
use enterprise_platform.Common.{ℕ, String, Bool, Option, List}
use enterprise_platform.Table.Values.{Value}

-- `'asc' | 'desc' | null` is `Option Direction`.
pub data Direction : Type 0 where
  asc desc : Direction

pub record SortState : Type 0 where
  pub field : String
  pub direction : Option Direction

pub data FilterOp : Type 0 where
  contains not_contains equals not_equals starts_with ends_with : FilterOp
  lt lte gt gte between : FilterOp
  before after on date_range in_last : FilterOp
  is is_not is_in not_in is_empty is_not_empty : FilterOp

-- A missing `value2` is `undefined`.
pub record FilterValue : Type 0 where
  pub op : FilterOp
  pub value : Value
  pub value2 : Value

pub record ColumnFilter : Type 0 where
  pub field : String
  pub value : Option FilterValue

pub data CellType : Type 0 where
  text number currency date datetime boolean badge avatar avatar_group link email : CellType
  phone image rating progress sparkline chips multi_line status_dot json actions custom : CellType

pub data Aggregator : Type 0 where
  sum avg count min max : Aggregator

-- An absent field is `none`; `editable` as a flag is a constant function.
pub record ColumnDef : Type 0 where
  pub field : String
  pub header : String
  pub type : Option CellType
  pub sortable : Bool
  pub visible : Option Bool
  pub toggleable : Option Bool
  pub exportable : Option Bool
  pub format : Option (Value → Value → String)
  pub editable : Option (Value → Bool)
  pub aggregator : Option Aggregator

pub record TableQuery : Type 0 where
  pub page : ℕ
  pub page_size : ℕ
  pub sort : List SortState
  pub filters : List ColumnFilter
  pub global_filter : Option String

pub record TablePage : Type 0 where
  pub rows : List Value
  pub total : ℕ

pub data SelectionMode : Type 0 where
  single multiple : SelectionMode

pub data InlineEdit : Type 0 where
  cell row : InlineEdit

pub record TableConfig : Type 0 where
  pub columns : List ColumnDef
  pub id_field : String
  pub multi_sort : Bool
  pub selection_mode : Option SelectionMode
  pub expandable : Bool
  pub row_actions : ℕ
  pub page_sizes : Option (List ℕ)
  pub default_page_size : Option ℕ
  pub inline_edit : Option InlineEdit
  pub empty_message : Option String
  pub empty_after_filter_message : Option String
  pub export_filename : Option String

pub record PaginationState : Type 0 where
  pub page : ℕ
  pub page_size : ℕ
  pub total : ℕ
  pub page_sizes : List ℕ
