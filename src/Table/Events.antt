-- ===== src/Table/Events.antt =====
-- The events of the data table one after another: each is one handler of
-- app/shared/components/dph/data-table.component.ts.
pub mod Orderly
pub mod Chooser
pub mod Choices
use enterprise_platform.Common.{ℕ, String, Bool, Option, List, [], ◌∷◌, ◌++◌, ℤ}
use enterprise_platform.Table.Values.{Value, Host}
use enterprise_platform.Table.Types.{FilterValue, ColumnDef}
use enterprise_platform.Table.View.{Inputs, TableState}
use enterprise_platform.Table.Handlers

pub data Event : Type 0 where
  header_click : ColumnDef → Bool → Event
  filter_change : String → Option FilterValue → Event
  clear_filter : String → Event
  clear_all_filters clear_search search_timer_fired : Event
  search_input : String → Event
  page : ℕ → ℕ → Event
  bulk_action : String → Event
  clear_selection select_all_matching : Event
  cell_dbl_click : Value → ColumnDef → Event
  edit_input : Value → Event
  commit_edit : Value → ColumnDef → Event
  cancel_edit : Event
  toggle_expand : Value → Event
  toggle_column : String → Bool → Event
  set_all_columns : Bool → Event
  reset_columns refresh export_csv : Event

unfoldable pub step : Host → ℤ → Inputs → Event → TableState → Handlers.Handled
unfolding Handlers.on_header_click Handlers.on_page Handlers.select_all_matching
    Handlers.on_cell_dbl_click Handlers.commit_edit Handlers.toggle_expand Handlers.toggle_column
    Handlers.set_all_columns Handlers.export_csv
step host now inputs (header_click col meta) s = Handlers.on_header_click inputs.config col meta s
step host now inputs (filter_change name value) s = Handlers.on_filter_change name value s
step host now inputs (clear_filter name) s = Handlers.clear_filter name s
step host now inputs clear_all_filters s = Handlers.clear_all_filters s
step host now inputs clear_search s = Handlers.clear_search s
step host now inputs search_timer_fired s = Handlers.search_timer_fired s
step host now inputs (search_input term) s = Handlers.on_search_input term s
step host now inputs (page first rows) s = Handlers.on_page host now inputs first rows s
step host now inputs (bulk_action key) s = Handlers.on_bulk_action key s
step host now inputs clear_selection s = Handlers.clear_selection inputs.config s
step host now inputs select_all_matching s = Handlers.select_all_matching host now inputs s
step host now inputs (cell_dbl_click r col) s = Handlers.on_cell_dbl_click inputs.config r col s
step host now inputs (edit_input v) s = Handlers.on_edit_input v s
step host now inputs (commit_edit r col) s = Handlers.commit_edit r col s
step host now inputs cancel_edit s = Handlers.cancel_edit s
step host now inputs (toggle_expand r) s = Handlers.toggle_expand host inputs.config r s
step host now inputs (toggle_column name visible) s = Handlers.toggle_column name visible s
step host now inputs (set_all_columns visible) s = Handlers.set_all_columns inputs.config visible s
step host now inputs reset_columns s = Handlers.reset_columns s
step host now inputs refresh s = Handlers.refresh inputs s
step host now inputs export_csv s = Handlers.export_csv host now inputs s

-- The state after the events, and all that they emitted.
unfoldable pub run : Host → ℤ → Inputs → List Event → TableState → Handlers.Handled
unfolding step
run host now inputs [] s = (s, [])
run host now inputs (e ∷ es) s =
    let first = step host now inputs e s in
    let rest = run host now inputs es first.0 in (rest.0, first.1 ++ rest.1)
