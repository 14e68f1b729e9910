-- ===== src/Tests/TableEvents.antt =====
-- Events of a table, and a data source that answers late.
use enterprise_platform.Common.{
  pos, if◌then◌else◌, filter, any, ◌≡◌, refl, true, false, ◌&&◌, none, some, [], ◌∷◌, arith, ◌==◌,
}
use enterprise_platform.Table.Types.{multiple, TableConfig}
use enterprise_platform.Table.View.{Inputs, initial, visible_columns}
use enterprise_platform.Table.Handlers.{
  on_header_click, toggle_column, is_toggleable, set_all_columns, reset_columns,
}
use enterprise_platform.Table.Events.Orderly.{IsOrderly, run-IsOrderly}
use enterprise_platform.Table.Events.Chooser.{configured, is_shown, visible_columns-chooser}
use enterprise_platform.Table.Events.Choices.{cycled, direction_for, direction_for-on_header_click}
use enterprise_platform.Table.Events
use enterprise_platform.Table.Events.{run}
use enterprise_platform.Tests.Table.{plain_host, columns, column, older_than}

abbrev config : TableConfig
config = record {
  columns = columns;
  id_field = "name";
  multi_sort = true;
  selection_mode = some multiple;
  expandable = false;
  row_actions = 0;
  page_sizes = none;
  default_page_size = none;
  inline_edit = none;
  empty_message = none;
  empty_after_filter_message = none;
  export_filename = none;
}

abbrev inputs : Inputs
inputs = record { config = config; data_rows = []; source = true; total_records = 0 }

run-IsOrderly_example :
    IsOrderly
      (run plain_host
        (pos 0)
        inputs
        (Events.header_click (column "name" "Name") true
          ∷ Events.filter_change "age" (some older_than)
          ∷ [])
        initial).0
run-IsOrderly_example =
    run-IsOrderly plain_host (pos 0) inputs
      (Events.header_click (column "name" "Name") true
        ∷ Events.filter_change "age" (some older_than)
        ∷ [])
      initial ((tt, tt), ((tt, tt), omega arith))

direction_for-on_header_click_example :
    direction_for (on_header_click config (column "age" "Age") true initial).0 "name" ≡ (
      if (column "age" "Age").field == "name"
      then cycled (direction_for initial (column "age" "Age").field)
      else if config.multi_sort && true
      then direction_for initial "name"
      else none)
direction_for-on_header_click_example =
    direction_for-on_header_click config (column "age" "Age") true initial "name" refl
      ((tt, tt), ((tt, tt), omega arith))

visible_columns-chooser_example :
    (visible_columns config (toggle_column "age" false initial).0
      ≡ filter
          (λ c. if "age" == c.field then false else is_shown config initial c.field)
          config.columns)
    × ((visible_columns config (set_all_columns config false initial).0
          ≡ filter
              (λ c.
                if any (λ d. is_toggleable d && d.field == c.field) config.columns
                then false
                else configured config c.field)
              config.columns)
        × (visible_columns config (reset_columns initial).0
            ≡ filter (λ c. configured config c.field) config.columns))
visible_columns-chooser_example = visible_columns-chooser config initial "age" false
