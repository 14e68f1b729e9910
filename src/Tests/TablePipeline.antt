-- ===== src/Tests/TablePipeline.antt =====
-- A data source that answers late, and one that throws.
use enterprise_platform.Common.{◌≡◌, refl, true, not, none, some, [], ◌∷◌, arith}
use enterprise_platform.Table.Types.{TableQuery, TablePage}
use enterprise_platform.Table.Pipeline.{
  thrown, subscribed, asked, due, page_loaded, Pipeline, initial, step, run,
}
use enterprise_platform.Table.Pipeline.Latest.{without_older, next_load, run-without_older}
use enterprise_platform.Table.Pipeline.Loading.{
  answered, loading_until_answered, thrown_stops_loads,
}

abbrev first_query : TableQuery
first_query = record { page = 1; page_size = 25; sort = []; filters = []; global_filter = none }

abbrev empty_page : TablePage
empty_page = record { rows = []; total = 0 }

abbrev waiting : Pipeline
waiting = record initial { current = some 1; next_id = 2; internal_loading = true }

abbrev asking : Pipeline
asking = record initial { armed = some first_query }

run-without_older_example :
    run (page_loaded 0 empty_page ∷ page_loaded 1 empty_page ∷ []) waiting
    ≡ run (without_older 1 (page_loaded 0 empty_page ∷ page_loaded 1 empty_page ∷ [])) waiting
run-without_older_example =
    run-without_older 1 (page_loaded 0 empty_page ∷ page_loaded 1 empty_page ∷ []) waiting
      (omega arith, λ c e. next_load 1 1 c (omega arith) e)

loading_until_answered_example :
    (run (page_loaded 1 empty_page ∷ []) waiting).internal_loading
    ≡ not (answered 1 (page_loaded 1 empty_page ∷ []))
loading_until_answered_example =
    loading_until_answered 1 (page_loaded 1 empty_page ∷ []) waiting (refl, tt) refl refl

thrown_stops_loads_example :
    ((run (asked first_query ∷ due subscribed ∷ []) (step (due thrown) asking)).internal_loading
      ≡ true)
    × ((run (asked first_query ∷ due subscribed ∷ []) (step (due thrown) asking)).loads
        ≡ asking.loads)
thrown_stops_loads_example =
    thrown_stops_loads (asked first_query ∷ due subscribed ∷ []) first_query asking refl
