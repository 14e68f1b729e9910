-- ===== src/Table/Pipeline.antt =====
-- app/shared/components/dph/data-table.component.ts: the pipeline from the queries to the rows,
-- `query$.pipe(debounceTime(0), switchMap(...), takeUntilDestroyed(...))`. An event is one thing
-- that the page, the timer, the data source or Angular does; the loads are numbered as they start.
pub mod Latest
pub mod Loading
use enterprise_platform.Common.{
  ℕ, suc, ◌+◌, String, Bool, true, false, ◌&&◌, Option, none, some, List, [], ◌∷◌, ◌++◌,
  if◌then◌else◌, nat_eq,
}
use enterprise_platform.Table.Values.{Value}
use enterprise_platform.Table.Types.{TableQuery, TablePage}

-- What the projection of `switchMap` meets: no data source, one whose `load` throws, or one whose
-- `load` returns an observable.
pub data Start : Type 0 where
  no_source thrown subscribed : Start

pub data Event : Type 0 where
  asked : TableQuery → Event
  due : Start → Event
  page_loaded : ℕ → TablePage → Event
  load_failed : ℕ → String → Event
  load_completed : ℕ → Event
  destroyed : Event

-- `armed` is the query that `debounceTime` holds, `current` the load that is subscribed, `alive`
-- says whether the outer subscription still is, and `loads` are the queries sent to the source.
pub record Pipeline : Type 0 where
  pub armed : Option TableQuery
  pub current : Option ℕ
  pub next_id : ℕ
  pub loads : List TableQuery
  pub alive : Bool
  pub internal_loading : Bool
  pub internal_error : Option String
  pub remote_rows : List Value
  pub remote_total : ℕ

abbrev pub initial : Pipeline
initial = record {
  armed = none;
  current = none;
  next_id = 0;
  loads = [];
  alive = true;
  internal_loading = false;
  internal_error = none;
  remote_rows = [];
  remote_total = 0;
}

abbrev pub is_current : ℕ → Option ℕ → Bool
is_current id none = false
is_current id (some c) = nat_eq c id

abbrev pub start_load : Start → TableQuery → Pipeline → Pipeline
start_load no_source q s = record s {
  armed = none;
  current = none;
  internal_loading = true;
  internal_error = none;
}
start_load thrown q s = record s {
  armed = none;
  current = none;
  alive = false;
  internal_loading = true;
  internal_error = none;
}
start_load subscribed q s = record s {
  armed = none;
  current = some s.next_id;
  next_id = suc s.next_id;
  loads = s.loads ++ q ∷ [];
  internal_loading = true;
  internal_error = none;
}

unfoldable pub step : Event → Pipeline → Pipeline
step (asked q) s = if s.alive then record s { armed = some q } else s
step (due start) s = elim s.armed [ none ↦ s | some q ↦ start_load start q s ]
step (page_loaded id page) s =
    if is_current id s.current
    then record s { remote_rows = page.rows; remote_total = page.total; internal_loading = false }
    else s
step (load_failed id message) s =
    if is_current id s.current
    then record s { current = none; internal_loading = false; internal_error = some message }
    else s
step (load_completed id) s = if is_current id s.current then record s { current = none } else s
step destroyed s = record s { armed = none; current = none; alive = false }

unfoldable pub run : List Event → Pipeline → Pipeline
unfolding step
run [] s = s
run (e ∷ es) s = run es (step e s)
