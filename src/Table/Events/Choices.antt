-- ===== src/Table/Events/Choices.antt =====
-- What a click on a header and a change of a filter do to each column.
use enterprise_platform.Common.{
  String, Bool, true, ◌&&◌, Option, none, some, List, [], ◌∷◌, ◌++◌, ◌≡◌, refl, arith,
  if◌then◌else◌, ◌==◌, Bool-cases, inl, inr, is_some, eq_iff,
}
use enterprise_platform.Table.Types.{
  Direction, asc, desc, SortState, FilterValue, ColumnFilter, ColumnDef, TableConfig,
}
use enterprise_platform.Table.View.{
  TableState, without_sort, sort_entry, next_direction, find_sort, find_filter, filter_value_for,
}
use enterprise_platform.Table.Events.Orderly.{IsOrderly, Directed}
use enterprise_platform.Table.Handlers.{
  on_filter_change, on_header_click, without_filter, filter_entry,
}

abbrev direction_of : Option SortState → Option Direction
direction_of none = none
direction_of (some s) = s.direction

abbrev direction_in : List SortState → String → Option Direction
direction_in ss name = direction_of (find_sort name ss)

-- Ascending after none, descending after ascending, none after descending.
abbrev pub cycled : Option Direction → Option Direction
cycled none = some asc
cycled (some asc) = some desc
cycled (some desc) = none

-- The direction by which a column is sorted.
abbrev pub direction_for : TableState → String → Option Direction
direction_for s name = direction_in s.sort_states name

direction_in-entry :
    (k j : String) (dir : Option Direction)
    → direction_in (sort_entry k dir) j ≡ (if k == j then dir else none)
unfolding find_sort
direction_in-entry k j none = ground arith
direction_in-entry k j (some d) = ground arith

next-some :
    (s : SortState) → is_some s.direction ≡ true → next_direction (some s) ≡ cycled s.direction
next-some s h =
    elim s.direction
        as (λ o.
          is_some o ≡ true
          → elim o [ none ↦ none | some asc ↦ some desc | some desc ↦ none ] ≡ cycled o) [
            | none ↦ (λ h. cc)
            | some asc ↦ (λ h. refl)
            | some desc ↦ (λ h. refl)
          ]
      h

next_direction-cycled :
    (k : String) (ss : List SortState)
    → Directed ss
    → next_direction (find_sort k ss) ≡ cycled (direction_in ss k)
unfolding find_sort
next_direction-cycled k [] h = refl
next_direction-cycled k (s ∷ ss) (first, h) = elim (Bool-cases (s.field == k)) [
  | inl e ↦ rw e (next-some s first)
  | inr e ↦ rw e (next_direction-cycled k ss h)
]

direction_in-replaced :
    (k j : String) (dir : Option Direction) (ss : List SortState)
    → direction_in (without_sort k ss ++ sort_entry k dir) j
      ≡ (if k == j then dir else direction_in ss j)
unfolding find_sort
direction_in-replaced k j dir [] = direction_in-entry k j dir
direction_in-replaced k j dir (s ∷ ss) =
    ground (arith, direction_in-replaced k j dir ss, eq_iff s.field k, eq_iff s.field j, eq_iff k j)

-- A click on the header of a sortable column gives this column its next direction, ascending after
-- none, descending after ascending, and none after descending. The other columns keep their
-- directions when the table sorts by several columns and a modifier key is down, and lose them
-- otherwise. The state is one for which IsOrderly holds, as for every state the table reaches.
pub direction_for-on_header_click :
    (config : TableConfig) (col : ColumnDef) (meta : Bool) (s : TableState) (j : String)
    → col.sortable ≡ true
    → IsOrderly s
    → direction_for (on_header_click config col meta s).0 j ≡ (
        if col.field == j
        then cycled (direction_for s col.field)
        else if config.multi_sort && meta
        then direction_for s j
        else none)
unfolding on_header_click
direction_for-on_header_click config col meta s j h orderly =
    rw (h, next_direction-cycled col.field s.sort_states orderly.0.1)
      (elim (Bool-cases (config.multi_sort && meta)) [
        | inl m ↦
            rw m
              (direction_in-replaced col.field j (cycled (direction_for s col.field)) s.sort_states)
        | inr m ↦ rw m (direction_in-entry col.field j (cycled (direction_for s col.field)))
      ])

find_filter-entry :
    (k j : String) (v : Option FilterValue)
    → find_filter j (filter_entry k v) ≡ (if k == j then v else none)
unfolding find_filter
find_filter-entry k j none = ground arith
find_filter-entry k j (some v) = refl

find_filter-replaced :
    (k j : String) (v : Option FilterValue) (fs : List ColumnFilter)
    → find_filter j (without_filter k fs ++ filter_entry k v)
      ≡ (if k == j then v else find_filter j fs)
unfolding find_filter
find_filter-replaced k j v [] = find_filter-entry k j v
find_filter-replaced k j v (f ∷ fs) =
    ground (arith, find_filter-replaced k j v fs, eq_iff f.field k, eq_iff f.field j, eq_iff k j)

-- After a filter of a column is set or taken away the column has exactly this filter, every other
-- column has the filter that it had, the first page is shown, and the sort states stay.
pub filter_value_for-on_filter_change :
    (name : String) (value : Option FilterValue) (s : TableState)
    → ((j : String)
        → filter_value_for (on_filter_change name value s).0 j
          ≡ (if name == j then value else filter_value_for s j))
      × (((on_filter_change name value s).0.page ≡ 1)
          × ((on_filter_change name value s).0.sort_states ≡ s.sort_states))
filter_value_for-on_filter_change name value s =
    (λ j. find_filter-replaced name j value s.column_filters, (refl, refl))
