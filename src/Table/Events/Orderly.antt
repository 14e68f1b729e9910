-- ===== src/Table/Events/Orderly.antt =====
-- What stays true of the sort states, the column filters and the page.
use enterprise_platform.Common.{
  append-nil, ℕ, ◌≤◌, String, Bool, true, false, not, ◌&&◌, Option, none, some, List, [], ◌∷◌, ◌++◌,
  ◌≡◌, refl, ap, arith, if◌then◌else◌, ◌==◌, Bool-cases, inl, inr, filter, is_some, includes,
  exclude, IsDistinct, exclude-IsDistinct, includes-exclude, concat-IsDistinct, eq_refl, ℤ,
}
use enterprise_platform.Table.Values.{Value, Host}
use enterprise_platform.Table.Types.{Direction, SortState, FilterValue, ColumnFilter, ColumnDef}
use enterprise_platform.Table.Source.Sorting.{AllTrue}
use enterprise_platform.Table.View.{
  is_multiple, Inputs, TableState, without_sort, sort_entry, next_direction, sort_for,
}
use enterprise_platform.Table.Handlers.{
  Handled, edits_cells, is_editable, on_filter_change, on_header_click, on_page,
  select_all_matching, on_cell_dbl_click, commit_edit, without_filter, filter_entry,
}
use enterprise_platform.Table.Events
use enterprise_platform.Table.Events.{Event, step, run}

abbrev pub sort_fields : List SortState → List String
sort_fields [] = []
sort_fields (s ∷ ss) = s.field ∷ sort_fields ss

abbrev pub filter_fields : List ColumnFilter → List String
filter_fields [] = []
filter_fields (f ∷ fs) = f.field ∷ filter_fields fs

abbrev pub Directed : List SortState → Type 0
Directed ss = AllTrue (λ (s : SortState). is_some s.direction) ss

abbrev pub Valued : List ColumnFilter → Type 0
Valued fs = AllTrue (λ (f : ColumnFilter). is_some f.value) fs

abbrev pub SortsOk : List SortState → Type 0
SortsOk ss = IsDistinct (sort_fields ss) × Directed ss

abbrev pub FiltersOk : List ColumnFilter → Type 0
FiltersOk fs = IsDistinct (filter_fields fs) × Valued fs

-- Every column is sorted by at most once and filtered by at most once, every sort state has a
-- direction and every filter a value, and the page is one of 1, 2, ...
abbrev pub IsOrderly : TableState → Type 0
IsOrderly s = SortsOk s.sort_states × (FiltersOk s.column_filters × (1 ≤ s.page))

sort_fields-without_sort :
    (k : String) (ss : List SortState)
    → sort_fields (without_sort k ss) ≡ exclude k (sort_fields ss)
sort_fields-without_sort k [] = refl
sort_fields-without_sort k (s ∷ ss) = ground (arith, sort_fields-without_sort k ss)

sort_fields-append :
    (k : String) (dir : Option Direction) (ss : List SortState)
    → sort_fields (ss ++ sort_entry k dir) ≡ sort_fields ss ++ sort_fields (sort_entry k dir)
sort_fields-append k dir [] = refl
sort_fields-append k dir (s ∷ ss) = ap (λ ks. s.field ∷ ks) (sort_fields-append k dir ss)

exclude-includes : (k : String) (ks : List String) → includes k (exclude k ks) ≡ false
exclude-includes k ks = ground (arith, includes-exclude k k ks, eq_refl k)

module _ {ℓ} {A : Type ℓ} (p : A → Bool) where
  filter_keeps : (q : A → Bool) (xs : List A) → AllTrue p xs → AllTrue p (filter q xs)
  filter_keeps q [] h = tt
  filter_keeps q (x ∷ xs) (first, h) = ground (arith, filter_keeps q xs h)

  append_keeps : (xs ys : List A) → AllTrue p xs → AllTrue p ys → AllTrue p (xs ++ ys)
  append_keeps [] ys h k = k
  append_keeps (x ∷ xs) ys (first, h) k = (first, append_keeps xs ys h k)

sort_entry-SortsOk : (k : String) (dir : Option Direction) → SortsOk (sort_entry k dir)
sort_entry-SortsOk k none = (tt, tt)
sort_entry-SortsOk k (some d) = ((refl, tt), (refl, tt))

replaced-SortsOk :
    (k : String) (dir : Option Direction) (ss : List SortState)
    → SortsOk ss
    → SortsOk (without_sort k ss ++ sort_entry k dir)
replaced-SortsOk k none ss (d, v) = rw (append-nil (without_sort k ss)) (
  rw (sort_fields-without_sort k ss) (exclude-IsDistinct k (sort_fields ss) d),
  filter_keeps (λ s. is_some s.direction) (λ s. not (s.field == k)) ss v,
)
replaced-SortsOk k (some dir) ss (d, v) = (
  rw (sort_fields-append k (some dir) (without_sort k ss), sort_fields-without_sort k ss)
      (concat-IsDistinct k (exclude k (sort_fields ss)) (exclude-IsDistinct k (sort_fields ss) d)
        (exclude-includes k (sort_fields ss))),
  append_keeps (λ s. is_some s.direction) (without_sort k ss) (sort_entry k (some dir))
      (filter_keeps (λ s. is_some s.direction) (λ s. not (s.field == k)) ss v) (refl, tt),
)

filter_fields-without_filter :
    (k : String) (fs : List ColumnFilter)
    → filter_fields (without_filter k fs) ≡ exclude k (filter_fields fs)
filter_fields-without_filter k [] = refl
filter_fields-without_filter k (f ∷ fs) = ground (arith, filter_fields-without_filter k fs)

filter_fields-append :
    (k : String) (v : Option FilterValue) (fs : List ColumnFilter)
    → filter_fields (fs ++ filter_entry k v) ≡ filter_fields fs ++ filter_fields (filter_entry k v)
filter_fields-append k v [] = refl
filter_fields-append k v (f ∷ fs) = ap (λ ks. f.field ∷ ks) (filter_fields-append k v fs)

replaced-FiltersOk :
    (k : String) (value : Option FilterValue) (fs : List ColumnFilter)
    → FiltersOk fs
    → FiltersOk (without_filter k fs ++ filter_entry k value)
replaced-FiltersOk k none fs (d, v) = rw (append-nil (without_filter k fs)) (
  rw (filter_fields-without_filter k fs) (exclude-IsDistinct k (filter_fields fs) d),
  filter_keeps (λ f. is_some f.value) (λ f. not (f.field == k)) fs v,
)
replaced-FiltersOk k (some value) fs (d, v) = (
  rw (filter_fields-append k (some value) (without_filter k fs), filter_fields-without_filter k fs)
      (concat-IsDistinct k (exclude k (filter_fields fs))
        (exclude-IsDistinct k (filter_fields fs) d) (exclude-includes k (filter_fields fs))),
  append_keeps (λ f. is_some f.value) (without_filter k fs) (filter_entry k (some value))
      (filter_keeps (λ f. is_some f.value) (λ f. not (f.field == k)) fs v) (refl, tt),
)

module _ (host : Host) (now : ℤ) (inputs : Inputs) where
  header_click-IsOrderly :
      (col : ColumnDef) (meta : Bool) (s : TableState)
      → IsOrderly s
      → IsOrderly (on_header_click inputs.config col meta s).0
  unfolding on_header_click
  header_click-IsOrderly col meta s (sorts, rest) =
      let next = next_direction (sort_for s col.field) in
      elim (Bool-cases col.sortable) [
        | inr e ↦ rw e (sorts, rest)
        | inl e ↦ rw e (elim (Bool-cases (inputs.config.multi_sort && meta)) [
          | inl m ↦ rw m (replaced-SortsOk col.field next s.sort_states sorts, rest)
          | inr m ↦ rw m (sort_entry-SortsOk col.field next, rest)
        ])
      ]

  filter_change-IsOrderly :
      (k : String) (value : Option FilterValue) (s : TableState)
      → IsOrderly s
      → IsOrderly (on_filter_change k value s).0
  filter_change-IsOrderly k value s (sorts, (filters, p)) =
      (sorts, (replaced-FiltersOk k value s.column_filters filters, omega arith))

  page-IsOrderly :
      (first rows : ℕ) (s : TableState)
      → IsOrderly s
      → IsOrderly (on_page host now inputs first rows s).0
  unfolding on_page
  page-IsOrderly first rows s (sorts, (filters, p)) = (sorts, (filters, omega arith))

  if-IsOrderly :
      (b : Bool) (x y : Handled) → IsOrderly x.0 → IsOrderly y.0 → IsOrderly (if b then x else y).0
  if-IsOrderly true x y h k = h
  if-IsOrderly false x y h k = k

  select-IsOrderly :
      (s : TableState) → IsOrderly s → IsOrderly (select_all_matching host now inputs s).0
  unfolding select_all_matching
  select-IsOrderly s h =
      if-IsOrderly inputs.source _ _ h
        (if-IsOrderly (is_multiple inputs.config.selection_mode) _ _ h h)

  dbl_click-IsOrderly :
      (r : Value) (col : ColumnDef) (s : TableState)
      → IsOrderly s
      → IsOrderly (on_cell_dbl_click inputs.config r col s).0
  unfolding on_cell_dbl_click
  dbl_click-IsOrderly r col s h =
      if-IsOrderly (edits_cells inputs.config.inline_edit && is_editable col.editable r) _ _ h h

  commit-IsOrderly :
      (r : Value) (col : ColumnDef) (s : TableState)
      → IsOrderly s
      → IsOrderly (commit_edit r col s).0
  unfolding commit_edit
  commit-IsOrderly r col s h = if-IsOrderly (is_some s.editing_cell) _ _ h h

  pub step-IsOrderly :
      (e : Event) (s : TableState) → IsOrderly s → IsOrderly (step host now inputs e s).0
  unfolding step
  step-IsOrderly (Events.header_click col meta) s h = header_click-IsOrderly col meta s h
  step-IsOrderly (Events.filter_change k value) s h = filter_change-IsOrderly k value s h
  step-IsOrderly (Events.clear_filter k) s h = filter_change-IsOrderly k none s h
  step-IsOrderly Events.clear_all_filters s (sorts, (filters, p)) = (sorts, ((tt, tt), p))
  step-IsOrderly Events.clear_search s h = h
  step-IsOrderly Events.search_timer_fired s (sorts, (filters, p)) =
      elim (Bool-cases s.search_timer) [
        | inl e ↦ rw e (sorts, (filters, omega arith))
        | inr e ↦ rw e (sorts, (filters, p))
      ]
  step-IsOrderly (Events.search_input term) s h = h
  step-IsOrderly (Events.page first rows) s h = page-IsOrderly first rows s h
  step-IsOrderly (Events.bulk_action key) s h = h
  step-IsOrderly Events.clear_selection s h = h
  step-IsOrderly Events.select_all_matching s h = select-IsOrderly s h
  step-IsOrderly (Events.cell_dbl_click r col) s h = dbl_click-IsOrderly r col s h
  step-IsOrderly (Events.edit_input v) s h = h
  step-IsOrderly (Events.commit_edit r col) s h = commit-IsOrderly r col s h
  step-IsOrderly Events.cancel_edit s h = h
  step-IsOrderly (Events.toggle_expand r) s h = h
  step-IsOrderly (Events.toggle_column name visible) s h = h
  step-IsOrderly (Events.set_all_columns visible) s h = h
  step-IsOrderly Events.reset_columns s h = h
  step-IsOrderly Events.refresh s h = if-IsOrderly inputs.source _ _ h h
  step-IsOrderly Events.export_csv s h = h

  -- Whatever the user does, in whatever order, from a state in which this holds, as it does in a
  -- table that opens: every column is sorted by at most once and filtered by at most once, every
  -- sort state has a direction and every filter a value, and the page is at least 1.
  pub run-IsOrderly :
      (es : List Event) (s : TableState) → IsOrderly s → IsOrderly (run host now inputs es s).0
  unfolding run
  run-IsOrderly [] s h = h
  run-IsOrderly (e ∷ es) s h = run-IsOrderly es (step host now inputs e s).0 (step-IsOrderly e s h)
