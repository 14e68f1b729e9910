-- ===== src/Store/Features/Laws.antt =====
-- The selection as a set of ids, and the filters as a map.
use enterprise_platform.Common.{
  ℕ, String, Bool, false, not, ◌||◌, Option, none, some, List, [], ◌∷◌, ◌≡◌, refl, arith, lookup,
  lookup-insert, lookup-remove, includes, includes-append, includes-exclude, exclude-IsDistinct,
  concat-IsDistinct, IsDistinct, if◌then◌else◌, ◌==◌, eq_iff,
}
use enterprise_platform.Models.{QueryParams, FilterValue}
use enterprise_platform.Store.Features.{
  SelectionCall, selection_step, SearchCall, search_step, filters_of,
}

-- Whether an id is selected after a call, from whether it was before.
abbrev pub selected_after : SelectionCall → String → Bool → Bool
selected_after (SelectionCall.select k) j b = k == j || b
selected_after (SelectionCall.deselect k) j b = if k == j then false else b
selected_after (SelectionCall.toggle k) j b = if k == j then not b else b
selected_after (SelectionCall.select_all ks) j b = includes j ks
selected_after SelectionCall.clear_selection j b = false

-- `selectAll` is given ids that differ.
abbrev pub IsSelectable : SelectionCall → Type 0
IsSelectable (SelectionCall.select_all ks) = IsDistinct ks
IsSelectable _ = Unit

-- A call of the selection changes exactly the ids that it names, and lists none twice, provided
-- that the ids given to `selectAll` differ and no id was listed twice before.
pub selection_step-set :
    (c : SelectionCall) (ids : List String)
    → IsSelectable c
    → IsDistinct ids
    → ((j : String) → includes j (selection_step c ids) ≡ selected_after c j (includes j ids))
      × IsDistinct (selection_step c ids)
unfolding selection_step
selection_step-set (SelectionCall.select k) ids p d = (
  λ j. ground (arith, includes-append j ids (k ∷ []), eq_iff k j),
  ground (arith, concat-IsDistinct k ids d),
)
selection_step-set (SelectionCall.deselect k) ids p d =
    (λ j. includes-exclude j k ids, exclude-IsDistinct k ids d)
selection_step-set (SelectionCall.toggle k) ids p d = (
  λ j. ground (arith, includes-append j ids (k ∷ []), includes-exclude j k ids, eq_iff k j),
  ground (arith, concat-IsDistinct k ids d, exclude-IsDistinct k ids d),
)
selection_step-set (SelectionCall.select_all ks) ids p d = (λ j. refl, p)
selection_step-set SelectionCall.clear_selection ids p d = (λ j. refl, tt)

-- The filter under a key after a call.
abbrev pub filter_after : SearchCall → String → Option FilterValue → Option FilterValue
filter_after (SearchCall.set_filter k v) j o = if k == j then some v else o
filter_after (SearchCall.remove_filter k) j o = if k == j then none else o
filter_after SearchCall.clear_filters j o = none
filter_after _ j o = o

-- The page after a call: every change of the rows that match goes back to the first page.
abbrev pub page_after : SearchCall → ℕ → ℕ
page_after (SearchCall.set_sort_config _) n = n
page_after (SearchCall.set_query_page p) n = p
page_after _ n = 1

-- A call of the search slice changes the filter of no key but the one that it names, clears them
-- all only for `clearFilters`, and goes back to page 1 unless it sets the sort or the page.
pub search_step-filters :
    (c : SearchCall) (q : QueryParams)
    → ((j : String)
        → lookup j (filters_of (search_step c q)) ≡ filter_after c j (lookup j (filters_of q)))
      × ((search_step c q).page ≡ page_after c q.page)
unfolding search_step lookup
search_step-filters (SearchCall.set_filter k v) q = (λ j. lookup-insert k j v (filters_of q), refl)
search_step-filters (SearchCall.remove_filter k) q = (λ j. lookup-remove k j (filters_of q), refl)
search_step-filters _ q = (λ j. refl, refl)
