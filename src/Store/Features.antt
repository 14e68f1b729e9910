-- ===== src/Store/Features.antt =====
-- core/store/base/store-features: the loading, pagination, search and selection slices of a store,
-- one record for each slice and one function for each method.
pub mod Laws
use enterprise_platform.Common.{
  ℕ, String, Bool, true, false, not, ◌&&◌, Option, none, some, List, [], ◌∷◌, ◌++◌, Dict, insert,
  remove, if◌then◌else◌, includes, exclude, length, filter, ltb, nat_eq, get_or, ◌==◌, map,
}
use enterprise_platform.Models.{
  ApiError, QueryParams, SortConfig, FilterValue, default_query_params,
}

-- with-loading.feature.ts
pub record LoadingState : Type 0 where
  pub loading : Bool
  pub loading_detail : Bool
  pub saving : Bool
  pub deleting : Bool
  pub error : Option ApiError

abbrev pub initial_loading : LoadingState
initial_loading = record {
  loading = false;
  loading_detail = false;
  saving = false;
  deleting = false;
  error = none;
}

-- One constructor for each setter.
pub data LoadingCall : Type 0 where
  set_loading set_loading_detail set_saving set_deleting : Bool → LoadingCall
  set_loaded clear_error : LoadingCall
  set_error : ApiError → LoadingCall

unfoldable pub loading_step : LoadingCall → LoadingState → LoadingState
loading_step (set_loading b) s = record s { loading = b; error = none }
loading_step (set_loading_detail b) s = record s { loading_detail = b; error = none }
loading_step (set_saving b) s = record s { saving = b; error = none }
loading_step (set_deleting b) s = record s { deleting = b; error = none }
loading_step set_loaded s = initial_loading
loading_step (set_error e) s = record initial_loading { error = some e }
loading_step clear_error s = record s { error = none }

-- with-pagination.feature.ts
pub record PaginationState : Type 0 where
  pub page : ℕ
  pub page_size : ℕ
  pub total : ℕ
  pub total_pages : ℕ

unfoldable pub initial_pagination : ℕ → PaginationState
initial_pagination size = record { page = 1; page_size = size; total = 0; total_pages = 0 }

unfoldable pub has_next : PaginationState → Bool
has_next s = ltb s.page s.total_pages

unfoldable pub has_prev : PaginationState → Bool
has_prev s = ltb 1 s.page

pub data PaginationCall : Type 0 where
  set_page set_page_size : ℕ → PaginationCall
  set_pagination_from_response : PaginationState → PaginationCall

unfoldable pub pagination_step : PaginationCall → PaginationState → PaginationState
pagination_step (set_page n) s = record s { page = n }
pagination_step (set_page_size n) s = record s { page_size = n; page = 1 }
pagination_step (set_pagination_from_response r) s = r

-- with-search.feature.ts
pub data SearchCall : Type 0 where
  set_search_query : String → SearchCall
  set_sort_config : Option SortConfig → SearchCall
  set_filter : String → FilterValue → SearchCall
  remove_filter : String → SearchCall
  clear_filters : SearchCall
  set_query_page set_query_page_size : ℕ → SearchCall

abbrev pub filters_of : QueryParams → Dict FilterValue
filters_of q = get_or q.filters []

unfoldable pub search_step : SearchCall → QueryParams → QueryParams
search_step (set_search_query q) s = record s { search = some q; page = 1 }
search_step (set_sort_config c) s = record s { sort = c }
search_step (set_filter k v) s = record s { filters = some (insert k v (filters_of s)); page = 1 }
search_step (remove_filter k) s = record s { filters = some (remove k (filters_of s)); page = 1 }
search_step clear_filters s = record s { filters = some []; page = 1 }
search_step (set_query_page n) s = record s { page = n }
search_step (set_query_page_size n) s = record s { page_size = n; page = 1 }

unfoldable pub search_query : QueryParams → String
search_query s = get_or s.search ""

-- `v !== null && v !== undefined && v !== ''`
unfoldable pub is_active : FilterValue → Bool
is_active FilterValue.null = false
is_active FilterValue.undefined = false
is_active (FilterValue.text t) = not (t == "")
is_active (FilterValue.number n) = true
is_active (FilterValue.flag b) = true

unfoldable pub active_filters : QueryParams → ℕ
unfolding is_active
active_filters s = length (filter is_active (map (λ kv. kv.1) (filters_of s)))

-- with-selection.feature.ts
pub data SelectionCall : Type 0 where
  select deselect toggle : String → SelectionCall
  select_all : List String → SelectionCall
  clear_selection : SelectionCall

unfoldable pub selection_step : SelectionCall → List String → List String
selection_step (select k) ids = if includes k ids then ids else ids ++ k ∷ []
selection_step (deselect k) ids = exclude k ids
selection_step (toggle k) ids = if includes k ids then exclude k ids else ids ++ k ∷ []
selection_step (select_all ks) ids = ks
selection_step clear_selection ids = []

unfoldable pub selection_count : List String → ℕ
selection_count ids = length ids

unfoldable pub has_selection : List String → Bool
has_selection ids = ltb 0 (length ids)
