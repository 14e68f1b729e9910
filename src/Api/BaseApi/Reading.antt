-- ===== src/Api/BaseApi/Reading.antt =====
-- A server that reads the query parameters finds what the caller asked for.
use enterprise_platform.Common.{
  ℕ, String, false, Option, none, some, List, [], ◌∷◌, ◌≡◌, if◌then◌else◌, ◌==◌, Dict, includes,
}
use enterprise_platform.Models.{SortDirection, asc, desc, SortConfig, FilterValue, QueryOverride}
use enterprise_platform.Http.Numbers.{Parsed, natural, parse_int}
use enterprise_platform.Api.Params.{HttpParams}
use enterprise_platform.Api.BaseApi.{filter_text, non_empty, set_if, set_sort, set_page}

abbrev pub reserved : List String
reserved = "page" ∷ "pageSize" ∷ "q" ∷ "sortBy" ∷ "sortDir" ∷ []

-- The keys are distinct and none is the name of another parameter.
abbrev pub AllFree : List String → Type 0
AllFree [] = Unit
AllFree (k ∷ ks) = (includes k reserved ≡ false) × AllFree ks

-- A server's reading of the parameters.
abbrev natural_of : Parsed → Option ℕ
natural_of (natural n) = some n
natural_of _ = none

abbrev pub read_number : Option String → Option ℕ
read_number none = none
read_number (some s) = natural_of (parse_int s)

abbrev pub read_direction : String → SortDirection
read_direction s = if s == "asc" then asc else desc

abbrev pub read_sort : Option String → Option String → Option SortConfig
read_sort (some by) (some dir) = some (record { sort_field = by; direction = read_direction dir })
read_sort _ _ = none

abbrev listed : Option (Dict FilterValue) → Dict FilterValue
listed none = []
listed (some filters) = filters

abbrev pub filters_of : QueryOverride → Dict FilterValue
filters_of q = listed q.filters

module _ (http : HttpParams) where
  -- Each filter is read as the text that its value is sent as, and one that is left out is absent.
  abbrev pub AllRead : Dict FilterValue → http.Params → Type 0
  AllRead [] p = Unit
  AllRead ((k, v) ∷ filters) p = (http.get k p ≡ filter_text v) × AllRead filters p

  before_filters : QueryOverride → http.Params
  before_filters q =
      set_sort http q.sort
        (set_if http "q" (non_empty q.search) (set_page http q.page q.page_size http.no_params))
