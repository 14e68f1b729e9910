-- ===== src/Api/BaseApi/Parameters.antt =====
-- What HttpParams holds under a name after the steps of `buildParams`.
use enterprise_platform.Common.{
  ℕ, String, true, false, Option, none, some, List, [], ◌∷◌, ◌≡◌, refl, ◌∙◌, arith, ◌==◌, Dict,
  includes, text_of_nat,
}
use enterprise_platform.Models.{SortConfig, FilterValue}
use enterprise_platform.Api.Params.{HttpParams}
use enterprise_platform.Api.BaseApi.{
  direction_text, filter_text, set_if, set_filters, set_sort, set_page,
}

abbrev pub filter_keys : Dict FilterValue → List String
filter_keys [] = []
filter_keys ((k, v) ∷ filters) = k ∷ filter_keys filters

abbrev pub written : Option ℕ → Option String
written none = none
written (some n) = some (text_of_nat n)

module _ (http : HttpParams) where
  pub get-set_if :
      (k j : String) (o : Option String) (p : http.Params)
      → (k == j) ≡ false
      → http.get j (set_if http k o p) ≡ http.get j p
  get-set_if k j none p h = refl
  get-set_if k j (some v) p h = http.get-set k j v p ∙ rw h refl

  pub get-set_filters_other :
      (j : String) (filters : Dict FilterValue) (p : http.Params)
      → includes j (filter_keys filters) ≡ false
      → http.get j (set_filters http filters p) ≡ http.get j p
  unfolding set_filters
  get-set_filters_other j [] p h = refl
  get-set_filters_other j ((k, v) ∷ filters) p h =
      get-set_filters_other j filters (set_if http k (filter_text v) p) (ground (arith, h))
      ∙ get-set_if k j (filter_text v) p (ground (arith, h))

  pub get-set_sort_other :
      (j : String) (sort : Option SortConfig) (p : http.Params)
      → ("sortBy" == j) ≡ false
      → ("sortDir" == j) ≡ false
      → http.get j (set_sort http sort p) ≡ http.get j p
  get-set_sort_other j none p h h' = refl
  get-set_sort_other j (some s) p h h' =
      http.get-set "sortDir" j (direction_text s.direction) (http.set "sortBy" s.sort_field p)
      ∙ rw h' (http.get-set "sortBy" j s.sort_field p ∙ rw h refl)

  pub get-set_page_other :
      (j : String) (page size : Option ℕ)
      → ("page" == j) ≡ false
      → ("pageSize" == j) ≡ false
      → http.get j (set_page http page size http.no_params) ≡ none
  get-set_page_other j none none h h' = http.get-no_params j
  get-set_page_other j none (some s) h h' =
      http.get-set "pageSize" j (text_of_nat s) http.no_params ∙ rw h' (http.get-no_params j)
  get-set_page_other j (some n) none h h' =
      http.get-set "page" j (text_of_nat n) http.no_params ∙ rw h (http.get-no_params j)
  get-set_page_other j (some n) (some s) h h' =
      http.get-set "pageSize" j (text_of_nat s) (http.set "page" (text_of_nat n) http.no_params)
      ∙ rw h' (http.get-set "page" j (text_of_nat n) http.no_params ∙ rw h (http.get-no_params j))

  pub get-page :
      (page size : Option ℕ)
      → http.get "page" (set_page http page size http.no_params) ≡ written page
  get-page none none = http.get-no_params "page"
  get-page none (some s) =
      http.get-set "pageSize" "page" (text_of_nat s) http.no_params ∙ http.get-no_params "page"
  get-page (some n) none = http.get-set "page" "page" (text_of_nat n) http.no_params
  get-page (some n) (some s) =
      http.get-set "pageSize" "page" (text_of_nat s)
        (http.set "page" (text_of_nat n) http.no_params)
      ∙ http.get-set "page" "page" (text_of_nat n) http.no_params

  pub get-page_size :
      (page size : Option ℕ)
      → http.get "pageSize" (set_page http page size http.no_params) ≡ written size
  get-page_size none none = http.get-no_params "pageSize"
  get-page_size (some n) none =
      http.get-set "page" "pageSize" (text_of_nat n) http.no_params ∙ http.get-no_params "pageSize"
  get-page_size none (some s) = http.get-set "pageSize" "pageSize" (text_of_nat s) http.no_params
  get-page_size (some n) (some s) =
      http.get-set "pageSize" "pageSize" (text_of_nat s)
        (http.set "page" (text_of_nat n) http.no_params)

  pub get-set_if_same :
      (k : String) (o : Option String) (p : http.Params)
      → (k == k) ≡ true
      → http.get k p ≡ none
      → http.get k (set_if http k o p) ≡ o
  get-set_if_same k none p h e = e
  get-set_if_same k (some v) p h e = http.get-set k k v p ∙ rw h refl
