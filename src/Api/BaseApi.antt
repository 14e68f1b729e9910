-- ===== src/Api/BaseApi.antt =====
-- app/core/http/base-api.service.ts: the query parameters of a list and the requests of the CRUD
-- methods. `encode` is `encodeURIComponent`.
pub mod Parameters
pub mod Reading
use enterprise_platform.Common.{
  ℕ, String, Bool, true, false, Option, none, some, List, [], ◌∷◌, if◌then◌else◌, ◌==◌, Dict,
  text_of_nat, ◌⊕◌,
}
use enterprise_platform.Models.{
  SortDirection, asc, desc, SortConfig, FilterValue, null, undefined, text, number, flag,
  QueryOverride,
}
use enterprise_platform.Api.Params.{HttpParams, Sent}

abbrev pub direction_text : SortDirection → String
direction_text asc = "asc"
direction_text desc = "desc"

-- What a filter value is sent as; none when it is left out.
unfoldable pub filter_text : FilterValue → Option String
unfolding text_of_nat
filter_text null = none
filter_text undefined = none
filter_text (text s) = if s == "" then none else some s
filter_text (number n) = some (text_of_nat n)
filter_text (flag true) = some "true"
filter_text (flag false) = some "false"

-- `if (text) httpParams.set(…)`: the empty text is falsy.
abbrev pub non_empty : Option String → Option String
non_empty none = none
non_empty (some s) = if s == "" then none else some s

module _ (http : HttpParams) where
  abbrev pub set_if : String → Option String → http.Params → http.Params
  set_if k none p = p
  set_if k (some v) p = http.set k v p

  unfoldable pub set_filters : Dict FilterValue → http.Params → http.Params
  unfolding filter_text
  set_filters [] p = p
  set_filters ((k, v) ∷ filters) p = set_filters filters (set_if k (filter_text v) p)

  abbrev pub set_sort : Option SortConfig → http.Params → http.Params
  set_sort none p = p
  set_sort (some s) p =
      http.set "sortDir" (direction_text s.direction) (http.set "sortBy" s.sort_field p)

  abbrev pub set_page : Option ℕ → Option ℕ → http.Params → http.Params
  set_page none none p = p
  set_page none (some size) p = http.set "pageSize" (text_of_nat size) p
  set_page (some page) none p = http.set "page" (text_of_nat page) p
  set_page (some page) (some size) p =
      http.set "pageSize" (text_of_nat size) (http.set "page" (text_of_nat page) p)

  abbrev pub set_all_filters : Option (Dict FilterValue) → http.Params → http.Params
  set_all_filters none p = p
  set_all_filters (some filters) p = set_filters filters p

  unfoldable pub build_params : Option QueryOverride → http.Params
  unfolding set_filters
  build_params none = http.no_params
  build_params (some q) = set_all_filters q.filters (
      set_sort q.sort
        (set_if "q" (non_empty q.search) (set_page q.page q.page_size http.no_params)))

unfoldable pub build_if_match : Option String → List (String × String)
build_if_match none = []
build_if_match (some version) =
    if version == "" then [] else ("If-Match", "\"" ⊕ version ⊕ "\"") ∷ []

abbrev pub entity_url : (String → String) → String → String → String
entity_url encode url id = url ⊕ "/" ⊕ encode id

-- The requests. An entity is sent as it is given, with its `version` beside it.
module _ (http : HttpParams) {B : Type 0} (encode : String → String) (url : String) where
  unfoldable pub get_all : Option QueryOverride → Sent http.Params B
  unfolding build_params
  get_all params = record {
    method = "GET";
    url = url;
    params = some (build_params http params);
    headers = [];
    body = none;
  }

  abbrev pub get_by_id : String → Sent http.Params B
  get_by_id id = record {
    method = "GET";
    url = entity_url encode url id;
    params = none;
    headers = [];
    body = none;
  }

  abbrev pub create : B → Sent http.Params B
  create entity = record {
    method = "POST";
    url = url;
    params = none;
    headers = [];
    body = some entity;
  }

  unfoldable pub update : String → B → Option String → Sent http.Params B
  unfolding build_if_match
  update id entity version = record {
    method = "PUT";
    url = entity_url encode url id;
    params = none;
    headers = build_if_match version;
    body = some entity;
  }

  unfoldable pub patch : String → B → Option String → Sent http.Params B
  unfolding build_if_match
  patch id entity version = record {
    method = "PATCH";
    url = entity_url encode url id;
    params = none;
    headers = build_if_match version;
    body = some entity;
  }

  abbrev pub delete : String → Sent http.Params B
  delete id = record {
    method = "DELETE";
    url = entity_url encode url id;
    params = none;
    headers = [];
    body = none;
  }

  -- `ids_body` is the object `{ ids }`.
  abbrev pub bulk_delete : (List String → B) → List String → Sent http.Params B
  bulk_delete ids_body ids = record {
    method = "POST";
    url = url ⊕ "/bulk-delete";
    params = none;
    headers = [];
    body = some (ids_body ids);
  }
