-- ===== src/Models.antt =====
-- core/models: the envelopes that the API answers with, its errors, and the list parameters.
use enterprise_platform.Common.{ℕ, String, Bool, Option, none, some, List, [], Dict}

-- `ApiError`; an absent optional field is `none`.
pub record ApiError : Type 0 where
  pub message : String
  pub status_code : ℕ
  pub code : Option String
  pub errors : Option (Dict (List String))
  pub correlation_id : Option String
  pub timestamp : Option String

-- The field `data` of the envelopes is called `items` here and `item` below, since `data` is a
-- word of the language.
pub record PagedResponse (T : Type 0) : Type 0 where
  pub items : List T
  pub total : ℕ
  pub page : ℕ
  pub page_size : ℕ
  pub total_pages : ℕ
  pub has_next : Bool
  pub has_prev : Bool

pub record ApiResponse (T : Type 0) : Type 0 where
  pub item : T
  pub message : Option String
  pub success : Bool

pub data SortDirection : Type 0 where
  asc desc : SortDirection

pub record SortConfig : Type 0 where
  pub sort_field : String
  pub direction : SortDirection

-- The values of the filter map, of type `unknown` in the source.
pub data FilterValue : Type 0 where
  null undefined : FilterValue
  text : String → FilterValue
  number : ℕ → FilterValue
  flag : Bool → FilterValue

pub record QueryParams : Type 0 where
  pub page : ℕ
  pub page_size : ℕ
  pub search : Option String
  pub sort : Option SortConfig
  pub filters : Option (Dict FilterValue)

-- `Partial<QueryParams>`: an absent key is `none`.
pub record QueryOverride : Type 0 where
  pub page : Option ℕ
  pub page_size : Option ℕ
  pub search : Option String
  pub sort : Option SortConfig
  pub filters : Option (Dict FilterValue)

abbrev pub default_query_params : QueryParams
default_query_params = record {
  page = 1;
  page_size = 20;
  search = some "";
  sort = none;
  filters = some [];
}
