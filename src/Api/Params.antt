-- ===== src/Api/Params.antt =====
-- Angular's HttpParams, as the services use it: `set` gives a name its only value, `get` reads it.
-- HttpClient is the request that it is asked to send.
use enterprise_platform.Common.{String, Option, none, some, List, ◌≡◌, if◌then◌else◌, ◌==◌}

pub record HttpParams : Type 1 where
  pub Params : Type 0
  pub no_params : Params
  pub set : String → String → Params → Params
  pub get : String → Params → Option String
  pub get-no_params : (k : String) → get k no_params ≡ none
  pub get-set :
      (k j v : String) (p : Params) → get j (set k v p) ≡ (if k == j then some v else get j p)

-- The body of a request is kept as it is given; headers are the names and values that are set.
pub record Sent (P B : Type 0) : Type 0 where
  pub method : String
  pub url : String
  pub params : Option P
  pub headers : List (String × String)
  pub body : Option B
