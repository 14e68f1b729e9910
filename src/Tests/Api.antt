-- ===== src/Tests/Api.antt =====
-- Parameters as a dictionary, and requests of the users API.
use enterprise_platform.Common.{
  trim, if◌then◌else◌, is_some, Dict, lookup, insert, lookup-insert, String, ◌≡◌, refl, ◌≢◌, true,
  none, some, [], ◌∷◌, ◌==◌,
}
use enterprise_platform.Models.{desc, FilterValue, QueryOverride}
use enterprise_platform.Api.Params.{HttpParams}
use enterprise_platform.Api.UsersApi.Headers.{header_of, send-keyed}
use enterprise_platform.Api.UsersApi.{MutationOptions, activate, send}

get-set_dict :
    (k j v : String) (p : Dict String)
    → lookup j (insert k v p) ≡ (if k == j then some v else lookup j p)
get-set_dict k j v p = lookup-insert k j v p

no_entry : (k : String) → lookup {V = String} k [] ≡ none
unfolding lookup
no_entry k = refl

abbrev dict_params : HttpParams
dict_params = record {
  Params = Dict String;
  no_params = [];
  set = insert;
  get = lookup;
  get-no_params = no_entry;
  get-set = get-set_dict;
}

abbrev page_query : QueryOverride
page_query = record {
  page = some 12;
  page_size = none;
  search = some "ann";
  sort = some (record { sort_field = "name"; direction = desc });
  filters = some (("role", FilterValue.text "admin") ∷ ("team", FilterValue.null) ∷ []);
}

abbrev quiet : MutationOptions
quiet = record { idempotency_key = some "  "; suppress_global_error = true }

send-keyed_example :
    ((key : String) × ((header_of "X-Idempotency-Key"
            (send dict_params (λ s. s) "/api/users" (activate "u1") quiet "k-1").headers
          ≡ some key)
        × ((key ≢ "") × (trim key ≡ key))))
    × (is_some (
          header_of "X-Skip-Error-Handling"
            (send dict_params (λ s. s) "/api/users" (activate "u1") quiet "k-1").headers)
        ≡ quiet.suppress_global_error)
unfolding trim
send-keyed_example =
    send-keyed dict_params (λ s. s) "/api/users" (activate "u1") quiet "k-1" (λ e. cc) refl
