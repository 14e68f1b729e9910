-- ===== src/Api/UsersApi.antt =====
-- app/features/users/data/users-api.service.ts: the requests of the users API. `encode` is
-- `encodeURIComponent`, and `generated` the key that `generateIdempotencyKey` makes for the call.
-- The schemas that parse the responses are not modelled.
pub mod Headers
use enterprise_platform.Common.{
  ℕ, String, Bool, true, false, Option, none, some, List, [], ◌∷◌, ◌++◌, if◌then◌else◌, ◌==◌, trim,
  text_of_nat, ◌⊕◌,
}
use enterprise_platform.Users.Types.{
  ListUsersParams, CreateUserRequest, RenameUserRequest, ChangeUserEmailRequest,
  DeactivateUserRequest,
}
use enterprise_platform.Api.Params.{HttpParams, Sent}
use enterprise_platform.Api.BaseApi.{set_if, non_empty, entity_url}

pub record MutationOptions : Type 0 where
  pub idempotency_key : Option String
  pub suppress_global_error : Bool

pub data Body : Type 0 where
  create_body : CreateUserRequest → Body
  rename_body : RenameUserRequest → Body
  email_body : ChangeUserEmailRequest → Body
  deactivate_body : DeactivateUserRequest → Body
  null_body : Body

-- `options.idempotencyKey?.trim() || generateIdempotencyKey()`
unfoldable pub idempotency_key_of : MutationOptions → String → String
unfolding trim
idempotency_key_of options generated = elim options.idempotency_key [
  | none ↦ generated
  | some key ↦ if trim key == "" then generated else trim key
]

abbrev skip_if : Bool → List (String × String)
skip_if true = ("X-Skip-Error-Handling", "true") ∷ []
skip_if false = []

unfoldable pub mutation_headers : MutationOptions → String → List (String × String)
unfolding idempotency_key_of
mutation_headers options generated =
    ("X-Idempotency-Key", idempotency_key_of options generated)
    ∷ skip_if options.suppress_global_error

abbrev pub suppression_header : Bool → List (String × String)
suppression_header suppress = skip_if suppress

abbrev flag_text : Option Bool → Option String
flag_text none = none
flag_text (some true) = some "true"
flag_text (some false) = some "false"

pub data Mutation : Type 0 where
  create : CreateUserRequest → Mutation
  rename : String → RenameUserRequest → Mutation
  change_email : String → ChangeUserEmailRequest → Mutation
  activate : String → Mutation
  deactivate : String → DeactivateUserRequest → Mutation

module _ (http : HttpParams) (encode : String → String) (url : String) where
  unfoldable pub list : ListUsersParams → Sent http.Params Body
  unfolding text_of_nat
  list params =
      let paged =
        http.set "pageSize" (text_of_nat params.page_size)
          (http.set "page" (text_of_nat params.page) http.no_params) in
      record {
        method = "GET";
        url = url;
        params = some (
            set_if http "activeOnly" (flag_text params.active_only)
              (set_if http "search" (non_empty params.search) paged));
        headers = [];
        body = none;
      }

  abbrev pub get_by_id : String → Bool → Sent http.Params Body
  get_by_id id suppress = record {
    method = "GET";
    url = entity_url encode url id;
    params = none;
    headers = suppression_header suppress;
    body = none;
  }

  -- The requests that change a user, with the headers that they all get.
  unfoldable pub send : Mutation → MutationOptions → String → Sent http.Params Body
  unfolding mutation_headers
  send (create request) options generated = record {
    method = "POST";
    url = url;
    params = none;
    headers = mutation_headers options generated;
    body = some (create_body request);
  }
  send (rename id request) options generated = record {
    method = "PUT";
    url = entity_url encode url id ⊕ "/name";
    params = none;
    headers = mutation_headers options generated;
    body = some (rename_body request);
  }
  send (change_email id request) options generated = record {
    method = "PUT";
    url = entity_url encode url id ⊕ "/email";
    params = none;
    headers = mutation_headers options generated;
    body = some (email_body request);
  }
  send (activate id) options generated = record {
    method = "POST";
    url = entity_url encode url id ⊕ "/activate";
    params = none;
    headers = mutation_headers options generated;
    body = some null_body;
  }
  send (deactivate id request) options generated = record {
    method = "POST";
    url = entity_url encode url id ⊕ "/deactivate";
    params = none;
    headers = mutation_headers options generated;
    body = some (deactivate_body request);
  }
