-- ===== src/Http/Errors.antt =====
-- core/interceptors/error.interceptor.ts: what becomes of a failed request.
use enterprise_platform.Common.{
  ℕ, String, Bool, true, false, ◌&&◌, Option, none, some, List, [], ◌∷◌, Dict, if◌then◌else◌, leb,
  ltb, nat_eq, get_or, ◌++◌,
}
use enterprise_platform.Models.{ApiError}
pub mod Policy

-- The fields that `normalize` reads of a response body; all are absent from a body of plain text.
pub record ErrorBody : Type 0 where
  pub message : Option String
  pub title : Option String
  pub detail : Option String
  pub code : Option String
  pub type_uri : Option String
  pub errors : Option (Dict (List String))
  pub timestamp : Option String

-- `HttpErrorResponse`
pub record HttpErrorResponse : Type 0 where
  pub status : ℕ
  pub body : Option ErrorBody
  pub message : Option String
  pub correlation_id : Option String

abbrev no_fields : ErrorBody
no_fields = record {
  message = none;
  title = none;
  detail = none;
  code = none;
  type_uri = none;
  errors = none;
  timestamp = none;
}

-- `a ?? b` of two optional texts
abbrev or_else : Option String → Option String → Option String
or_else none b = b
or_else (some a) b = some a

unfoldable pub message_of : ErrorBody → Option String → String
message_of body message =
    get_or (or_else body.message (or_else body.title (or_else body.detail message)))
      "An unexpected error occurred."

-- `now` is `new Date().toISOString()`.
unfoldable pub normalize : String → HttpErrorResponse → ApiError
unfolding message_of
normalize now err =
    let body = get_or err.body no_fields in
    if nat_eq err.status 0
    then record {
      message = "Unable to reach the server. Please check your connection.";
      status_code = 0;
      code = some "EP.Network";
      errors = none;
      correlation_id = none;
      timestamp = none;
    }
    else record {
      message = message_of body err.message;
      status_code = err.status;
      code = or_else body.code body.type_uri;
      errors = body.errors;
      correlation_id = err.correlation_id;
      timestamp = some (get_or body.timestamp now);
    }

pub data Severity : Type 0 where
  error warn sticky : Severity

-- What the interceptor does besides: a toast with its title and text, or a navigation with the
-- `returnUrl` that it carries.
pub data Effect : Type 0 where
  toast : Severity → String → String → Effect
  navigate : String → Option String → Effect

-- `handleSideEffects`. `title` writes `Request failed (status)`, and `url` is the router's.
unfoldable pub side_effects : (ℕ → String) → String → ApiError → List Effect
side_effects title url err =
    let status = err.status_code in
    if nat_eq status 0
    then toast error "You appear to be offline" err.message ∷ []
    else if nat_eq status 401
    then toast sticky "Session expired" "Please sign in again to continue."
      ∷ navigate "/auth/login" (some url)
      ∷ []
    else if nat_eq status 403
    then toast error "Access denied" err.message ∷ navigate "/error/forbidden" none ∷ []
    else if nat_eq status 404
    then []
    else if nat_eq status 409
    then toast warn "Record changed"
        "Another user updated this record. Refresh to see the latest version."
      ∷ []
    else if nat_eq status 422
    then []
    else if nat_eq status 500
    then toast error "Server error" err.message ∷ []
    else if nat_eq status 502
    then toast error "Server error" err.message ∷ []
    else if nat_eq status 503
    then toast error "Server error" err.message ∷ []
    else if nat_eq status 504
    then toast error "Server error" err.message ∷ []
    else if leb 400 status && ltb status 500
    then toast warn (title status) err.message ∷ []
    else []

-- `catchError`: the error that is thrown on, and the effects. `skip` is whether the request had the
-- header `X-Skip-Error-Handling`.
unfoldable pub catch_error :
    (ℕ → String) → String → String → Bool → HttpErrorResponse → ApiError × List Effect
unfolding normalize side_effects
catch_error title url now skip err =
    let normalized = normalize now err in
    (normalized, if skip then [] else side_effects title url normalized)
