-- ===== src/Http/Types.antt =====
-- What the interceptors use of @angular/common/http, which is not part of the repository: header
-- and parameter maps with the laws of their documentation that the theorems rely on.
use enterprise_platform.Common.{
  ℕ, String, Bool, true, Option, none, some, List, [], ◌∷◌, map, Dict, is_some, includes, lower,
  if◌then◌else◌, ◌==◌, ◌≡◌, ◌≢◌,
}

-- What a literal of headers says of a name: a later entry takes the place of an earlier one.
abbrev pub header_in : String → Dict String → Option String
header_in n [] = none
header_in n ((k, v) ∷ d) = elim (header_in n d) [
  | some w ↦ some w
  | none ↦ if lower k == lower n then some v else none
]

-- `HttpHeaders` and `HttpParams`. Header names are compared without regard to case.
pub record HttpMaps : Type 1 where
  pub Headers : Type 0
  pub Params : Type 0
  pub header : String → Headers → Option String
  pub has_header : String → Headers → Bool
  pub header_names : Headers → List String
  pub delete_header : String → Headers → Headers
  pub headers_of : Dict String → Headers
  pub param_names : Params → List String
  pub param : String → Params → Option String
  pub has_header_lem : (n : String) (h : Headers) → has_header n h ≡ is_some (header n h)
  pub header-delete_self : (n : String) (h : Headers) → header n (delete_header n h) ≡ none
  pub header-delete_other :
      (n m : String) (h : Headers) → lower n ≢ lower m → header m (delete_header n h) ≡ header m h
  pub header-same : (n m : String) (h : Headers) → lower n ≡ lower m → header n h ≡ header m h
  pub header-headers_of : (n : String) (d : Dict String) → header n (headers_of d) ≡ header_in n d
  pub header_names_lem :
      (n v : String) (h : Headers)
      → header n h ≡ some v
      → includes (lower n) (map lower (header_names h)) ≡ true

-- `HttpRequest`, as far as the interceptors read it.
pub record Request (Headers Params : Type 0) : Type 0 where
  pub method : String
  pub url_with_params : String
  pub params : Params
  pub headers : Headers

-- `HttpResponse`
pub record Response (Headers Body : Type 0) : Type 0 where
  pub body : Body
  pub status : ℕ
  pub status_text : String
  pub headers : Headers

-- `HttpEvent`: a response, or a progress event.
pub data HttpEvent (Headers Body : Type 0) : Type 0 where
  response : Response Headers Body → HttpEvent Headers Body
  progress : HttpEvent Headers Body
