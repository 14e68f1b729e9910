-- ===== src/Http/Retry.antt =====
-- core/interceptors/retry.interceptor.ts, with the options `retries` and `retryDelayMs` of the
-- environment as arguments.
use Prim.Native.Nat.{min}
use enterprise_platform.Common.{
  ℕ, zero, suc, ◌+◌, ◌-◌, ◌*◌, ◌/◌, ◌^◌, String, Bool, true, false, not, ◌||◌, Option, none, some,
  List, [], ◌∷◌, includes, upper, if◌then◌else◌, leb, nat_eq,
}
use enterprise_platform.Models.{ApiError}
use enterprise_platform.Http.Errors.{HttpErrorResponse}
pub mod Attempts
pub mod Delays

abbrev pub safe_methods : List String
safe_methods = "GET" ∷ "HEAD" ∷ "OPTIONS" ∷ []

-- What a handler may throw: the browser's error, or the error interceptor's.
pub data Thrown : Type 0 where
  http : HttpErrorResponse → Thrown
  api : ApiError → Thrown

-- `err.status`: an `ApiError` has no such field.
unfoldable pub status_of : Thrown → Option ℕ
status_of (http e) = some e.status
status_of (api e) = none

-- `RETRYABLE_STATUSES.has(err.status)`
unfoldable pub is_retryable : Option ℕ → Bool
is_retryable none = false
is_retryable (some s) = nat_eq s 502 || (nat_eq s 503 || nat_eq s 504)

-- The end of one subscription to `next(req)`.
pub data Outcome (A : Type 0) : Type 0 where
  done : A → Outcome A
  failed : Thrown → Outcome A

-- `retry({ count, delay })` from the subscription `i` on, with `count` more allowed: it subscribes
-- again after a failure unless `delay` throws the error on. `server` has the outcome of every
-- subscription. The result is the outcome that stands, and how many subscriptions were made.
unfoldable pub retry_loop : {A : Type 0} → ℕ → (ℕ → Outcome A) → ℕ → Outcome A × ℕ
retry_loop zero server i = (server i, i + 1)
retry_loop (suc count) server i = elim (server i) [
  | done a ↦ (done a, i + 1)
  | failed e ↦ elim (is_retryable (status_of e)) [
    | true ↦ retry_loop count server (i + 1)
    | false ↦ (failed e, i + 1)
  ]
]

-- `skip` is whether the request has the header `X-Skip-Retry`.
unfoldable pub retry_interceptor :
    {A : Type 0} → ℕ → Bool → String → (ℕ → Outcome A) → Outcome A × ℕ
unfolding retry_loop
retry_interceptor max_retries skip method server =
    if skip
    then (server 0, 1)
    else if not (includes (upper method) safe_methods) || leb max_retries 0
    then (server 0, 1)
    else retry_loop max_retries server 0

-- `computeDelayMs`, where `Math.random()` is `r / d`: the base delay times 1 + (r / d / 2 - 1 / 4),
-- rounded.
unfoldable pub base_delay : ℕ → ℕ → ℕ
base_delay attempt base_ms = 2 ^ (min attempt 6 - 1) * base_ms

unfoldable pub compute_delay_ms : ℕ → ℕ → ℕ → ℕ → ℕ
compute_delay_ms attempt base_ms r d =
    (base_delay attempt base_ms * (3 * d + 2 * r) + 2 * d) / (4 * d)

-- `errorInterceptor` around one subscription: the effects are left aside.
unfoldable pub handled : {A : Type 0} → (HttpErrorResponse → ApiError) → Outcome A → Outcome A
handled caught (done a) = done a
handled caught (failed (http e)) = failed (api (caught e))
handled caught (failed (api e)) = failed (api e)

-- config/app.config.ts lists `retryInterceptor` in front of `errorInterceptor`, and the first listed
-- is the outermost: what the retry sees is what the error interceptor throws.
unfoldable pub retry_around_error :
    {A : Type 0}
    → (HttpErrorResponse → ApiError)
    → ℕ
    → Bool
    → String
    → (ℕ → Outcome A)
    → Outcome A × ℕ
unfolding handled retry_interceptor
retry_around_error caught max_retries skip method server =
    retry_interceptor max_retries skip method (λ i. handled caught (server i))
