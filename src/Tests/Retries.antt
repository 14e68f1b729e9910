-- ===== src/Tests/Retries.antt =====
-- Concrete runs of the retries.
use enterprise_platform.Common.{includes, upper, ℕ, zero, suc, String, ◌≡◌, ◌⊎◌, true, false, none}
use enterprise_platform.Http.Errors.{HttpErrorResponse, normalize}
use enterprise_platform.Http.Retry.{
  safe_methods, http, Outcome, done, failed, retry_interceptor, handled, retry_around_error,
}
use enterprise_platform.Http.Retry.Attempts.{Ends, retry_interceptor_lem, retry_around_error-once}

abbrev down : HttpErrorResponse
down = record { status = 503; body = none; message = none; correlation_id = none }

abbrev flaky : ℕ → Outcome String
flaky zero = failed (http down)
flaky (suc i) = done "roles"

retry_around_error-once_example :
    retry_around_error (normalize "now") 3 false "GET" flaky
    ≡ (handled (normalize "now") (flaky 0), 1)
retry_around_error-once_example = retry_around_error-once (normalize "now") 3 false "GET" flaky

retry_interceptor_lem_example :
    ((false ≡ false) × (includes (upper "GET") safe_methods ≡ true)
      → Ends 3 flaky 0 (retry_interceptor 3 false "GET" flaky))
    × ((false ≡ true) ⊎ (includes (upper "GET") safe_methods ≡ false)
        → retry_interceptor 3 false "GET" flaky ≡ (flaky 0, 1))
retry_interceptor_lem_example = retry_interceptor_lem 3 false "GET" flaky
