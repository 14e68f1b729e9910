-- ===== src/Tests/Failures.antt =====
-- Concrete failures in the error interceptor.
use enterprise_platform.Common.{ℕ, String, none}
use enterprise_platform.Models.{ApiError}

abbrev plain_title : ℕ → String
plain_title status = "Request failed"

abbrev unavailable : ApiError
unavailable = record {
  message = "Unavailable";
  status_code = 503;
  code = none;
  errors = none;
  correlation_id = none;
  timestamp = none;
}
