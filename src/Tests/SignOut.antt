-- ===== src/Tests/SignOut.antt =====
-- A concrete sign-out.
use enterprise_platform.Common.{ℕ, String, ◌≡◌, true, false, Option, none, some, [], ◌∷◌}
use enterprise_platform.Auth.Service.{
  AuthService, is_authenticated, session_failure, logged_out, permissions_failure, run,
}
use enterprise_platform.Auth.Service.SignOut.{sign_out_refuses}
use enterprise_platform.Auth.Guards.{
  redirect, forbidden, auth_guard, permission_guard, any_permission_guard, role_guard,
}

abbrev verbatim : String → String
verbatim s = s

abbrev never : String → Option ℕ
never s = none

abbrev signed_in : AuthService
signed_in = record {
  session = some (record { is_authenticated = true; name = some "Ann"; email = none; roles = [] });
  is_loading = false;
  antiforgery_ready = true;
  hydration = record {
    auth = record {
      roles = "Admin" ∷ [];
      permissions = "users:read" ∷ [];
      bypass = true;
      expires_at = 1000;
      loading = true;
      error = none;
    };
    in_flight = true;
  };
  monitor = record { polling = true; listening = true; expires_at = some 9000; now = 0 };
  chrome = [];
  broadcasts = 0;
  navigations = [];
}

sign_out_refuses_example :
    let after =
      run verbatim never
        ((logged_out (some "/users")) ∷ (permissions_failure none ∷ session_failure ∷ []))
        signed_in in
    (auth_guard (is_authenticated after) "/users"
      ≡ redirect "/auth/login" (("returnUrl", "/users") ∷ []))
    × (permission_guard ("users:read" ∷ []) after.hydration.auth ≡ forbidden)
    × (any_permission_guard ("users:read" ∷ []) after.hydration.auth ≡ forbidden)
    × (role_guard ("users:read" ∷ []) after.hydration.auth ≡ forbidden)
    × (after.monitor.polling ≡ false)
sign_out_refuses_example =
    sign_out_refuses verbatim never (logged_out (some "/users"))
      (permissions_failure none ∷ session_failure ∷ []) "/users" "users:read" [] signed_in tt tt
