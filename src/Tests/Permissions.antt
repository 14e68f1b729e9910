-- ===== src/Tests/Permissions.antt =====
-- Concrete states of the permission store and its guards.
use enterprise_platform.Common.{includes, String, ◌≡◌, ◌↔◌, ◌⊎◌, true, false, none, some, [], ◌∷◌}
use enterprise_platform.Auth.Permissions.{AuthState, Hydration, hydrate, failed, run}
use enterprise_platform.Auth.Guards.{
  allow, forbidden, permission_guard, any_permission_guard, role_guard, Holds, permission_guard_iff,
}
use enterprise_platform.Auth.Permissions.Lifecycle.{failed_hydration_keeps_grants}

abbrev clerk : AuthState
clerk = record {
  roles = "Clerk" ∷ [];
  permissions = "users:read" ∷ "roles:read" ∷ [];
  bypass = false;
  expires_at = 1000;
  loading = false;
  error = none;
}

abbrev settled : Hydration
settled = record { auth = clerk; in_flight = false }

permission_guard_iff_example :
    ((permission_guard ("Users:Read" ∷ []) clerk ≡ allow) ↔ (
      (clerk.bypass ≡ true)
      ⊎ ((p : String) → includes p ("Users:Read" ∷ []) ≡ true → Holds clerk.permissions p)))
    × ((permission_guard ("Users:Read" ∷ []) clerk ≡ allow)
        ⊎ (permission_guard ("Users:Read" ∷ []) clerk ≡ forbidden))
permission_guard_iff_example = permission_guard_iff ("Users:Read" ∷ []) clerk

failed_hydration_keeps_grants_example :
    let after = run (hydrate ∷ failed (some "offline") ∷ (hydrate ∷ failed none ∷ [])) settled in
    (permission_guard ("users:read" ∷ []) after.auth
      ≡ permission_guard ("users:read" ∷ []) settled.auth)
    × (any_permission_guard ("users:read" ∷ []) after.auth
        ≡ any_permission_guard ("users:read" ∷ []) settled.auth)
    × (role_guard ("users:read" ∷ []) after.auth ≡ role_guard ("users:read" ∷ []) settled.auth)
failed_hydration_keeps_grants_example =
    failed_hydration_keeps_grants (hydrate ∷ failed none ∷ []) settled (some "offline")
      ("users:read" ∷ []) tt
