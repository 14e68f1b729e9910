-- ===== src/Auth/Permissions/Lifecycle.antt =====
-- core/auth/auth.store.ts: what the loading of the permissions promises over sequences of events.
use enterprise_platform.Common.{
  ℕ, String, true, false, Option, List, [], ◌∷◌, map, any, all, includes, lower, ◌≡◌, refl, ap,
  ◌==◌, arith,
}
use enterprise_platform.Auth.Permissions.{
  AuthState, EffectivePermissions, Event, Hydration, arrived, failed, hydrate, has_any_permission,
  has_any_role, has_role, is_stale, reset_all, run, step, hydrate_begin, hydrate_failed, hydrated,
  reset, has_all_permissions,
}
use enterprise_platform.Auth.Guards.{forbidden, permission_guard, any_permission_guard, role_guard}

-- No response of a load arrives, and nothing resets the store.
abbrev pub IsFruitless : List Event → Type 0
IsFruitless [] = Unit
IsFruitless (hydrate ∷ es) = IsFruitless es
IsFruitless (arrived _ _ ∷ es) = ⊥
IsFruitless (failed _ ∷ es) = IsFruitless es
IsFruitless (reset_all ∷ es) = ⊥

-- The grants of two states are the same.
abbrev pub SameGrants : AuthState → AuthState → Type 0
SameGrants s t =
    (s.roles ≡ t.roles)
    × (s.permissions ≡ t.permissions)
    × (s.bypass ≡ t.bypass)
    × (s.expires_at ≡ t.expires_at)

run-SameGrants :
    (es : List Event) (h : Hydration) → IsFruitless es → SameGrants (run es h).auth h.auth
unfolding run step hydrate_begin hydrate_failed
run-SameGrants [] h f = (refl, refl, refl, refl)
run-SameGrants (hydrate ∷ es) h f = run-SameGrants es (step hydrate h) f
run-SameGrants (arrived _ _ ∷ es) h f = elim f [ ]
run-SameGrants (failed text ∷ es) h f = ground (arith, run-SameGrants es (step (failed text) h) f)
run-SameGrants (reset_all ∷ es) h f = elim f [ ]

guards-SameGrants :
    (required : List String) (s t : AuthState)
    → SameGrants s t
    → (permission_guard required s ≡ permission_guard required t)
      × (any_permission_guard required s ≡ any_permission_guard required t)
      × (role_guard required s ≡ role_guard required t)
unfolding permission_guard any_permission_guard role_guard has_role has_all_permissions
    has_any_permission has_any_role
guards-SameGrants [] s t (roles, perms, bypass, at) = (refl, refl, refl)
guards-SameGrants (r ∷ rs) s t (roles, perms, bypass, at) = ground (
  arith,
  ap (λ xs. all (λ p. includes (lower p) (map lower xs)) (r ∷ rs)) perms,
  ap (λ xs. any (λ p. includes (lower p) (map lower xs)) (r ∷ rs)) perms,
  ap (λ xs. any (λ q. any (λ x. lower x == lower q) xs) (r ∷ rs)) roles,
)

-- However many loads start and fail, and however late it is, the guards answer as before the
-- first of them: permissions that are stale, and whose last load has failed, still open routes.
pub failed_hydration_keeps_grants :
    (es : List Event) (h : Hydration) (text : Option String) (required : List String)
    → IsFruitless es
    → let after = run (hydrate ∷ failed text ∷ es) h in
      (permission_guard required after.auth ≡ permission_guard required h.auth)
      × (any_permission_guard required after.auth ≡ any_permission_guard required h.auth)
      × (role_guard required after.auth ≡ role_guard required h.auth)
failed_hydration_keeps_grants es h text required f =
    let after = run (hydrate ∷ failed text ∷ es) h in
    guards-SameGrants required after.auth h.auth (run-SameGrants (hydrate ∷ failed text ∷ es) h f)

pub any_never : (xs : List String) → any (λ x. false) xs ≡ false
any_never [] = refl
any_never (x ∷ xs) = any_never xs

-- After a reset every guard that requires something refuses, and the permissions count as stale.
pub reset_refuses :
    (h : Hydration) (now : ℕ) (r : String) (required : List String)
    → let after = run (reset_all ∷ []) h in
      (permission_guard (r ∷ required) after.auth ≡ forbidden)
      × (any_permission_guard (r ∷ required) after.auth ≡ forbidden)
      × (role_guard (r ∷ required) after.auth ≡ forbidden)
      × (is_stale now after.auth ≡ true)
unfolding run step reset permission_guard any_permission_guard role_guard is_stale has_role
    has_all_permissions has_any_permission has_any_role
reset_refuses h now r required = ground (arith, any_never required)

-- A reset does not stop a load in flight: when its response arrives, the store is the one that the
-- load gives without the reset.
pub late_hydration_undoes_reset :
    (resp : EffectivePermissions) (now : ℕ) (h : Hydration)
    → run (hydrate ∷ reset_all ∷ arrived resp now ∷ []) h ≡ run (hydrate ∷ arrived resp now ∷ []) h
unfolding run step hydrated
late_hydration_undoes_reset resp now h = refl
