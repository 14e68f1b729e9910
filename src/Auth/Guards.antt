-- ===== src/Auth/Guards.antt =====
-- core/guards: what the route guards answer for the state of the stores.
use enterprise_platform.Common.{
  String, Bool, true, not, Option, List, [], ◌∷◌, map, all, includes, lower, get_or, if◌then◌else◌,
  ◌==◌, ◌≡◌, ◌↔◌, ◌⊎◌, inl, inr, refl, arith, eq_iff, eq_refl, Bool-cases,
}
use enterprise_platform.Auth.Permissions.{
  AuthState, has_any_permission, has_all_permissions, has_role, has_any_role,
}

-- `true`, or the `UrlTree` of a path with its query parameters.
pub data Verdict : Type 0 where
  allow : Verdict
  redirect : String → List (String × String) → Verdict

abbrev pub forbidden : Verdict
forbidden = redirect "/error/forbidden" []

unfoldable pub auth_guard : Bool → String → Verdict
auth_guard is_authenticated url =
    if is_authenticated then allow else redirect "/auth/login" (("returnUrl", url) ∷ [])

unfoldable pub permission_guard : List String → AuthState → Verdict
unfolding has_all_permissions
permission_guard [] s = allow
permission_guard (p ∷ ps) s = if has_all_permissions (p ∷ ps) s then allow else forbidden

unfoldable pub any_permission_guard : List String → AuthState → Verdict
unfolding has_any_permission
any_permission_guard [] s = allow
any_permission_guard (p ∷ ps) s = if has_any_permission (p ∷ ps) s then allow else forbidden

unfoldable pub role_guard : List String → AuthState → Verdict
unfolding has_any_role has_role
role_guard [] s = allow
role_guard (r ∷ rs) s = if has_any_role (r ∷ rs) s then allow else forbidden

-- Whether the form has unsaved changes, the form's own message, and what the user answers to a
-- message.
unfoldable pub unsaved_changes_guard : Bool → Option String → (String → Bool) → Bool
unsaved_changes_guard dirty message confirm =
    if not dirty
    then true
    else confirm (
        get_or message
          "You have unsaved changes. If you leave now, your changes will be lost. Continue?")

-- The list has an entry that is the text in any case.
abbrev pub Holds : List String → String → Type 0
Holds xs p = (q : String) × (includes q xs ≡ true) × (lower q ≡ lower p)

module _ (p : String) where
  includes→Holds : (xs : List String) → includes (lower p) (map lower xs) ≡ true → Holds xs p
  includes→Holds [] h = ground arith
  includes→Holds (x ∷ xs) h = elim (Bool-cases (lower x == lower p)) [
    | inl same ↦ (x, ground (arith, eq_refl x), ground (arith, eq_iff (lower x) (lower p)))
    | inr other ↦
        let (q, inside, same) = includes→Holds xs (ground arith) in (q, ground arith, same)
  ]

  Holds→includes : (xs : List String) → Holds xs p → includes (lower p) (map lower xs) ≡ true
  Holds→includes [] (q, inside, same) = ground arith
  Holds→includes (x ∷ xs) (q, inside, same) = elim (Bool-cases (x == q)) [
    | inl here ↦ ground (arith, eq_iff x q, eq_iff (lower x) (lower p), eq_refl (lower p))
    | inr there ↦ let later = Holds→includes xs (q, ground arith, same) in ground arith
  ]

module _ (owned : List String) where
  all→Holds :
      (ps : List String)
      → all (λ p. includes (lower p) (map lower owned)) ps ≡ true
      → (p : String) → includes p ps ≡ true
      → Holds owned p
  all→Holds [] h p inside = ground arith
  all→Holds (x ∷ ps) h p inside = elim (Bool-cases (x == p)) [
    | inl here ↦ includes→Holds p owned (ground (arith, eq_iff x p))
    | inr there ↦ all→Holds ps (ground arith) p (ground arith)
  ]

  Holds→all :
      (ps : List String)
      → ((p : String) → includes p ps ≡ true → Holds owned p)
      → all (λ p. includes (lower p) (map lower owned)) ps ≡ true
  Holds→all [] h = refl
  Holds→all (x ∷ ps) h =
      let here = Holds→includes x owned (h x (ground (arith, eq_refl x))) in
      let later = Holds→all ps (λ p inside. h p (ground arith)) in ground arith

permission_guard-allow :
    (required : List String) (s : AuthState)
    → (permission_guard required s ≡ allow) ↔ (has_all_permissions required s ≡ true)
unfolding permission_guard has_all_permissions
permission_guard-allow [] s = ground arith
permission_guard-allow (p ∷ ps) s = ground arith

permission_guard_total :
    (required : List String) (s : AuthState)
    → (permission_guard required s ≡ allow) ⊎ (permission_guard required s ≡ forbidden)
unfolding permission_guard
permission_guard_total [] s = inl refl
permission_guard_total (p ∷ ps) s = ground arith

-- The permission guard lets a user through exactly where the server granted the bypass, or each
-- required permission is among the user's, letters compared without regard to case; every other
-- user is sent to the page `/error/forbidden`.
pub permission_guard_iff :
    (required : List String) (s : AuthState)
    → ((permission_guard required s ≡ allow)
        ↔ ((s.bypass ≡ true) ⊎ ((p : String) → includes p required ≡ true → Holds s.permissions p)))
      × ((permission_guard required s ≡ allow) ⊎ (permission_guard required s ≡ forbidden))
unfolding has_all_permissions
permission_guard_iff required s =
    let (sound, complete) = permission_guard-allow required s in
    (
      (
        λ allowed. elim (Bool-cases s.bypass) [
          | inl granted ↦ inl granted
          | inr plain ↦ inr (λ p inside.
              all→Holds s.permissions required (ground (arith, sound allowed)) p inside)
        ],
        λ entitled. complete (elim entitled [
          | inl granted ↦ ground arith
          | inr each ↦ ground (arith, Holds→all s.permissions required each)
        ]),
      ),
      permission_guard_total required s,
    )
