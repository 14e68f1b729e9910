-- ===== src/Auth/Service/SignOut.antt =====
-- core/auth/auth.service.ts: who gets through the guards after sign-in and sign-out.
use enterprise_platform.Common.{
  ℕ, String, false, Option, List, [], ◌∷◌, any, all, ap, includes, lower, map, ◌==◌, ◌≡◌, refl,
  arith,
}
use enterprise_platform.Auth.Permissions
use enterprise_platform.Auth.Permissions.{AuthState}
use enterprise_platform.Auth.Permissions.Lifecycle.{any_never}
use enterprise_platform.Auth.Monitor
use enterprise_platform.Auth.Monitor.{IsUnstarted, Monitor}
use enterprise_platform.Auth.Guards.{
  forbidden, auth_guard, permission_guard, any_permission_guard, role_guard, redirect,
}
use enterprise_platform.Auth.Service.{
  AuthService, Event, is_authenticated, logged_out, monitored, peer_logged_out, permissions_answer,
  permissions_failure, run, session_answer, session_failure, sign_out, step, token_answer, logout,
  session_failed, token_answered,
}

-- Neither a session nor permissions arrive; the monitor is started by a sign-in only.
abbrev pub IsSignedOut : List Event → Type 0
IsSignedOut [] = Unit
IsSignedOut (session_answer _ ∷ es) = ⊥
IsSignedOut (session_failure ∷ es) = IsSignedOut es
IsSignedOut (token_answer _ ∷ es) = IsSignedOut es
IsSignedOut (logged_out _ ∷ es) = IsSignedOut es
IsSignedOut (peer_logged_out ∷ es) = IsSignedOut es
IsSignedOut (permissions_answer _ _ ∷ es) = ⊥
IsSignedOut (permissions_failure _ ∷ es) = IsSignedOut es
IsSignedOut (monitored e ∷ es) = IsUnstarted (e ∷ []) × IsSignedOut es

-- Nobody is signed in, nothing is granted, and the monitor rests.
abbrev pub IsClosed : AuthService → Type 0
IsClosed s =
    (is_authenticated s ≡ false)
    × (s.hydration.auth.roles ≡ [])
    × (s.hydration.auth.permissions ≡ [])
    × (s.hydration.auth.bypass ≡ false)
    × (s.monitor.polling ≡ false)
    × (s.monitor.listening ≡ false)

sign_out-IsClosed : (s : AuthService) → IsClosed (sign_out s)
unfolding sign_out is_authenticated Permissions.step Permissions.reset Monitor.stop
sign_out-IsClosed s = (refl, refl, refl, refl, refl, refl)

module _ (parse_date : String → Option ℕ) where
  step_keeps_idle :
      (e : Monitor.Event) (m : Monitor)
      → IsUnstarted (e ∷ [])
      → m.polling ≡ false
      → m.listening ≡ false
      → ((Monitor.step parse_date e m).0.polling ≡ false)
        × ((Monitor.step parse_date e m).0.listening ≡ false)
  unfolding Monitor.step Monitor.stop Monitor.poll_answered Monitor.renew_answered
  step_keeps_idle Monitor.started m u p l = absurd (u)
  step_keeps_idle Monitor.stopped m u p l = (refl, refl)
  step_keeps_idle (Monitor.ticked at) m u p l = ground arith
  step_keeps_idle (Monitor.became_visible at) m u p l = ground arith
  step_keeps_idle (Monitor.polled session) m u p l = ground arith
  step_keeps_idle (Monitor.renewed session at) m u p l = ground arith
  step_keeps_idle Monitor.call_failed m u p l = (p, l)

module _ (encode : String → String) (parse_date : String → Option ℕ) where
  step-IsClosed :
      (e : Event) (s : AuthService)
      → IsSignedOut (e ∷ [])
      → IsClosed s
      → IsClosed (step encode parse_date e s)
  unfolding step is_authenticated session_failed token_answered logout Permissions.step
      Permissions.hydrate_failed
  step-IsClosed (session_answer info) s quiet closed = absurd quiet
  step-IsClosed session_failure s quiet closed = ground arith
  step-IsClosed (token_answer success) s quiet closed = ground arith
  step-IsClosed (logged_out url) s quiet closed = sign_out-IsClosed s
  step-IsClosed peer_logged_out s quiet closed = sign_out-IsClosed s
  step-IsClosed (permissions_answer resp now) s quiet closed = absurd quiet
  step-IsClosed (permissions_failure text) s quiet closed = ground arith
  step-IsClosed (monitored e) s (unstarted, quiet) (n, r, g, b, p, l) =
      ground (arith, step_keeps_idle parse_date e s.monitor unstarted p l)

  apart :
      (e : Event) (es : List Event) → IsSignedOut (e ∷ es) → IsSignedOut (e ∷ []) × IsSignedOut es
  apart (session_answer _) es q = absurd q
  apart session_failure es q = (tt, q)
  apart (token_answer _) es q = (tt, q)
  apart (logged_out _) es q = (tt, q)
  apart peer_logged_out es q = (tt, q)
  apart (permissions_answer _ _) es q = absurd q
  apart (permissions_failure _) es q = (tt, q)
  apart (monitored e) es (u, q) = ((u, tt), q)

  run-IsClosed :
      (es : List Event) (s : AuthService)
      → IsSignedOut es
      → IsClosed s
      → IsClosed (run encode parse_date es s)
  unfolding run
  run-IsClosed [] s quiet closed = closed
  run-IsClosed (e ∷ es) s quiet closed =
      let (now, later) = apart e es quiet in
      run-IsClosed es (step encode parse_date e s) later (step-IsClosed e s now closed)

refuses :
    (t : AuthState) (r : String) (rs : List String)
    → t.roles ≡ []
    → t.permissions ≡ []
    → t.bypass ≡ false
    → (permission_guard (r ∷ rs) t ≡ forbidden)
      × (any_permission_guard (r ∷ rs) t ≡ forbidden)
      × (role_guard (r ∷ rs) t ≡ forbidden)
unfolding permission_guard any_permission_guard role_guard Permissions.has_role
    Permissions.has_all_permissions Permissions.has_any_permission Permissions.has_any_role
refuses t r rs roles perms bypass = ground (
  arith,
  any_never rs,
  ap (λ xs. all (λ p. includes (lower p) (map lower xs)) (r ∷ rs)) perms,
  ap (λ xs. any (λ p. includes (lower p) (map lower xs)) (r ∷ rs)) perms,
  ap (λ xs. any (λ q. any (λ x. lower x == lower q) xs) (r ∷ rs)) roles,
)

-- A call of `logout`, or the message of a tab that has called it.
abbrev pub SignsOut : Event → Type 0
SignsOut (logged_out _) = Unit
SignsOut peer_logged_out = Unit
SignsOut _ = ⊥

step_sign_out-IsClosed :
    (encode : String → String) (parse_date : String → Option ℕ) (e : Event) (s : AuthService)
    → SignsOut e
    → IsClosed (step encode parse_date e s)
unfolding step logout is_authenticated
step_sign_out-IsClosed encode parse_date (logged_out url) s h = sign_out-IsClosed s
step_sign_out-IsClosed encode parse_date peer_logged_out s h = sign_out-IsClosed s
step_sign_out-IsClosed encode parse_date (session_answer _) s h = absurd h
step_sign_out-IsClosed encode parse_date session_failure s h = absurd h
step_sign_out-IsClosed encode parse_date (token_answer _) s h = absurd h
step_sign_out-IsClosed encode parse_date (permissions_answer _ _) s h = absurd h
step_sign_out-IsClosed encode parse_date (permissions_failure _) s h = absurd h
step_sign_out-IsClosed encode parse_date (monitored _) s h = absurd h

-- After a sign-out in this tab or another one, and until a session or permissions arrive, whatever
-- else is answered or fails: the session's guard sends to the login, every guard that requires
-- something refuses, and the session monitor does not poll.
pub sign_out_refuses :
    (encode : String → String) (parse_date : String → Option ℕ) (e : Event) (es : List Event)
    (url r : String) (required : List String) (s : AuthService)
    → SignsOut e
    → IsSignedOut es
    → let after = run encode parse_date (e ∷ es) s in
      (auth_guard (is_authenticated after) url ≡ redirect "/auth/login" (("returnUrl", url) ∷ []))
      × (permission_guard (r ∷ required) after.hydration.auth ≡ forbidden)
      × (any_permission_guard (r ∷ required) after.hydration.auth ≡ forbidden)
      × (role_guard (r ∷ required) after.hydration.auth ≡ forbidden)
      × (after.monitor.polling ≡ false)
unfolding auth_guard run
sign_out_refuses encode parse_date e es url r required s out quiet =
    let start = step encode parse_date e s in
    let after = run encode parse_date es start in
    let (nobody, roles, perms, bypass, idle, deaf) =
      run-IsClosed encode parse_date es start quiet
        (step_sign_out-IsClosed encode parse_date e s out) in
    let (p, a, o) = refuses after.hydration.auth r required roles perms bypass in
    (ground arith, p, a, o, idle)
