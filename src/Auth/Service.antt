-- ===== src/Auth/Service.antt =====
-- core/auth/auth.service.ts: the session, and what sign-in and sign-out do to the permission store and
-- the session monitor. The navigation bar's configuration is the list of the calls it gets.
pub mod SignOut
use enterprise_platform.Common.{
  ℕ, ◌+◌, String, Bool, true, false, not, ◌&&◌, Option, none, some, List, [], ◌∷◌, ◌++◌, get_or,
  if◌then◌else◌,
}
use enterprise_platform.Auth.Permissions
use enterprise_platform.Auth.Permissions.{Hydration, EffectivePermissions}
use enterprise_platform.Auth.Monitor
use enterprise_platform.Auth.Monitor.{Monitor}
use enterprise_platform.Auth.ReturnUrl.{build_auth_url}

-- The body of `/api/auth/session`, without the permissions and the bar's configuration.
pub record Session : Type 0 where
  pub is_authenticated : Bool
  pub name : Option String
  pub email : Option String
  pub roles : List String

pub data ChromeCall : Type 0 where
  hydrate_chrome mark_error reset_chrome : ChromeCall

pub record AuthService : Type 0 where
  pub session : Option Session
  pub is_loading : Bool
  pub antiforgery_ready : Bool
  pub hydration : Hydration
  pub monitor : Monitor
  pub chrome : List ChromeCall
  pub broadcasts : ℕ
  pub navigations : List String

unfoldable pub is_authenticated : AuthService → Bool
is_authenticated s = elim s.session [ none ↦ false | some x ↦ x.is_authenticated ]

-- `currentUser()?.displayName ?? ''`
unfoldable pub display_name : AuthService → String
display_name s = elim s.session [
  | none ↦ ""
  | some x ↦ if x.is_authenticated then get_or x.name "" else ""
]

-- The effect of `triggerHydrationOnLogin`, which runs when `isAuthenticated` has changed; `was` is
-- its value before.
unfoldable pub watch : Bool → AuthService → AuthService
unfolding is_authenticated
watch was s =
    if not was && is_authenticated s
    then record s {
      hydration = Permissions.step Permissions.hydrate s.hydration;
      monitor = Monitor.start s.monitor;
    }
    else s

-- `refreshSession` after the answer: for a signed-in user without an antiforgery token, a token is
-- asked for, and the loading ends when that has been answered.
unfoldable pub session_loaded : Session → AuthService → AuthService
unfolding watch is_authenticated
session_loaded info s = watch (is_authenticated s) (record s {
  session = some info;
  chrome = s.chrome ++ hydrate_chrome ∷ [];
  is_loading = if info.is_authenticated && not s.antiforgery_ready then s.is_loading else false;
})

unfoldable pub session_failed : AuthService → AuthService
session_failed s = record s {
  session = none;
  chrome = s.chrome ++ mark_error ∷ [];
  is_loading = false;
}

-- `ensureAntiforgeryToken` after its request.
unfoldable pub token_answered : Bool → AuthService → AuthService
token_answered success s = record s {
  antiforgery_ready = if success then true else s.antiforgery_ready;
  is_loading = false;
}

-- What `logout` and the message of another tab have in common.
unfoldable pub sign_out : AuthService → AuthService
sign_out s = record s {
  session = none;
  hydration = Permissions.step Permissions.reset_all s.hydration;
  chrome = s.chrome ++ reset_chrome ∷ [];
  monitor = Monitor.stop s.monitor;
  antiforgery_ready = false;
}

unfoldable pub logout : (String → String) → Option String → AuthService → AuthService
unfolding sign_out
logout encode return_url s = record (sign_out s) {
  broadcasts = s.broadcasts + 1;
  navigations = s.navigations ++ build_auth_url encode "/api/auth/logout" return_url none ∷ [];
}

-- The answers and failures of the requests, the calls of `logout`, the messages of other tabs, and
-- what reaches the monitor.
pub data Event : Type 0 where
  session_answer : Session → Event
  session_failure : Event
  token_answer : Bool → Event
  logged_out : Option String → Event
  peer_logged_out : Event
  permissions_answer : EffectivePermissions → ℕ → Event
  permissions_failure : Option String → Event
  monitored : Monitor.Event → Event

unfoldable pub step : (String → String) → (String → Option ℕ) → Event → AuthService → AuthService
unfolding session_loaded session_failed token_answered logout sign_out
step encode parse_date (session_answer info) s = session_loaded info s
step encode parse_date session_failure s = session_failed s
step encode parse_date (token_answer success) s = token_answered success s
step encode parse_date (logged_out url) s = logout encode url s
step encode parse_date peer_logged_out s = sign_out s
step encode parse_date (permissions_answer resp now) s = record s {
  hydration = Permissions.step (Permissions.arrived resp now) s.hydration;
}
step encode parse_date (permissions_failure text) s = record s {
  hydration = Permissions.step (Permissions.failed text) s.hydration;
}
step encode parse_date (monitored e) s = record s {
  monitor = (Monitor.step parse_date e s.monitor).0;
}

unfoldable pub run :
    (String → String) → (String → Option ℕ) → List Event → AuthService → AuthService
run encode parse_date [] s = s
run encode parse_date (e ∷ es) s = run encode parse_date es (step encode parse_date e s)
