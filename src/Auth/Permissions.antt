-- ===== src/Auth/Permissions.antt =====
-- core/auth/auth.store.ts: the permissions of the signed-in user, and their loading by a `switchMap`,
-- so that at most one load is in flight. Times are epoch milliseconds, and an event carries the
-- time at which it is handled.
pub mod Lifecycle
use enterprise_platform.Common.{
  ℕ, ◌+◌, ◌*◌, String, Bool, true, false, ◌||◌, Option, none, some, List, [], ◌∷◌, map, any, all,
  includes, leb, lower, get_or, ◌==◌, if◌then◌else◌,
}

pub record AuthState : Type 0 where
  pub roles : List String
  pub permissions : List String
  pub bypass : Bool
  pub expires_at : ℕ
  pub loading : Bool
  pub error : Option String

abbrev pub initial_state : AuthState
initial_state = record {
  roles = [];
  permissions = [];
  bypass = false;
  expires_at = 0;
  loading = false;
  error = none;
}

-- The body of `/me/permissions`.
pub record EffectivePermissions : Type 0 where
  pub roles : List String
  pub permissions : List String
  pub bypass : Bool
  pub ttl_seconds : Option ℕ

abbrev pub default_ttl_seconds : ℕ
default_ttl_seconds = 300

unfoldable pub is_stale : ℕ → AuthState → Bool
is_stale now s = leb s.expires_at now

-- What `hydrate` sets before the request.
unfoldable pub hydrate_begin : AuthState → AuthState
hydrate_begin s = record s { loading = true; error = none }

unfoldable pub hydrated : EffectivePermissions → ℕ → AuthState → AuthState
hydrated resp now s = record {
  roles = resp.roles;
  permissions = resp.permissions;
  bypass = resp.bypass;
  expires_at = now + get_or resp.ttl_seconds default_ttl_seconds * 1000;
  loading = false;
  error = none;
}

-- The text is the message of an `Error`, and none stands for any other thrown value.
unfoldable pub hydrate_failed : Option String → AuthState → AuthState
hydrate_failed text s = record s {
  loading = false;
  error = some (get_or text "Failed to load permissions.");
}

unfoldable pub has_any_permission : List String → AuthState → Bool
has_any_permission perms s =
    s.bypass || any (λ p. includes (lower p) (map lower s.permissions)) perms

unfoldable pub has_all_permissions : List String → AuthState → Bool
has_all_permissions perms s =
    s.bypass || all (λ p. includes (lower p) (map lower s.permissions)) perms

unfoldable pub has_role : String → AuthState → Bool
has_role role s = any (λ r. lower r == lower role) s.roles

unfoldable pub has_any_role : List String → AuthState → Bool
unfolding has_role
has_any_role roles s = any (λ r. has_role r s) roles

unfoldable pub reset : AuthState → AuthState
reset s = initial_state

-- The store and whether a load is in flight.
pub record Hydration : Type 0 where
  pub auth : AuthState
  pub in_flight : Bool

-- `hydrate()`, the end of the load in flight, and `reset()`, which does not cancel a load.
pub data Event : Type 0 where
  hydrate : Event
  arrived : EffectivePermissions → ℕ → Event
  failed : Option String → Event
  reset_all : Event

unfoldable pub step : Event → Hydration → Hydration
unfolding hydrate_begin hydrated hydrate_failed reset
step hydrate h = record { auth = hydrate_begin h.auth; in_flight = true }
step (arrived resp now) h =
    if h.in_flight then record { auth = hydrated resp now h.auth; in_flight = false } else h
step (failed text) h =
    if h.in_flight then record { auth = hydrate_failed text h.auth; in_flight = false } else h
step reset_all h = record h { auth = reset h.auth }

unfoldable pub run : List Event → Hydration → Hydration
run [] h = h
run (e ∷ es) h = run es (step e h)
