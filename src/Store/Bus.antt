-- ===== src/Store/Bus.antt =====
-- core/store/cache-invalidation-bus.service.ts. `at` is the clock's value when the event has none.
use enterprise_platform.Common.{
  ℕ, String, Bool, true, Option, none, some, get_or, ◌==◌, List, map, filter,
}

pub data CacheAction : Type 0 where
  created updated deleted : CacheAction

pub record CacheInvalidationEvent : Type 0 where
  pub entity : String
  pub action : CacheAction
  pub id : Option String
  pub at : ℕ

-- The argument of `publish`.
pub record Announcement : Type 0 where
  pub entity : String
  pub action : CacheAction
  pub id : Option String
  pub at : Option ℕ

unfoldable pub publish : ℕ → Announcement → CacheInvalidationEvent
publish now a = record { entity = a.entity; action = a.action; id = a.id; at = get_or a.at now }

-- Whether `events$(entity)` passes an event on; with no argument it passes on all.
unfoldable pub passes : Option String → CacheInvalidationEvent → Bool
passes none e = true
passes (some entity) e = e.entity == entity

unfoldable pub events : Option String → List CacheInvalidationEvent → List CacheInvalidationEvent
unfolding passes
events entity = filter (passes entity)

-- `actionsFor$(entity)`
unfoldable pub actions_for : String → List CacheInvalidationEvent → List CacheAction
unfolding events
actions_for entity es = map (λ e. e.action) (events (some entity) es)
