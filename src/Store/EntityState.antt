-- ===== src/Store/EntityState.antt =====
-- core/store/base/base-entity.types.ts, and the list that the stores derive from it.
use enterprise_platform.Common.{
  ℕ, String, Bool, true, Option, none, some, List, [], ◌∷◌, Dict, lookup, if◌then◌else◌, ◌==◌,
}

pub record EntityDataState (T : Type 0) : Type 0 where
  pub ids : List String
  pub entities : Dict T
  pub active_id : Option String
  pub last_loaded_at : ℕ
  pub is_stale : Bool

abbrev pub default_cache_ttl_ms : ℕ
default_cache_ttl_ms = 300000

unfoldable pub initial_entity_state : (T : Type 0) → EntityDataState T
initial_entity_state T = record {
  ids = [];
  entities = [];
  active_id = none;
  last_loaded_at = 0;
  is_stale = true;
}

module _ {T : Type 0} where
  -- `ids.map((id) => dict[id]).filter((entity) => entity !== undefined)`
  unfoldable pub in_order : Dict T → List String → List T
  in_order dict [] = []
  in_order dict (k ∷ ks) = elim (lookup k dict) [
    | none ↦ in_order dict ks
    | some e ↦ e ∷ in_order dict ks
  ]

  unfoldable pub all_entities : EntityDataState T → List T
  all_entities s = in_order s.entities s.ids

  -- `id ? (entities[id] ?? null) : null`; the empty id is falsy.
  unfoldable pub entity_at : Dict T → Option String → Option T
  entity_at dict none = none
  entity_at dict (some k) = if k == "" then none else lookup k dict

  unfoldable pub active_entity : EntityDataState T → Option T
  unfolding entity_at
  active_entity s = entity_at s.entities s.active_id
