-- ===== src/Store/Config.antt =====
-- core/store/base/base-entity.store.ts: the configuration of `createEntityStore` and its defaults.
use enterprise_platform.Common.{ℕ, String, Bool, true, Option, List, [], get_or, lower}
use enterprise_platform.Store.EntityState.{default_cache_ttl_ms}

-- `EntityStoreConfig`, with its optional fields.
pub record EntityStoreConfig : Type 0 where
  pub entity_name : String
  pub default_page_size : Option ℕ
  pub show_notifications : Option Bool
  pub cache_ttl_ms : Option ℕ
  pub invalidation_key : Option String
  pub invalidates_on : Option (List String)

-- The configuration once the defaults are in.
pub record Config : Type 0 where
  pub entity_name : String
  pub default_page_size : ℕ
  pub show_notifications : Bool
  pub cache_ttl_ms : ℕ
  pub invalidation_key : String
  pub invalidates_on : List String

unfoldable pub configure : EntityStoreConfig → Config
configure c = record {
  entity_name = c.entity_name;
  default_page_size = get_or c.default_page_size 20;
  show_notifications = get_or c.show_notifications true;
  cache_ttl_ms = get_or c.cache_ttl_ms default_cache_ttl_ms;
  invalidation_key = get_or c.invalidation_key (lower c.entity_name);
  invalidates_on = get_or c.invalidates_on [];
}
