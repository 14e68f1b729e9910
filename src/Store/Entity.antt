-- ===== src/Store/Entity.antt =====
-- core/store/base/base-entity.store.ts: the state of a store that `createEntityStore` makes, and
-- the state changes of its methods. A method that calls the API is in parts: what it does at the
-- call (`_begin`), at the response, and at the failure. `id` reads an entity's id.
pub mod Rows
use enterprise_platform.Common.{
  ℕ, ◌+◌, ◌-◌, String, Bool, true, false, Option, none, some, List, [], ◌∷◌, map, Dict, lookup,
  insert, remove, if◌then◌else◌, includes, exclude, ltb, get_or, length, nat_eq, lower, ◌==◌, ◌++◌,
}
use enterprise_platform.Models.{ApiError, QueryParams, QueryOverride, PagedResponse, ApiResponse}
use enterprise_platform.Models
use enterprise_platform.Store.Config.{Config}
use enterprise_platform.Store.EntityState.{
  EntityDataState, initial_entity_state, all_entities, active_entity, default_cache_ttl_ms,
}
use enterprise_platform.Store.Features.{
  LoadingState, initial_loading, PaginationState, initial_pagination,
}

-- The slices that `createEntityStore` composes.
pub record StoreState (T : Type 0) : Type 0 where
  pub entity_data : EntityDataState T
  pub async : LoadingState
  pub paging : PaginationState
  pub query_params : QueryParams
  pub selected_ids : List String

unfoldable pub initial_store : (T : Type 0) → Config → StoreState T
unfolding initial_entity_state initial_pagination
initial_store T config = record {
  entity_data = initial_entity_state T;
  async = initial_loading;
  paging = initial_pagination config.default_page_size;
  query_params = Models.default_query_params;
  selected_ids = [];
}

-- `{ ...queryParams, ...override }`
unfoldable pub override_query : QueryOverride → QueryParams → QueryParams
override_query o q = record {
  page = get_or o.page q.page;
  page_size = get_or o.page_size q.page_size;
  search = elim o.search [ none ↦ q.search | some t ↦ some t ];
  sort = elim o.sort [ none ↦ q.sort | some c ↦ some c ];
  filters = elim o.filters [ none ↦ q.filters | some f ↦ some f ];
}

-- `rollbackMap`: a stashed snapshot may be `undefined`.
abbrev pub RollbackMap : Type 0 → Type 0
RollbackMap T = Dict (Option T)

-- `rollbackMap.get(id)`: undefined too when there is no entry.
abbrev pub snapshot_of : {T : Type 0} → Option (Option T) → Option T
snapshot_of none = none
snapshot_of (some o) = o

-- `activeId === id ? null : activeId`
unfoldable pub active_after_delete : String → Option String → Option String
active_after_delete k none = none
active_after_delete k (some a) = if a == k then none else some a

module _ {T : Type 0} where
  unfoldable pub entity_count : StoreState T → ℕ
  entity_count s = length s.entity_data.ids

  unfoldable pub is_empty : StoreState T → Bool
  is_empty s = nat_eq (length s.entity_data.ids) 0

  unfoldable pub should_reload : Config → ℕ → StoreState T → Bool
  should_reload config now s =
      if s.entity_data.is_stale
      then true
      else ltb config.cache_ttl_ms (now - s.entity_data.last_loaded_at)

  unfoldable pub load_all_begin : StoreState T → StoreState T
  load_all_begin s = record s { async = record (s.async) { loading = true; error = none } }

  unfoldable pub load_all_query : Option QueryOverride → StoreState T → QueryParams
  unfolding override_query
  load_all_query none s = s.query_params
  load_all_query (some o) s = override_query o s.query_params

  unfoldable pub load_all_failed : ApiError → StoreState T → StoreState T
  load_all_failed e s = record s { async = record (s.async) { loading = false; error = some e } }

  unfoldable pub load_by_id_begin : StoreState T → StoreState T
  load_by_id_begin s = record s { async = record (s.async) { loading_detail = true; error = none } }

  unfoldable pub load_by_id_failed : ApiError → StoreState T → StoreState T
  load_by_id_failed e s = record s {
    async = record (s.async) { loading_detail = false; error = some e };
  }

  unfoldable pub create_begin : StoreState T → StoreState T
  create_begin s = record s { async = record (s.async) { saving = true; error = none } }

  unfoldable pub create_failed : ApiError → StoreState T → StoreState T
  create_failed e s = record s { async = record (s.async) { saving = false; error = some e } }

  -- The optimistic patch, and the snapshot stashed in the map. `merge` is `{ ...old, ...changes }`.
  unfoldable pub update_begin {ℓ} :
      {C : Type ℓ} (merge : Option T → C → T)
      → String
      → C
      → StoreState T
      → RollbackMap T
      → StoreState T × RollbackMap T
  update_begin merge k changes s rollback =
      let snapshot = lookup k s.entity_data.entities in
      (
        record s {
          async = record (s.async) { saving = true; error = none };
          entity_data = record (s.entity_data) {
            entities = insert k (merge snapshot changes) s.entity_data.entities;
          };
        },
        insert k snapshot rollback,
      )

  unfoldable pub updated :
      String → ApiResponse T → StoreState T → RollbackMap T → StoreState T × RollbackMap T
  updated k resp s rollback = (
    record s {
      async = record (s.async) { saving = false };
      entity_data = record (s.entity_data) { entities = insert k resp.item s.entity_data.entities };
    },
    remove k rollback,
  )

  -- `if (snapshot) entities[id] = snapshot; else delete entities[id];`
  unfoldable pub restore : String → Option T → Dict T → Dict T
  restore k none entities = remove k entities
  restore k (some old) entities = insert k old entities

  -- The row goes back to its snapshot, or out of the dictionary if there was none.
  unfoldable pub update_failed :
      String → ApiError → StoreState T → RollbackMap T → StoreState T × RollbackMap T
  update_failed k e s rollback = (
    record s {
      async = record (s.async) { saving = false; error = some e };
      entity_data = record (s.entity_data) {
        entities = restore k (snapshot_of (lookup k rollback)) s.entity_data.entities;
      };
    },
    remove k rollback,
  )

  unfoldable pub delete_begin : StoreState T → StoreState T
  delete_begin s = record s { async = record (s.async) { deleting = true; error = none } }

  unfoldable pub deleted : String → StoreState T → StoreState T
  unfolding active_after_delete
  deleted k s = record s {
    entity_data = record (s.entity_data) {
      ids = exclude k s.entity_data.ids;
      entities = remove k s.entity_data.entities;
      active_id = active_after_delete k s.entity_data.active_id;
      is_stale = true;
    };
    selected_ids = exclude k s.selected_ids;
    paging = record (s.paging) { total = s.paging.total - 1 };
    async = record (s.async) { deleting = false };
  }

  unfoldable pub delete_failed : ApiError → StoreState T → StoreState T
  delete_failed e s = record s { async = record (s.async) { deleting = false; error = some e } }

  -- `invalidate`, and what an event of a peer in `invalidatesOn` does.
  unfoldable pub invalidate : StoreState T → StoreState T
  invalidate s = record s { entity_data = record (s.entity_data) { is_stale = true } }

  unfoldable pub set_active : Option String → StoreState T → StoreState T
  set_active k s = record s { entity_data = record (s.entity_data) { active_id = k } }

module _ {T : Type 0} (id : T → String) where
  -- `for (const e of resp.data) entities[e.id] = e`
  unfoldable pub dict_of : Dict T → List T → Dict T
  dict_of d [] = d
  dict_of d (e ∷ es) = dict_of (insert (id e) e d) es

  unfoldable pub list_loaded : PagedResponse T → ℕ → StoreState T → StoreState T
  list_loaded resp now s = record s {
    entity_data = record (s.entity_data) {
      ids = map id resp.items;
      entities = dict_of [] resp.items;
      last_loaded_at = now;
      is_stale = false;
    };
    async = record (s.async) { loading = false };
    paging = record {
      page = resp.page;
      page_size = resp.page_size;
      total = resp.total;
      total_pages = resp.total_pages;
    };
  }

  unfoldable pub detail_loaded : ApiResponse T → StoreState T → StoreState T
  detail_loaded resp s =
      let k = id resp.item in
      let existing_ids = s.entity_data.ids in
      record s {
        entity_data = record (s.entity_data) {
          entities = insert k resp.item s.entity_data.entities;
          ids = if includes k existing_ids then existing_ids else existing_ids ++ k ∷ [];
          active_id = some k;
        };
        async = record (s.async) { loading_detail = false };
      }

  unfoldable pub created : ApiResponse T → StoreState T → StoreState T
  created resp s =
      let k = id resp.item in
      record s {
        entity_data = record (s.entity_data) {
          ids = k ∷ s.entity_data.ids;
          entities = insert k resp.item s.entity_data.entities;
          is_stale = true;
        };
        paging = record (s.paging) { total = s.paging.total + 1 };
        async = record (s.async) { saving = false };
      }
