-- ===== src/Store/Machine.antt =====
-- A store with its requests in flight. Each `rxMethod` runs its calls through `switchMap`: a new
-- call takes the place of the one in flight, whose response is not delivered any more; a response
-- or a failure is delivered to the request in flight, which it ends. The clock's value comes with
-- the event. The module-level `rollbackMap` is one for all stores: the events
-- `peer_update` and `peer_settled` are what another store's `updateEntity` writes there at the call
-- and takes out at the end. The rows of all stores are of the one type `T`, which can be a sum.
use enterprise_platform.Common.{
  ℕ, String, Bool, Option, none, some, List, [], ◌∷◌, ◌++◌, if◌then◌else◌, insert, remove,
}
use Prim.Native.String
pub mod Flags
pub mod Optimistic
pub mod Overlaps
pub mod Freshness
use enterprise_platform.Models.{ApiError, QueryParams, QueryOverride, PagedResponse, ApiResponse}
use enterprise_platform.Store.Bus
use enterprise_platform.Store.Bus.{CacheAction, CacheInvalidationEvent, publish, passes}
use enterprise_platform.Store.Config.{Config}
use enterprise_platform.Store.Entity
use enterprise_platform.Store.Entity.{StoreState, RollbackMap, initial_store, should_reload}
use enterprise_platform.Store.Features.{
  LoadingCall, PaginationCall, SearchCall, SelectionCall, loading_step, pagination_step,
  search_step, selection_step,
}

-- `C` is `Partial<T>`: the drafts of `createEntity` and the changes of `updateEntity`. The field
-- `rollback` is the map of all stores as this store's closures see it.
pub record Instance (T C : Type 0) : Type 0 where
  pub state : StoreState T
  pub rollback : RollbackMap T
  pub list_request : Option QueryParams
  pub detail_request : Option String
  pub create_request : Option C
  pub update_request : Option (String × C)
  pub delete_request : Option String
  pub toasts : List (String × String)
  pub published : List CacheInvalidationEvent

pub data Event (T C : Type 0) : Type 0 where
  load_all : Option QueryOverride → Event T C
  load_all_if_stale : ℕ → Event T C
  list_response : PagedResponse T → ℕ → Event T C
  list_failure : ApiError → Event T C
  load_by_id : String → Event T C
  detail_response : ApiResponse T → Event T C
  detail_failure : ApiError → Event T C
  create_entity : C → Event T C
  create_response : ApiResponse T → ℕ → Event T C
  create_failure : ApiError → Event T C
  update_entity : String → C → Event T C
  update_response : ApiResponse T → ℕ → Event T C
  update_failure : ApiError → Event T C
  delete_entity : String → Event T C
  delete_response : ℕ → Event T C
  delete_failure : ApiError → Event T C
  invalidate : Event T C
  set_active : Option String → Event T C
  peer_event : CacheInvalidationEvent → Event T C
  selection : SelectionCall → Event T C
  pagination : PaginationCall → Event T C
  search : SearchCall → Event T C
  loading : LoadingCall → Event T C
  peer_update : String → Option T → Event T C
  peer_settled : String → Event T C

abbrev past : CacheAction → String
past CacheAction.created = "created"
past CacheAction.updated = "updated"
past CacheAction.deleted = "deleted"

unfoldable pub initial_instance : (T C : Type 0) → Config → Instance T C
unfolding initial_store
initial_instance T C config = record {
  state = initial_store T config;
  rollback = [];
  list_request = none;
  detail_request = none;
  create_request = none;
  update_request = none;
  delete_request = none;
  toasts = [];
  published = [];
}

module _ {T : Type 0} where
  -- The subscriptions of `onInit`, one for each peer.
  unfoldable pub hear : List String → CacheInvalidationEvent → StoreState T → StoreState T
  unfolding passes
  hear [] e s = s
  hear (peer ∷ peers) e s = hear peers e (if passes (some peer) e then Entity.invalidate s else s)

module _ {T C : Type 0} where
  unfoldable pub start_load_all : Option QueryOverride → Instance T C → Instance T C
  start_load_all o m =
      let s = Entity.load_all_begin m.state in
      record m { state = s; list_request = some (Entity.load_all_query o s) }

module _ {T C : Type 0} (config : Config) where
  -- The success toast, if the store shows any, and the announcement on the bus.
  unfoldable pub announce : CacheAction → String → ℕ → Instance T C → Instance T C
  unfolding publish
  announce action k now m =
      let name = config.entity_name in
      let title = String.◌++◌ name (String.◌++◌ " " (past action)) in
      let text =
        String.◌++◌ name (String.◌++◌ " was " (String.◌++◌ (past action) " successfully.")) in
      record m {
        toasts = if config.show_notifications then m.toasts ++ (title, text) ∷ [] else m.toasts;
        published =
            m.published
            ++ publish now (record {
              entity = config.invalidation_key;
              action = action;
              id = some k;
              at = none;
            })
              ∷ [];
      }

module _ {T C : Type 0} (config : Config) (id : T → String) (merge : Option T → C → T) where
  unfoldable pub step : Event T C → Instance T C → Instance T C
  unfolding announce hear start_load_all
  step (load_all o) m = start_load_all o m
  step (load_all_if_stale now) m =
      if should_reload config now m.state then start_load_all none m else m
  step (list_response resp now) m = elim m.list_request [
    | none ↦ m
    | some _ ↦ record m { state = Entity.list_loaded id resp now m.state; list_request = none }
  ]
  step (list_failure e) m = elim m.list_request [
    | none ↦ m
    | some _ ↦ record m { state = Entity.load_all_failed e m.state; list_request = none }
  ]
  step (load_by_id k) m = record m {
    state = Entity.load_by_id_begin m.state;
    detail_request = some k;
  }
  step (detail_response resp) m = elim m.detail_request [
    | none ↦ m
    | some _ ↦ record m { state = Entity.detail_loaded id resp m.state; detail_request = none }
  ]
  step (detail_failure e) m = elim m.detail_request [
    | none ↦ m
    | some _ ↦ record m { state = Entity.load_by_id_failed e m.state; detail_request = none }
  ]
  step (create_entity draft) m = record m {
    state = Entity.create_begin m.state;
    create_request = some draft;
  }
  step (create_response resp now) m = elim m.create_request [
    | none ↦ m
    | some _ ↦
        announce config CacheAction.created (id resp.item) now
          (record m { state = Entity.created id resp m.state; create_request = none })
  ]
  step (create_failure e) m = elim m.create_request [
    | none ↦ m
    | some _ ↦ record m { state = Entity.create_failed e m.state; create_request = none }
  ]
  step (update_entity k changes) m =
      let (s, r) = Entity.update_begin merge k changes m.state m.rollback in
      record m { state = s; rollback = r; update_request = some (k, changes) }
  step (update_response resp now) m = elim m.update_request [
    | none ↦ m
    | some (k, _) ↦
        let (s, r) = Entity.updated k resp m.state m.rollback in
        announce config CacheAction.updated k now
          (record m { state = s; rollback = r; update_request = none })
  ]
  step (update_failure e) m = elim m.update_request [
    | none ↦ m
    | some (k, _) ↦
        let (s, r) = Entity.update_failed k e m.state m.rollback in
        record m { state = s; rollback = r; update_request = none }
  ]
  step (delete_entity k) m = record m {
    state = Entity.delete_begin m.state;
    delete_request = some k;
  }
  step (delete_response now) m = elim m.delete_request [
    | none ↦ m
    | some k ↦
        announce config CacheAction.deleted k now
          (record m { state = Entity.deleted k m.state; delete_request = none })
  ]
  step (delete_failure e) m = elim m.delete_request [
    | none ↦ m
    | some _ ↦ record m { state = Entity.delete_failed e m.state; delete_request = none }
  ]
  step invalidate m = record m { state = Entity.invalidate m.state }
  step (set_active k) m = record m { state = Entity.set_active k m.state }
  step (peer_event e) m = record m { state = hear config.invalidates_on e m.state }
  step (selection c) m = record m {
    state = record (m.state) { selected_ids = selection_step c (m.state).selected_ids };
  }
  step (pagination c) m = record m {
    state = record (m.state) { paging = pagination_step c (m.state).paging };
  }
  step (search c) m = record m {
    state = record (m.state) { query_params = search_step c (m.state).query_params };
  }
  step (loading c) m = record m {
    state = record (m.state) { async = loading_step c (m.state).async };
  }
  step (peer_update k snapshot) m = record m { rollback = insert k snapshot m.rollback }
  step (peer_settled k) m = record m { rollback = remove k m.rollback }

  unfoldable pub run : List (Event T C) → Instance T C → Instance T C
  run [] m = m
  run (e ∷ es) m = run es (step e m)
