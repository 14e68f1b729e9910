-- ===== src/Store/Adapter.antt =====
-- core/store/base/store-features/with-entity-adapter.feature.ts. `id` reads an entity's id.
use enterprise_platform.Common.{
  String, Bool, List, [], ◌∷◌, ◌++◌, Dict, insert, remove, if◌then◌else◌, includes, exclude,
  exclude_all,
}
use enterprise_platform.Store.EntityState.{EntityDataState}
pub mod Invariant
pub mod Listing
pub mod OrderedMap

module _ {T : Type 0} (id : T → String) where
  unfoldable pub upsert_one : T → EntityDataState T → EntityDataState T
  upsert_one entity s =
      let existing = includes (id entity) s.ids in
      record s {
        ids = if existing then s.ids else s.ids ++ id entity ∷ [];
        entities = insert (id entity) entity s.entities;
      }

  -- The loop of `upsertMany` over `idSet`, `nextIds` and `nextEntities`.
  unfoldable pub upsert_loop : List String → List String → Dict T → List T → List String × Dict T
  upsert_loop id_set next_ids next_entities [] = (next_ids, next_entities)
  upsert_loop id_set next_ids next_entities (e ∷ es) =
      let known = includes (id e) id_set in
      upsert_loop (if known then id_set else id e ∷ id_set)
        (if known then next_ids else next_ids ++ id e ∷ []) (insert (id e) e next_entities) es

  unfoldable pub upsert_many : List T → EntityDataState T → EntityDataState T
  unfolding upsert_loop
  upsert_many es s =
      let (next_ids, next_entities) = upsert_loop s.ids s.ids s.entities es in
      record s { ids = next_ids; entities = next_entities }

  -- The loop of `setAll`.
  unfoldable pub set_loop : List String → Dict T → List T → List String × Dict T
  set_loop next_ids next_entities [] = (next_ids, next_entities)
  set_loop next_ids next_entities (e ∷ es) =
      set_loop (next_ids ++ id e ∷ []) (insert (id e) e next_entities) es

  unfoldable pub set_all : List T → EntityDataState T → EntityDataState T
  unfolding set_loop
  set_all es s =
      let (next_ids, next_entities) = set_loop [] [] es in
      record s { ids = next_ids; entities = next_entities }

module _ {T : Type 0} where
  unfoldable pub remove_one : String → EntityDataState T → EntityDataState T
  remove_one k s =
      if includes k s.ids
      then record s { ids = exclude k s.ids; entities = remove k s.entities }
      else s

  -- `for (const id of ids) delete nextEntities[id]`
  unfoldable pub remove_each : List String → Dict T → Dict T
  remove_each [] d = d
  remove_each (k ∷ ks) d = remove_each ks (remove k d)

  unfoldable pub remove_many : List String → EntityDataState T → EntityDataState T
  remove_many [] s = s
  remove_many (k ∷ ks) s = record s {
    ids = exclude_all (k ∷ ks) s.ids;
    entities = remove_each (k ∷ ks) s.entities;
  }

  unfoldable pub clear_entities : EntityDataState T → EntityDataState T
  clear_entities s = record s { ids = []; entities = [] }
