-- ===== src/Store/Entity/Rows.antt =====
-- The rows on display after a list, a create and a delete.
use enterprise_platform.Common.{
  ℕ, ◌+◌, ◌-◌, String, true, false, Option, none, some, List, [], ◌∷◌, map, ◌≡◌, ◌≢◌, ◌↔◌, refl,
  arith, Dict, lookup, insert, remove, lookup-insert, lookup-remove, includes, exclude,
  includes-exclude, IsDistinct, if◌then◌else◌, ◌==◌, eq_iff, eq_refl,
}
use enterprise_platform.Models.{PagedResponse, ApiResponse}
use enterprise_platform.Store.EntityState.{in_order, all_entities}
use enterprise_platform.Store.Adapter.Listing.{in_order-insert_absent}
use enterprise_platform.Store.Entity.{
  StoreState, deleted, active_after_delete, dict_of, list_loaded, created,
}

module _ {T : Type 0} (id : T → String) where
  lookup-dict_of_absent :
      (k : String) (d : Dict T) (es : List T)
      → includes k (map id es) ≡ false
      → lookup k (dict_of id d es) ≡ lookup k d
  unfolding dict_of
  lookup-dict_of_absent k d [] h = refl
  lookup-dict_of_absent k d (e ∷ es) h =
      ground (arith, lookup-dict_of_absent k (insert (id e) e d) es, lookup-insert (id e) k e d)

  in_order-dict_of :
      (d : Dict T) (es : List T)
      → IsDistinct (map id es)
      → in_order (dict_of id d es) (map id es) ≡ es
  unfolding dict_of in_order
  in_order-dict_of d [] h = refl
  in_order-dict_of d (e ∷ es) (fresh, h) = ground (
    arith,
    lookup-dict_of_absent (id e) (insert (id e) e d) es fresh,
    lookup-insert (id e) (id e) e d,
    eq_refl (id e),
    in_order-dict_of (insert (id e) e d) es h,
  )

  -- When a page arrives whose rows have different ids, the store lists exactly its rows, in the
  -- server's order, whatever it held before; the paging is the response's, the list is fresh and
  -- no longer loading.
  pub list_loaded-view :
      (resp : PagedResponse T) (now : ℕ) (s : StoreState T)
      → IsDistinct (map id resp.items)
      → (all_entities (list_loaded id resp now s).entity_data ≡ resp.items)
        × ((list_loaded id resp now s).paging ≡ record {
          page = resp.page;
          page_size = resp.page_size;
          total = resp.total;
          total_pages = resp.total_pages;
        })
        × ((list_loaded id resp now s).entity_data.is_stale ≡ false)
        × ((list_loaded id resp now s).entity_data.last_loaded_at ≡ now)
        × ((list_loaded id resp now s).async.loading ≡ false)
  unfolding list_loaded all_entities
  list_loaded-view resp now s h = (in_order-dict_of [] resp.items h, refl, refl, refl, refl)

  -- After a create the list has no id twice exactly when the new id was not in it: a row that the
  -- list already holds, from a response that came in between, is listed twice.
  pub created-IsDistinct_iff :
      (resp : ApiResponse T) (s : StoreState T)
      → IsDistinct s.entity_data.ids
      → IsDistinct (created id resp s).entity_data.ids
        ↔ (includes (id resp.item) s.entity_data.ids ≡ false)
  unfolding created
  created-IsDistinct_iff resp s h = (λ d. d.0, λ fresh. (fresh, h))

  -- A created row whose id is new stands first, above the rows that were listed before.
  pub created-view :
      (resp : ApiResponse T) (s : StoreState T)
      → includes (id resp.item) s.entity_data.ids ≡ false
      → (all_entities (created id resp s).entity_data ≡ resp.item ∷ all_entities s.entity_data)
        × ((created id resp s).paging.total ≡ s.paging.total + 1)
  unfolding created all_entities in_order
  created-view resp s fresh = (
    ground (
      arith,
      lookup-insert (id resp.item) (id resp.item) resp.item s.entity_data.entities,
      eq_refl (id resp.item),
      in_order-insert_absent (id resp.item) resp.item s.entity_data.entities s.entity_data.ids
          fresh,
    ),
    refl,
  )

module _ {T : Type 0} where
  in_order-remove_excluded :
      (k : String) (d : Dict T) (ids : List String)
      → in_order (remove k d) (exclude k ids) ≡ in_order d (exclude k ids)
  unfolding in_order
  in_order-remove_excluded k d [] = refl
  in_order-remove_excluded k d (x ∷ ids) =
      ground (arith, in_order-remove_excluded k d ids, lookup-remove k x d, eq_iff k x, eq_iff x k)

  -- A deleted row is gone from the list, the dictionary and the selection and is not active; the
  -- other rows keep their order, their selection and their entities, and the list is stale.
  pub deleted-view :
      (k : String) (s : StoreState T)
      → (all_entities (deleted k s).entity_data
          ≡ in_order s.entity_data.entities (exclude k s.entity_data.ids))
        × ((j : String)
            → includes j (deleted k s).entity_data.ids
              ≡ (if k == j then false else includes j s.entity_data.ids))
        × ((j : String)
            → includes j (deleted k s).selected_ids
              ≡ (if k == j then false else includes j s.selected_ids))
        × ((j : String)
            → lookup j (deleted k s).entity_data.entities
              ≡ (if k == j then none else lookup j s.entity_data.entities))
        × ((deleted k s).entity_data.active_id ≢ some k)
        × ((deleted k s).paging.total ≡ s.paging.total - 1)
        × ((deleted k s).entity_data.is_stale ≡ true)
  unfolding deleted all_entities
  deleted-view k s = (
    in_order-remove_excluded k s.entity_data.entities s.entity_data.ids,
    λ j. includes-exclude j k s.entity_data.ids,
    λ j. includes-exclude j k s.selected_ids,
    λ j. lookup-remove k j s.entity_data.entities,
    not_active s.entity_data.active_id,
    refl,
    refl,
  )
    where
      not_active : (a : Option String) → active_after_delete k a ≢ some k
      not_active none h = cc
      not_active (some a) h = ground (arith, eq_iff a k)
