-- ===== src/Store/Machine/Optimistic.antt =====
-- Optimistic updates: what a failed update leaves behind, alone and among other events.
use enterprise_platform.Common.{
  String, false, Option, none, some, List, [], ◌∷◌, ◌≡◌, ◌≢◌, refl, arith, Dict, lookup, insert,
  lookup-insert, lookup-remove, ◌∙◌, if◌then◌else◌, ◌==◌, eq_iff, eq_refl,
}
use enterprise_platform.Models.{ApiError}
use enterprise_platform.Store.Config.{Config}
use enterprise_platform.Store.Entity.{
  StoreState, RollbackMap, snapshot_of, restore, update_begin, update_failed,
}
use enterprise_platform.Store.Machine.{Instance, Event, step, run}

pub lookup-restore :
    {T : Type 0} (k j : String) (old : Option T) (d : Dict T)
    → lookup j (restore k old d) ≡ (if k == j then old else lookup j d)
unfolding restore
lookup-restore k j none d = lookup-remove k j d
lookup-restore k j (some old) d = lookup-insert k j old d

-- An entry of the rollback map just stashed is the one that is read.
pub snapshot_of_stashed :
    {T : Type 0} (k : String) (old : Option T) (r : RollbackMap T)
    → snapshot_of (lookup k (insert k old r)) ≡ old
snapshot_of_stashed k old r = ground (arith, lookup-insert k k old r, eq_refl k)

module _ {T C : Type 0} (merge : Option T → C → T) where
  -- An update that fails with nothing in between puts every row back, keeps the ids, the selection
  -- and the paging, clears `saving`, stores the error, and takes its entry off the rollback map.
  pub update_failed-update_begin :
      (k : String) (changes : C) (e : ApiError) (s : StoreState T) (r : RollbackMap T)
      → let (s1, r1) = update_begin merge k changes s r in
        let (s2, r2) = update_failed k e s1 r1 in
        ((j : String) → lookup j s2.entity_data.entities ≡ lookup j s.entity_data.entities)
        × (s2.entity_data.ids ≡ s.entity_data.ids)
        × (s2.selected_ids ≡ s.selected_ids)
        × (s2.paging ≡ s.paging)
        × (s2.async.saving ≡ false)
        × (s2.async.error ≡ some e)
        × (lookup k r2 ≡ none)
  unfolding update_begin update_failed
  update_failed-update_begin k changes e s r =
      let d = s.entity_data.entities in
      let patched = insert k (merge (lookup k d) changes) d in
      (
        λ j. ground (
          arith,
          snapshot_of_stashed k (lookup k d) r,
          lookup-restore k j (lookup k d) patched,
          lookup-insert k j (merge (lookup k d) changes) d,
          eq_iff k j,
        ),
        refl,
        refl,
        refl,
        refl,
        refl,
        ground (arith, lookup-remove k k (insert k (lookup k d) r), eq_refl k),
      )

  -- The rollback map is one for all stores. Where two stores have updates of the same id in flight,
  -- the failure of the first store's update gives its row the other store's entity.
  pub update_failed_shared_map :
      (k : String) (c c' : C) (e : ApiError) (s s' : StoreState T) (r : RollbackMap T) (other : T)
      → lookup k s'.entity_data.entities ≡ some other
      → let (s1, r1) = update_begin merge k c s r in
        let (s1', r2) = update_begin merge k c' s' r1 in
        let (s2, r3) = update_failed k e s1 r2 in lookup k s2.entity_data.entities ≡ some other
  unfolding update_begin update_failed
  update_failed_shared_map k c c' e s s' r other h =
      let d = s.entity_data.entities in
      let r1 = insert k (lookup k d) r in
      ground (
        arith,
        snapshot_of_stashed k (lookup k s'.entity_data.entities) r1,
        lookup-restore k k (lookup k s'.entity_data.entities) (insert k (merge (lookup k d) c) d),
        eq_refl k,
      )

-- Any event but a call, a response or a failure of the store's own `updateEntity`, and but one of
-- another store's `updateEntity` with the id `k`.
abbrev pub IsOther : {T C : Type 0} → String → Event T C → Type 0
IsOther k (Event.update_entity _ _) = ⊥
IsOther k (Event.update_response _ _) = ⊥
IsOther k (Event.update_failure _) = ⊥
IsOther k (Event.peer_update j _) = j ≢ k
IsOther k (Event.peer_settled j) = j ≢ k
IsOther k _ = Unit

abbrev pub AllOther : {T C : Type 0} → String → List (Event T C) → Type 0
AllOther k [] = Unit
AllOther k (e ∷ es) = IsOther k e × AllOther k es

module _ {T C : Type 0} (config : Config) (id : T → String) (merge : Option T → C → T) where
  step_keeps_update :
      (k : String) (e : Event T C) (m : Instance T C)
      → IsOther k e
      → (lookup k (step config id merge e m).rollback ≡ lookup k m.rollback)
        × ((step config id merge e m).update_request ≡ m.update_request)
  unfolding step
  step_keeps_update k (Event.update_entity _ _) m h = absurd h
  step_keeps_update k (Event.update_response _ _) m h = absurd h
  step_keeps_update k (Event.update_failure _) m h = absurd h
  step_keeps_update k (Event.peer_update j old) m h =
      ground (arith, lookup-insert j k old m.rollback, eq_iff j k)
  step_keeps_update k (Event.peer_settled j) m h =
      ground (arith, lookup-remove j k m.rollback, eq_iff j k)
  step_keeps_update k _ m h = ground arith

  run_keeps_update :
      (k : String) (es : List (Event T C)) (m : Instance T C)
      → AllOther k es
      → (lookup k (run config id merge es m).rollback ≡ lookup k m.rollback)
        × ((run config id merge es m).update_request ≡ m.update_request)
  unfolding run
  run_keeps_update k [] m h = (refl, refl)
  run_keeps_update k (e ∷ es) m (h, hs) =
      ground (arith, step_keeps_update k e m h, run_keeps_update k es (step config id merge e m) hs)

  failure_restores :
      (k : String) (c : C) (e : ApiError) (m : Instance T C) (old : Option T)
      → m.update_request ≡ some (k, c)
      → lookup k m.rollback ≡ some old
      → (lookup k (step config id merge (Event.update_failure e) m).state.entity_data.entities
          ≡ old)
        × ((j : String)
            → j ≢ k
            → lookup j (step config id merge (Event.update_failure e) m).state.entity_data.entities
              ≡ lookup j m.state.entity_data.entities)
        × ((step config id merge (Event.update_failure e) m).update_request ≡ none)
        × (lookup k (step config id merge (Event.update_failure e) m).rollback ≡ none)
  unfolding step update_failed
  failure_restores k c e m old p q = (
    ground (arith, lookup-restore k k old m.state.entity_data.entities, eq_refl k),
    λ j other. ground (arith, lookup-restore k j old m.state.entity_data.entities, eq_iff k j),
    ground arith,
    ground (arith, lookup-remove k k m.rollback, eq_refl k),
  )

  -- Whatever other calls and responses of the store come between an update of a row and its
  -- failure, other than of `updateEntity`, however they change the row, and whatever updates of
  -- other ids other stores make in the one rollback map, the failure puts the row back to what it
  -- was before the update, leaves the other rows as they then are, and leaves no update in flight
  -- and no snapshot of the row.
  pub run-restores :
      (k : String) (c : C) (es : List (Event T C)) (e : ApiError) (m : Instance T C)
      → AllOther k es
      → let m1 = run config id merge es (step config id merge (Event.update_entity k c) m) in
        let m2 = step config id merge (Event.update_failure e) m1 in
        (lookup k m2.state.entity_data.entities ≡ lookup k m.state.entity_data.entities)
        × ((j : String)
            → j ≢ k
            → lookup j m2.state.entity_data.entities ≡ lookup j m1.state.entity_data.entities)
        × (m2.update_request ≡ none)
        × (lookup k m2.rollback ≡ none)
  unfolding step update_begin
  run-restores k c es e m other =
      let old = lookup k m.state.entity_data.entities in
      let m0 = step config id merge (Event.update_entity k c) m in
      let kept = run_keeps_update k es m0 other in
      failure_restores k c e (run config id merge es m0) old (kept.1)
        (rw (kept.0) (ground (arith, lookup-insert k k old m.rollback, eq_refl k)))

  -- The rollback map is one for all stores. When another store updates a row of the same id while
  -- an update of this store is in flight, and neither of the two has ended when this store's update
  -- fails, then this store shows under the id the row that the other store had before its update,
  -- whatever other calls and responses of this store, other than of `updateEntity`, and updates of
  -- other ids by other stores come before and after.
  pub foreign_row_restored :
      (k : String) (c : C) (other : T) (es es' : List (Event T C)) (e : ApiError) (m : Instance T C)
      → AllOther k es
      → AllOther k es'
      → let m1 = run config id merge es (step config id merge (Event.update_entity k c) m) in
        let m2 =
          run config id merge es' (step config id merge (Event.peer_update k (some other)) m1) in
        let m3 = step config id merge (Event.update_failure e) m2 in
        lookup k m3.state.entity_data.entities ≡ some other
  unfolding step update_begin
  foreign_row_restored k c other es es' e m before after =
      let m0 = step config id merge (Event.update_entity k c) m in
      let m1 = run config id merge es m0 in
      let shared = step config id merge (Event.peer_update k (some other)) m1 in
      let kept = run_keeps_update k es m0 before in
      let kept' = run_keeps_update k es' shared after in
      (failure_restores k c e (run config id merge es' shared) (some other) (kept'.1 ∙ kept.1)
        (kept'.0 ∙ lookup-insert k k (some other) m1.rollback ∙ rw (eq_refl k) refl)).0
