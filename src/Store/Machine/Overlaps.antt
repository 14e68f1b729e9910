-- ===== src/Store/Machine/Overlaps.antt =====
-- Two updates in flight at once: the second call cancels the first one's response.
use enterprise_platform.Common.{
  String, Option, none, some, ◌≡◌, ◌≢◌, refl, arith, lookup, insert, lookup-insert, lookup-remove,
  eq_iff, eq_refl,
}
use enterprise_platform.Models.{ApiError}
use enterprise_platform.Store.Config.{Config}
use enterprise_platform.Store.Entity.{snapshot_of, update_begin, update_failed}
use enterprise_platform.Store.Machine.{Instance, Event, step}
use enterprise_platform.Store.Machine.Optimistic.{lookup-restore, snapshot_of_stashed}

module _ {T C : Type 0} (config : Config) (id : T → String) (merge : Option T → C → T) where
  -- A second update of the same row, called while the first is in flight, stashes the first one's
  -- optimistic value. If it fails, the row keeps the first call's changes, of which the server has
  -- confirmed nothing, and not the value from before both calls.
  pub overlapping_failure :
      (k : String) (c c' : C) (e : ApiError) (m : Instance T C)
      → let m1 = step config id merge (Event.update_entity k c) m in
        let m2 = step config id merge (Event.update_entity k c') m1 in
        let m3 = step config id merge (Event.update_failure e) m2 in
        (lookup k m3.state.entity_data.entities
          ≡ some (merge (lookup k m.state.entity_data.entities) c))
        × (m3.update_request ≡ none)
        × (lookup k m3.rollback ≡ none)
  unfolding step update_begin update_failed
  overlapping_failure k c c' e m =
      let d = m.state.entity_data.entities in
      let first = insert k (merge (lookup k d) c) d in
      let r1 = insert k (lookup k d) m.rollback in
      (
        ground (
          arith,
          snapshot_of_stashed k (lookup k first) r1,
          lookup-restore k k (lookup k first) (insert k (merge (lookup k first) c') first),
          lookup-insert k k (merge (lookup k d) c) d,
          eq_refl k,
        ),
        refl,
        ground (arith, lookup-remove k k (insert k (lookup k first) r1), eq_refl k),
      )

  -- An update of another row, called while the first is in flight, cancels the first one's
  -- response. When the second has failed, the first row still shows its unconfirmed changes, its
  -- snapshot stays in the rollback map, and no request is left that could end it.
  pub cancelled_update_leaks :
      (k k' : String) (c c' : C) (e : ApiError) (m : Instance T C)
      → k ≢ k'
      → let m1 = step config id merge (Event.update_entity k c) m in
        let m2 = step config id merge (Event.update_entity k' c') m1 in
        let m3 = step config id merge (Event.update_failure e) m2 in
        (lookup k m3.state.entity_data.entities
          ≡ some (merge (lookup k m.state.entity_data.entities) c))
        × (lookup k m3.rollback ≡ some (lookup k m.state.entity_data.entities))
        × (m3.update_request ≡ none)
  unfolding step update_begin update_failed
  cancelled_update_leaks k k' c c' e m other =
      let d = m.state.entity_data.entities in
      let first = insert k (merge (lookup k d) c) d in
      let r1 = insert k (lookup k d) m.rollback in
      let second = insert k' (merge (lookup k' first) c') first in
      let r2 = insert k' (lookup k' first) r1 in
      (
        ground (
          arith,
          lookup-restore k' k (snapshot_of (lookup k' r2)) second,
          lookup-insert k' k (merge (lookup k' first) c') first,
          lookup-insert k k (merge (lookup k d) c) d,
          eq_refl k,
          eq_iff k' k,
        ),
        ground (
          arith,
          lookup-remove k' k r2,
          lookup-insert k' k (lookup k' first) r1,
          lookup-insert k k (lookup k d) m.rollback,
          eq_refl k,
          eq_iff k' k,
        ),
        refl,
      )
