-- ===== src/Tests/Adapter.antt =====
-- Concrete runs of the entity adapter.
use enterprise_platform.Common.{lookup, String, refl, true, none, List, [], ◌∷◌}
use enterprise_platform.Store.EntityState.{EntityDataState, in_order, all_entities}
use enterprise_platform.Store.Adapter.Invariant.{
  Call, upsert_one, upsert_many, remove_one, remove_many, set_all,
}
use enterprise_platform.Store.Adapter.OrderedMap.{Represents, run, effects, run-Represents}

abbrev Row : Type 0
Row = String × String

abbrev key_of : Row → String
key_of r = r.0

abbrev nothing : EntityDataState Row
nothing = record { ids = []; entities = []; active_id = none; last_loaded_at = 0; is_stale = true }

abbrev calls : List (Call Row)
calls =
    upsert_many (("a", "Ann") ∷ ("b", "Bob") ∷ [])
    ∷ upsert_one ("a", "Anna")
    ∷ remove_one "b"
    ∷ set_all (("c", "Cid") ∷ ("d", "Dan") ∷ [])
    ∷ remove_many ("c" ∷ [])
    ∷ []

run-Represents_example : Represents key_of (run key_of calls nothing) (effects key_of calls [])
unfolding lookup all_entities in_order
run-Represents_example =
    run-Represents key_of calls nothing [] (tt, (tt, (tt, ((refl, (refl, tt)), (tt, tt)))))
      (record { normalized = (tt, λ k. refl); keyed = λ k e h. cc; view = refl })
