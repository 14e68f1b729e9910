-- ===== src/Store/Machine/Freshness.antt =====
-- The cache marks: when `loadAllIfStale` asks the API, over the store's events.
use enterprise_platform.Common.{
  ℕ, ◌+◌, ◌≤◌, ◌<◌, String, true, Option, none, List, [], ◌∷◌, ◌≡◌, ◌≢◌, arith, any, ◌==◌,
}
use enterprise_platform.Models.{PagedResponse}
use enterprise_platform.Store.Config.{Config}
use enterprise_platform.Store.Entity
use enterprise_platform.Store.Entity.{should_reload}
use enterprise_platform.Store.Machine.{Instance, Event, step}

-- An event that delivers no list.
abbrev pub IsNoList : {T C : Type 0} → Event T C → Type 0
IsNoList (Event.list_response _ _) = ⊥
IsNoList _ = Unit

abbrev pub AllNoList : {T C : Type 0} → List (Event T C) → Type 0
AllNoList [] = Unit
AllNoList (e ∷ es) = IsNoList e × AllNoList es

-- An event after which the list on display may be out of date.
abbrev pub Mutates : {T C : Type 0} → Config → Event T C → Instance T C → Type 0
Mutates config (Event.create_response _ _) m = m.create_request ≢ none
Mutates config (Event.delete_response _) m = m.delete_request ≢ none
Mutates config Event.invalidate m = Unit
Mutates config (Event.peer_event e) m = any (λ p. e.entity == p) config.invalidates_on ≡ true
Mutates config _ m = ⊥

module _ {T C : Type 0} (config : Config) (id : T → String) (merge : Option T → C → T) where
  -- When a requested list has arrived at `now`, `loadAllIfStale` at a later time changes nothing as
  -- long as the TTL has not passed, and asks the API once it has.
  pub step-load_all_if_stale_after_list :
      (resp : PagedResponse T) (now later : ℕ) (m : Instance T C)
      → m.list_request ≢ none
      → let m1 = step config id merge (Event.list_response resp now) m in
        (later ≤ now + config.cache_ttl_ms
          → step config id merge (Event.load_all_if_stale later) m1 ≡ m1)
        × (now + config.cache_ttl_ms < later
            → step config id merge (Event.load_all_if_stale later) m1
              ≡ step config id merge (Event.load_all none) m1)
  unfolding step should_reload Entity.list_loaded
  step-load_all_if_stale_after_list resp now later m h =
      (λ soon. ground arith, λ late. ground arith)
