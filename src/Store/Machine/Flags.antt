-- ===== src/Store/Machine/Flags.antt =====
-- The async flags against the requests in flight, over every sequence of events.
use enterprise_platform.Common.{String, true, Option, List, [], ◌∷◌, is_some, ◌≡◌, ◌⊎◌, refl, arith}
use enterprise_platform.Store.Bus.{CacheInvalidationEvent}
use enterprise_platform.Store.Config.{Config}
use enterprise_platform.Store.Entity
use enterprise_platform.Store.Entity.{StoreState, RollbackMap}
use enterprise_platform.Store.Features.{LoadingCall, loading_step}
use enterprise_platform.Store.Machine.{Instance, Event, initial_instance, hear, step, run}

-- A spinner turns exactly while its request is in flight. The flag `saving` is shared by
-- `createEntity` and `updateEntity`, and the first of the two to end clears it.
pub record Flags {T C : Type 0} (m : Instance T C) : Type 0 where
  pub list : (m.state).async.loading ≡ is_some m.list_request
  pub detail : (m.state).async.loading_detail ≡ is_some m.detail_request
  pub delete : (m.state).async.deleting ≡ is_some m.delete_request
  pub save :
      (m.state).async.saving ≡ true
      → (is_some m.create_request ≡ true) ⊎ (is_some m.update_request ≡ true)

-- No call of a setter of flags that `withLoadingState` gives every store; `clearError` sets none.
abbrev pub SetsNoFlag : {T C : Type 0} → Event T C → Type 0
SetsNoFlag (Event.loading LoadingCall.clear_error) = Unit
SetsNoFlag (Event.loading _) = ⊥
SetsNoFlag _ = Unit

abbrev pub AllSetNoFlag : {T C : Type 0} → List (Event T C) → Type 0
AllSetNoFlag [] = Unit
AllSetNoFlag (e ∷ es) = SetsNoFlag e × AllSetNoFlag es

module _ {T : Type 0} where
  pub hear-async :
      (peers : List String) (e : CacheInvalidationEvent) (s : StoreState T)
      → (hear peers e s).async ≡ s.async
  unfolding hear Entity.invalidate
  hear-async [] e s = refl
  hear-async (peer ∷ peers) e s =
      ground (arith, hear-async peers e s, hear-async peers e (Entity.invalidate s))

module _ {T C : Type 0} (config : Config) (id : T → String) (merge : Option T → C → T) where
  step-Flags :
      (e : Event T C) (m : Instance T C) → SetsNoFlag e → Flags m → Flags (step config id merge e m)
  unfolding step loading_step Entity.load_all_begin Entity.load_all_failed Entity.load_by_id_begin
      Entity.load_by_id_failed Entity.create_begin Entity.create_failed Entity.update_begin
      Entity.updated Entity.update_failed Entity.delete_begin Entity.deleted Entity.delete_failed
      Entity.invalidate Entity.set_active Entity.list_loaded Entity.detail_loaded Entity.created
  step-Flags (Event.loading LoadingCall.clear_error) m quiet h = ground arith
  step-Flags (Event.loading _) m quiet h = absurd quiet
  step-Flags (Event.peer_event e) m quiet h =
      ground (arith, hear-async config.invalidates_on e m.state)
  step-Flags _ m quiet h = ground arith

  run-Flags :
      (es : List (Event T C)) (m : Instance T C)
      → AllSetNoFlag es
      → Flags m
      → Flags (run config id merge es m)
  unfolding run
  run-Flags [] m quiet h = h
  run-Flags (e ∷ es) m (quiet, quiets) h =
      run-Flags es (step config id merge e m) quiets (step-Flags e m quiet h)

  -- From a new store, after any sequence of calls, responses and failures in which nobody calls the
  -- public setters of the flags: `loading`, `loadingDetail` and `deleting` are set exactly while
  -- their request is in flight, so no spinner is left behind and none stops early, and `saving` is
  -- set only while a create or an update is in flight.
  pub run-initial-Flags :
      (es : List (Event T C))
      → AllSetNoFlag es
      → Flags (run config id merge es (initial_instance T C config))
  unfolding initial_instance
  run-initial-Flags es quiets =
      run-Flags es (initial_instance T C config) quiets
        (record { list = refl; detail = refl; delete = refl; save = λ h. cc })
