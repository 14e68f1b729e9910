-- ===== src/Users/Session/Saves.antt =====
-- Mutations of a user: what is sent, what a success leaves, and what a detail that fails leaves.
use enterprise_platform.Common.{
  String, Bool, true, false, Option, none, some, List, [], ◌∷◌, ◌++◌, lookup, lookup-insert,
  if◌then◌else◌, ◌==◌, ◌≡◌, ◌≢◌, ◌↔◌, refl, arith, eq_refl, includes-append, sym, append-nil,
}
use enterprise_platform.Models.{ApiError}
use enterprise_platform.Users.Types.{UserDto}
use enterprise_platform.Users.Store
use enterprise_platform.Users.Store.{UsersState, save_conflict, is_status}
use enterprise_platform.Users.Session.{
  Session, Event, Method, Mutation, ApiCall, Pending, calls_of, method_of, target_of, toast_of,
  step, pending_of, set_pending,
}

abbrev pub is_empty_list : List ApiCall → Bool
is_empty_list [] = true
is_empty_list (c ∷ cs) = false

pending_of-set_pending :
    (method : Method) (o : Option String) (p : Pending)
    → pending_of method (set_pending method o p) ≡ o
pending_of-set_pending Method.update o p = refl
pending_of-set_pending _ o p = refl

-- A mutation with nothing to change sends nothing and does not keep the store saving; any other
-- sends its calls in order, and is in flight for its target with `saving` set. Either way the last
-- error is cleared and no row changes.
pub step-mutate :
    (c : Mutation) (m : Session)
    → ((step (Event.mutate c) m).sent ≡ m.sent ++ calls_of c)
      × ((step (Event.mutate c) m).state.saving
          ≡ (if is_empty_list (calls_of c) then false else true))
      × (pending_of (method_of c) (step (Event.mutate c) m).pending
          ≡ (if is_empty_list (calls_of c) then none else some (target_of c)))
      × ((step (Event.mutate c) m).state.save_error ≡ none)
      × ((step (Event.mutate c) m).state.entities ≡ m.state.entities)
      × ((step (Event.mutate c) m).state.ids ≡ m.state.ids)
unfolding step Store.save_begin Store.save_done
step-mutate (Mutation.update_user k none none) m =
    (sym (append-nil m.sent), refl, refl, refl, refl, refl)
step-mutate (Mutation.update_user k none (some e)) m = (refl, refl, refl, refl, refl, refl)
step-mutate (Mutation.update_user k (some r) none) m = (refl, refl, refl, refl, refl, refl)
step-mutate (Mutation.update_user k (some r) (some e)) m = (refl, refl, refl, refl, refl, refl)
step-mutate (Mutation.rename_user k r) m = (refl, refl, refl, refl, refl, refl)
step-mutate (Mutation.change_email k r) m = (refl, refl, refl, refl, refl, refl)
step-mutate (Mutation.activate_user k) m = (refl, refl, refl, refl, refl, refl)
step-mutate (Mutation.deactivate_user k r) m = (refl, refl, refl, refl, refl, refl)

-- When the server has accepted a mutation in flight, the store stops saving, shows the method's
-- toast, and asks for the target's row; the row that is then answered takes its place in the
-- dictionary, and no other row changes. If that refresh fails, no state changes.
pub mutation_response_refreshes :
    (method : Method) (k : String) (u : UserDto) (m : Session)
    → pending_of method m.pending ≡ some k
    → u.id ≡ k
    → let m1 = step (Event.mutation_response method) m in
      let m2 = step (Event.refresh_response k u) m1 in
      (m1.state.saving ≡ false)
      × (m1.toasts ≡ m.toasts ++ toast_of method ∷ [])
      × ((j : String)
          → lookup j m2.state.entities ≡ (if k == j then some u else lookup j m.state.entities))
      × ((step (Event.refresh_failure k) m1).state ≡ m1.state)
unfolding step Store.save_done Store.upsert
mutation_response_refreshes method k u m p same = (
  rw (p, step),
  rw (p, step),
  λ j. ground (
    arith,
    includes-append k m.refreshes (k ∷ []),
    eq_refl k,
    lookup-insert u.id j u m.state.entities,
  ),
  refl,
)

-- A detail that fails is `notFound` exactly for status 404, and keeps any other error for the view;
-- it is never both, and the rows stay as they are.
pub detail_failure_iff :
    (k : String) (e : ApiError) (m : Session)
    → let m1 = step (Event.detail_failure e) (step (Event.load_by_id k) m) in
      ((m1.state.not_found ≡ true) ↔ (e.status_code ≡ 404))
      × ((m1.state.detail_error ≡ some e) ↔ (e.status_code ≢ 404))
      × (m1.state.loading_detail ≡ false)
      × (m1.state.entities ≡ m.state.entities)
unfolding step Store.load_by_id_begin Store.detail_failed
detail_failure_iff k e m = ground arith
