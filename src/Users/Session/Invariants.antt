-- ===== src/Users/Session/Invariants.antt =====
-- What holds of the users store after any sequence of events.
use enterprise_platform.Common.{
  String, Bool, true, false, some, List, [], ◌∷◌, map, Dict, lookup, insert, lookup-insert,
  includes, IsDistinct, is_some, ◌==◌, ◌≡◌, refl, arith, eq_iff, eq_refl, Bool-cases, Option-cases,
  inl, inr, ap,
}
use enterprise_platform.Store.EntityState.{in_order}
use enterprise_platform.Users.Types.{UserDto, ListUsersResponse, ListUsersParams}
use enterprise_platform.Users.Store
use enterprise_platform.Users.Store.{UsersState, items, collect, upsert}
use enterprise_platform.Users.Session.{Session, Event, initial_session, step, run, Mutation}

abbrev pub user_id : UserDto → String
user_id u = u.id

abbrev IsKeyed : Dict UserDto → Type 0
IsKeyed d = (k : String) (u : UserDto) → lookup k d ≡ some u → u.id ≡ k

abbrev Covers : Dict UserDto → List String → Type 0
Covers d ids = (k : String) → includes k ids ≡ true → is_some (lookup k d) ≡ true

-- The listed ids differ, and each has its own row in the dictionary.
pub record IsListed (s : UsersState) : Type 0 where
  pub distinct : IsDistinct s.ids
  pub covered : Covers s.entities s.ids
  pub keyed : IsKeyed s.entities

-- Every list response holds rows with different ids.
abbrev pub IsProper : Event → Type 0
IsProper (Event.list_response resp) = IsDistinct (map user_id resp.items)
IsProper _ = Unit

abbrev pub AllProper : List Event → Type 0
AllProper [] = Unit
AllProper (e ∷ es) = IsProper e × AllProper es

insert-IsKeyed : (u : UserDto) (d : Dict UserDto) → IsKeyed d → IsKeyed (insert u.id u d)
insert-IsKeyed u d keyed k v h = ground (arith, lookup-insert u.id k u d, keyed k v, eq_iff u.id k)

collect_ids : (d : Dict UserDto) (us : List UserDto) → (collect d us).1 ≡ map user_id us
unfolding collect
collect_ids d [] = refl
collect_ids d (u ∷ us) = ap (◌∷◌ u.id) (collect_ids (insert u.id u d) us)

collect-IsKeyed : (d : Dict UserDto) (us : List UserDto) → IsKeyed d → IsKeyed (collect d us).0
unfolding collect
collect-IsKeyed d [] keyed = keyed
collect-IsKeyed d (u ∷ us) keyed = collect-IsKeyed (insert u.id u d) us (insert-IsKeyed u d keyed)

collect_keeps :
    (d : Dict UserDto) (us : List UserDto) (k : String)
    → is_some (lookup k d) ≡ true
    → is_some (lookup k (collect d us).0) ≡ true
unfolding collect
collect_keeps d [] k h = h
collect_keeps d (u ∷ us) k h =
    collect_keeps (insert u.id u d) us k (ground (arith, lookup-insert u.id k u d))

collect-Covers : (d : Dict UserDto) (us : List UserDto) → Covers (collect d us).0 (map user_id us)
unfolding collect
collect-Covers d [] k h = cc
collect-Covers d (u ∷ us) k h = elim (Bool-cases (u.id == k)) [
  | inl same ↦ collect_keeps (insert u.id u d) us k (ground (arith, lookup-insert u.id k u d))
  | inr other ↦ collect-Covers (insert u.id u d) us k (ground arith)
]

upsert-IsListed : (u : UserDto) (s : UsersState) → IsListed s → IsListed (upsert u s)
unfolding upsert
upsert-IsListed u s l = record {
  distinct = ground (arith, l.distinct);
  covered = λ k h. ground (arith, lookup-insert u.id k u s.entities, l.covered k, eq_iff u.id k);
  keyed = insert-IsKeyed u s.entities l.keyed;
}

list_loaded-IsListed :
    (next : ListUsersParams) (resp : ListUsersResponse) (s : UsersState)
    → IsDistinct (map user_id resp.items)
    → IsListed s
    → IsListed (Store.list_loaded next resp s)
unfolding Store.list_loaded
list_loaded-IsListed next resp s d l = record {
  distinct = rw (collect_ids s.entities resp.items) d;
  covered = rw (collect_ids s.entities resp.items) (collect-Covers s.entities resp.items);
  keyed = collect-IsKeyed s.entities resp.items l.keyed;
}

-- Only the ids and the dictionary matter.
IsListed-of : (s t : UsersState) → t.ids ≡ s.ids → t.entities ≡ s.entities → IsListed s → IsListed t
IsListed-of s t p q l = record {
  distinct = rw p l.distinct;
  covered = rw (p, q) l.covered;
  keyed = rw q l.keyed;
}

-- The events that bring rows.
abbrev brings_rows : Event → Bool
brings_rows (Event.list_response _) = true
brings_rows (Event.detail_response _) = true
brings_rows (Event.create_response _) = true
brings_rows (Event.refresh_response _ _) = true
brings_rows _ = false

step_keeps_rows :
    (e : Event) (m : Session)
    → brings_rows e ≡ false
    → ((step e m).state.ids ≡ m.state.ids) × ((step e m).state.entities ≡ m.state.entities)
unfolding step Store.load_list_begin Store.list_failed Store.load_by_id_begin Store.detail_failed
    Store.set_active Store.clear_save_error Store.save_begin Store.save_done Store.save_failed
step_keeps_rows (Event.mutate (Mutation.update_user k r e)) m h = ground arith
step_keeps_rows _ m h = ground arith

initial-IsListed : IsListed initial_session.state
unfolding lookup
initial-IsListed = record { distinct = tt; covered = λ k h. cc; keyed = λ k u h. cc }

step-IsListed :
    (e : Event) (m : Session) → IsProper e → IsListed m.state → IsListed (step e m).state
unfolding step Store.detail_loaded Store.user_created
step-IsListed (Event.list_response resp) m p l = elim (Option-cases m.list_request) [
  | inl e ↦ rw (e, step) l
  | inr (next, e) ↦ rw (e, step) (list_loaded-IsListed next resp m.state p l)
]
step-IsListed (Event.detail_response u) m p l = elim (Option-cases m.detail_request) [
  | inl e ↦ rw (e, step) l
  | inr (k, e) ↦
      rw (e, step) (IsListed-of (upsert u m.state) _ refl refl (upsert-IsListed u m.state l))
]
step-IsListed (Event.create_response u) m p l = elim (Option-cases m.create_request) [
  | inl e ↦ rw (e, step) l
  | inr (r, e) ↦
      rw (e, step) (IsListed-of (upsert u m.state) _ refl refl (upsert-IsListed u m.state l))
]
step-IsListed (Event.refresh_response k u) m p l = elim (Bool-cases (includes k m.refreshes)) [
  | inl e ↦ rw (e, step) (upsert-IsListed u m.state l)
  | inr e ↦ rw (e, step) l
]
step-IsListed e m p l =
    let kept = step_keeps_rows e m refl in IsListed-of m.state (step e m).state (kept.0) (kept.1) l

in_order_ids :
    (d : Dict UserDto) (ids : List String)
    → Covers d ids
    → IsKeyed d
    → map user_id (in_order d ids) ≡ ids
unfolding in_order
in_order_ids d [] c keyed = refl
in_order_ids d (k ∷ ks) c keyed = elim (Option-cases (lookup k d)) [
  | inl e ↦ absurd (ground (arith, c k, eq_refl k))
  | inr (u, e) ↦ ground (arith, keyed k u e, in_order_ids d ks (λ j h. c j (ground arith)) keyed)
]

run-IsListed :
    (es : List Event) (m : Session) → AllProper es → IsListed m.state → IsListed (run es m).state
unfolding run
run-IsListed [] m p l = l
run-IsListed (e ∷ es) m (p, ps) l = run-IsListed es (step e m) ps (step-IsListed e m p l)

-- From a new store, after any sequence of calls, responses and failures in which every list
-- response holds rows with different ids: the view shows one row for each listed id, in the order
-- of the ids, each row under its own id, and no id twice.
pub run-items :
    (es : List Event)
    → AllProper es
    → (map user_id (items (run es initial_session).state) ≡ (run es initial_session).state.ids)
      × IsDistinct (run es initial_session).state.ids
unfolding items
run-items es p =
    let l = run-IsListed es initial_session p initial-IsListed in
    (in_order_ids _ _ l.covered l.keyed, l.distinct)
