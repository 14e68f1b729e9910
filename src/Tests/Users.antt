-- ===== src/Tests/Users.antt =====
-- Concrete runs of the users' store.
use enterprise_platform.Common.{
  if◌then◌else◌, IsDistinct, Dict, lookup, String, ◌≡◌, refl, true, false, none, some, List, [],
  ◌∷◌, ◌++◌, map, ◌==◌,
}
use enterprise_platform.Models.{ApiError}
use enterprise_platform.Users.Types.{UserDto, ListUsersResponse}
use enterprise_platform.Users.Store.{items}
use enterprise_platform.Users.Session.{Method, toast_of, Session, initial_session, Event, step, run}
use enterprise_platform.Users.Session.Invariants.{user_id, run-items}
use enterprise_platform.Users.Session.Saves.{mutation_response_refreshes}

abbrev ann : UserDto
ann = record {
  id = "u1";
  email = "ann@example.com";
  first_name = "Ann";
  last_name = "Lee";
  external_identity_id = none;
  is_active = true;
  last_login_at = none;
  is_deleted = false;
  deleted_at = none;
  deleted_by = none;
  created_at = "2024-01-01";
  created_by = "system";
  modified_at = none;
  modified_by = none;
}

abbrev listed : ListUsersResponse
listed = record { items = ann ∷ []; page_number = 1; page_size = 25; total_count = some 1 }

abbrev rejected : ApiError
rejected = record {
  message = "Conflict";
  status_code = 409;
  code = none;
  errors = none;
  correlation_id = none;
  timestamp = none;
}

abbrev saving : Session
saving = record initial_session {
  pending = record {
    update = some "u1";
    rename = none;
    change_email = none;
    activate = none;
    deactivate = none;
  };
}

abbrev fields : Dict (List String)
fields = ("email", []) ∷ ("Email", "Taken" ∷ []) ∷ []

run-items_example :
    (map user_id (
        items
          (run
            (Event.load_list none ∷ Event.list_response listed ∷ Event.refresh_failure "u1" ∷ [])
            initial_session).state)
      ≡ (run
          (Event.load_list none ∷ Event.list_response listed ∷ Event.refresh_failure "u1" ∷ [])
          initial_session).state.ids)
    × IsDistinct
        (run
          (Event.load_list none ∷ Event.list_response listed ∷ Event.refresh_failure "u1" ∷ [])
          initial_session).state.ids
run-items_example =
    run-items (Event.load_list none ∷ Event.list_response listed ∷ Event.refresh_failure "u1" ∷ [])
      (tt, ((refl, tt), (tt, tt)))

mutation_response_refreshes_example :
    let m1 = step (Event.mutation_response Method.update) saving in
    let m2 = step (Event.refresh_response "u1" ann) m1 in
    (m1.state.saving ≡ false)
    × (m1.toasts ≡ saving.toasts ++ toast_of Method.update ∷ [])
    × ((j : String)
        → lookup j m2.state.entities
          ≡ (if "u1" == j then some ann else lookup j saving.state.entities))
    × ((step (Event.refresh_failure "u1") m1).state ≡ m1.state)
mutation_response_refreshes_example =
    mutation_response_refreshes Method.update "u1" ann saving refl refl
