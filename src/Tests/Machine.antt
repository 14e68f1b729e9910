-- ===== src/Tests/Machine.antt =====
-- Concrete runs of an entity store with its requests in flight.
use enterprise_platform.Common.{
  differ, lookup, String, ◌≡◌, refl, ◌≢◌, true, false, Option, none, some, List, [], ◌∷◌,
}
use enterprise_platform.Models.{ApiError, PagedResponse, ApiResponse, default_query_params}
use enterprise_platform.Store.EntityState.{all_entities}
use enterprise_platform.Store.Config.{Config}
use enterprise_platform.Store.Features.{LoadingCall, initial_loading}
use enterprise_platform.Store.Entity.{StoreState, list_loaded}
use enterprise_platform.Store.Entity.Rows.{list_loaded-view}
use enterprise_platform.Store.Machine.{Instance, Event, initial_instance, step, run}
use enterprise_platform.Store.Machine.Flags.{Flags, run-initial-Flags}
use enterprise_platform.Store.Machine.Optimistic.{run-restores, foreign_row_restored}
use enterprise_platform.Store.Machine.Overlaps.{overlapping_failure}

abbrev Row : Type 0
Row = String × String

abbrev key_of : Row → String
key_of r = r.0

abbrev rename : Option Row → String → Row
rename none name = ("", name)
rename (some old) name = (old.0, name)

abbrev roles : Config
roles = record {
  entity_name = "Role";
  default_page_size = 20;
  show_notifications = true;
  cache_ttl_ms = 300000;
  invalidation_key = "role";
  invalidates_on = "users" ∷ [];
}

abbrev loaded : StoreState Row
loaded = record {
  entity_data = record {
    ids = "a" ∷ "b" ∷ [];
    entities = ("a", ("a", "Admin")) ∷ ("b", ("b", "Buyer")) ∷ [];
    active_id = some "a";
    last_loaded_at = 1000;
    is_stale = false;
  };
  async = initial_loading;
  paging = record { page = 1; page_size = 20; total = 2; total_pages = 1 };
  query_params = default_query_params;
  selected_ids = "a" ∷ [];
}

abbrev idle : Instance Row String
idle = record {
  state = loaded;
  rollback = [];
  list_request = none;
  detail_request = none;
  create_request = none;
  update_request = none;
  delete_request = none;
  toasts = [];
  published = [];
}

abbrev asking : Instance Row String
asking = record idle { list_request = some default_query_params; delete_request = some "b" }

abbrev conflict : ApiError
conflict = record {
  message = "Conflict";
  status_code = 409;
  code = none;
  errors = none;
  correlation_id = none;
  timestamp = none;
}

abbrev page : PagedResponse Row
page = record {
  items = ("c", "Clerk") ∷ ("a", "Admin") ∷ [];
  total = 2;
  page = 1;
  page_size = 20;
  total_pages = 1;
  has_next = false;
  has_prev = false;
}

abbrev answer : ApiResponse Row
answer = record { item = ("d", "Driver"); message = none; success = true }

abbrev between : List (Event Row String)
between =
    Event.load_by_id "b"
    ∷ Event.detail_response answer
    ∷ Event.delete_entity "a"
    ∷ Event.peer_update "b" (some ("b", "Bill"))
    ∷ Event.delete_response 2000
    ∷ Event.loading LoadingCall.set_loaded
    ∷ Event.peer_settled "b"
    ∷ []

abbrev mixed : List (Event Row String)
mixed =
    Event.load_all none
    ∷ Event.update_entity "a" "Owner"
    ∷ Event.list_response page 1000
    ∷ Event.update_failure conflict
    ∷ Event.delete_entity "c"
    ∷ Event.loading LoadingCall.clear_error
    ∷ []

run-restores_example :
    let m1 =
      run roles key_of rename between
        (step roles key_of rename (Event.update_entity "a" "Owner") idle) in
    let m2 = step roles key_of rename (Event.update_failure conflict) m1 in
    (lookup "a" m2.state.entity_data.entities ≡ lookup "a" idle.state.entity_data.entities)
    × ((j : String)
        → j ≢ "a"
        → lookup j m2.state.entity_data.entities ≡ lookup j m1.state.entity_data.entities)
    × (m2.update_request ≡ none)
    × (lookup "a" m2.rollback ≡ none)
run-restores_example =
    run-restores roles key_of rename "a" "Owner" between conflict idle
      (tt, (tt, (tt, (differ "b" "a" refl, (tt, (tt, (differ "b" "a" refl, tt)))))))

foreign_row_restored_example :
    let m1 =
      run roles key_of rename between
        (step roles key_of rename (Event.update_entity "a" "Owner") idle) in
    let m2 =
      run roles key_of rename
        (Event.load_by_id "b" ∷ [])
        (step roles key_of rename (Event.peer_update "a" (some ("a", "Ann"))) m1) in
    let m3 = step roles key_of rename (Event.update_failure conflict) m2 in
    lookup "a" m3.state.entity_data.entities ≡ some ("a", "Ann")
foreign_row_restored_example =
    foreign_row_restored roles key_of rename "a" "Owner" ("a", "Ann") between
      (Event.load_by_id "b" ∷ []) conflict idle
      (tt, (tt, (tt, (differ "b" "a" refl, (tt, (tt, (differ "b" "a" refl, tt))))))) (tt, tt)

run-initial-Flags_example :
    Flags (run roles key_of rename mixed (initial_instance Row String roles))
run-initial-Flags_example =
    run-initial-Flags roles key_of rename mixed (tt, (tt, (tt, (tt, (tt, (tt, tt))))))

overlapping_failure_example :
    let m1 = step roles key_of rename (Event.update_entity "a" "Owner") idle in
    let m2 = step roles key_of rename (Event.update_entity "a" "Chief") m1 in
    let m3 = step roles key_of rename (Event.update_failure conflict) m2 in
    (lookup "a" m3.state.entity_data.entities
      ≡ some (rename (lookup "a" idle.state.entity_data.entities) "Owner"))
    × (m3.update_request ≡ none)
    × (lookup "a" m3.rollback ≡ none)
overlapping_failure_example =
    overlapping_failure roles key_of rename "a" "Owner" "Chief" conflict idle

list_loaded-view_example :
    (all_entities (list_loaded key_of page 5000 loaded).entity_data ≡ page.items)
    × ((list_loaded key_of page 5000 loaded).paging ≡ record {
      page = page.page;
      page_size = page.page_size;
      total = page.total;
      total_pages = page.total_pages;
    })
    × ((list_loaded key_of page 5000 loaded).entity_data.is_stale ≡ false)
    × ((list_loaded key_of page 5000 loaded).entity_data.last_loaded_at ≡ 5000)
    × ((list_loaded key_of page 5000 loaded).async.loading ≡ false)
list_loaded-view_example = list_loaded-view key_of page 5000 loaded (refl, (refl, tt))
