-- ===== src/Users/Session.antt =====
-- features/users/state/users.store.ts: the store with its requests in flight. A new call of a
-- method takes the place of that method's request, whose response is not delivered any more. The
-- refreshes after a mutation are plain subscriptions: each is answered on its own.
use enterprise_platform.Common.{
  ℕ, String, Bool, Option, none, some, List, [], ◌∷◌, ◌++◌, if◌then◌else◌, includes, ◌==◌,
}
use Prim.Native.String
use enterprise_platform.Models.{ApiError}
use enterprise_platform.Users.Types.{
  UserDto, ListUsersResponse, ListUsersParams, ListUsersOverride, CreateUserRequest,
  RenameUserRequest, ChangeUserEmailRequest, DeactivateUserRequest,
}
use enterprise_platform.Users.Store
use enterprise_platform.Users.Store.{UsersState, initial_state, next_params}
pub mod Invariants
pub mod Saves

-- The methods that answer with no body.
pub data Method : Type 0 where
  update rename change_email activate deactivate : Method

-- The id that each method's request in flight is for.
pub record Pending : Type 0 where
  pub update : Option String
  pub rename : Option String
  pub change_email : Option String
  pub activate : Option String
  pub deactivate : Option String

abbrev pub pending_of : Method → Pending → Option String
pending_of Method.update p = p.update
pending_of Method.rename p = p.rename
pending_of Method.change_email p = p.change_email
pending_of Method.activate p = p.activate
pending_of Method.deactivate p = p.deactivate

abbrev pub set_pending : Method → Option String → Pending → Pending
set_pending Method.update o p = record p { update = o }
set_pending Method.rename o p = record p { rename = o }
set_pending Method.change_email o p = record p { change_email = o }
set_pending Method.activate o p = record p { activate = o }
set_pending Method.deactivate o p = record p { deactivate = o }

-- A call of one of these methods.
pub data Mutation : Type 0 where
  update_user : String → Option RenameUserRequest → Option ChangeUserEmailRequest → Mutation
  rename_user : String → RenameUserRequest → Mutation
  change_email : String → ChangeUserEmailRequest → Mutation
  activate_user : String → Mutation
  deactivate_user : String → DeactivateUserRequest → Mutation

-- The calls of the API that a mutation makes.
pub data ApiCall : Type 0 where
  rename : String → RenameUserRequest → ApiCall
  change_email : String → ChangeUserEmailRequest → ApiCall
  activate : String → ApiCall
  deactivate : String → DeactivateUserRequest → ApiCall

abbrev pub rename_call : String → Option RenameUserRequest → List ApiCall
rename_call k none = []
rename_call k (some r) = ApiCall.rename k r ∷ []

abbrev pub email_call : String → Option ChangeUserEmailRequest → List ApiCall
email_call k none = []
email_call k (some r) = ApiCall.change_email k r ∷ []

unfoldable pub calls_of : Mutation → List ApiCall
calls_of (update_user k r e) = rename_call k r ++ email_call k e
calls_of (rename_user k r) = ApiCall.rename k r ∷ []
calls_of (Mutation.change_email k r) = ApiCall.change_email k r ∷ []
calls_of (activate_user k) = ApiCall.activate k ∷ []
calls_of (deactivate_user k r) = ApiCall.deactivate k r ∷ []

abbrev pub method_of : Mutation → Method
method_of (update_user _ _ _) = Method.update
method_of (rename_user _ _) = Method.rename
method_of (Mutation.change_email _ _) = Method.change_email
method_of (activate_user _) = Method.activate
method_of (deactivate_user _ _) = Method.deactivate

abbrev pub target_of : Mutation → String
target_of (update_user k _ _) = k
target_of (rename_user k _) = k
target_of (Mutation.change_email k _) = k
target_of (activate_user k) = k
target_of (deactivate_user k _) = k

abbrev pub toast_of : Method → String × String
toast_of Method.update = ("User updated", "Changes saved successfully.")
toast_of Method.rename = ("User renamed", "Name updated successfully.")
toast_of Method.change_email = ("Email updated", "New email saved successfully.")
toast_of Method.activate = ("User activated", "User can now sign in.")
toast_of Method.deactivate = ("User deactivated", "User can no longer sign in.")

pub record Session : Type 0 where
  pub state : UsersState
  pub list_request : Option ListUsersParams
  pub detail_request : Option String
  pub create_request : Option CreateUserRequest
  pub pending : Pending
  pub refreshes : List String
  pub sent : List ApiCall
  pub toasts : List (String × String)

abbrev pub initial_session : Session
initial_session = record {
  state = initial_state;
  list_request = none;
  detail_request = none;
  create_request = none;
  pending = record {
    update = none;
    rename = none;
    change_email = none;
    activate = none;
    deactivate = none;
  };
  refreshes = [];
  sent = [];
  toasts = [];
}

pub data Event : Type 0 where
  load_list : Option ListUsersOverride → Event
  list_response : ListUsersResponse → Event
  list_failure : ApiError → Event
  load_by_id : String → Event
  detail_response : UserDto → Event
  detail_failure : ApiError → Event
  create_user : CreateUserRequest → Event
  create_response : UserDto → Event
  create_failure : ApiError → Event
  mutate : Mutation → Event
  mutation_response : Method → Event
  mutation_failure : Method → ApiError → Event
  refresh_response : String → UserDto → Event
  refresh_failure : String → Event
  set_active : Option String → Event
  clear_save_error : Event

-- Takes one outstanding refresh of the id off the list.
unfoldable pub settle : String → List String → List String
settle k [] = []
settle k (x ∷ xs) = if x == k then xs else x ∷ settle k xs

unfoldable pub start : Mutation → Session → Session
unfolding calls_of
start c m =
    let s = Store.save_begin m.state in
    elim (calls_of c) [
      | [] ↦ record m {
        state = Store.save_done s;
        pending = set_pending (method_of c) none m.pending;
      }
      | call ∷ more ↦ record m {
        state = s;
        pending = set_pending (method_of c) (some (target_of c)) m.pending;
        sent = m.sent ++ call ∷ more;
      }
    ]

unfoldable pub step : Event → Session → Session
unfolding settle start
step (load_list o) m =
    let s = Store.load_list_begin m.state in
    record m { state = s; list_request = some (next_params o s.list_params) }
step (list_response resp) m = elim m.list_request [
  | none ↦ m
  | some next ↦ record m { state = Store.list_loaded next resp m.state; list_request = none }
]
step (list_failure e) m = elim m.list_request [
  | none ↦ m
  | some _ ↦ record m { state = Store.list_failed e m.state; list_request = none }
]
step (load_by_id k) m = record m { state = Store.load_by_id_begin m.state; detail_request = some k }
step (detail_response u) m = elim m.detail_request [
  | none ↦ m
  | some _ ↦ record m { state = Store.detail_loaded u m.state; detail_request = none }
]
step (detail_failure e) m = elim m.detail_request [
  | none ↦ m
  | some _ ↦ record m { state = Store.detail_failed e m.state; detail_request = none }
]
step (create_user r) m = record m { state = Store.save_begin m.state; create_request = some r }
step (create_response u) m = elim m.create_request [
  | none ↦ m
  | some _ ↦ record m {
    state = Store.user_created u m.state;
    create_request = none;
    toasts =
        m.toasts
        ++ (
          "User created",
          String.◌++◌ u.first_name (String.◌++◌ " " (String.◌++◌ u.last_name " was added.")),
        )
          ∷ [];
  }
]
step (create_failure e) m = elim m.create_request [
  | none ↦ m
  | some _ ↦ record m { state = Store.save_failed e m.state; create_request = none }
]
step (mutate c) m = start c m
step (mutation_response method) m = elim (pending_of method m.pending) [
  | none ↦ m
  | some k ↦ record m {
    state = Store.save_done m.state;
    pending = set_pending method none m.pending;
    refreshes = m.refreshes ++ k ∷ [];
    toasts = m.toasts ++ toast_of method ∷ [];
  }
]
step (mutation_failure method e) m = elim (pending_of method m.pending) [
  | none ↦ m
  | some _ ↦ record m {
    state = Store.save_failed e m.state;
    pending = set_pending method none m.pending;
  }
]
step (refresh_response k u) m =
    if includes k m.refreshes
    then record m { state = Store.upsert u m.state; refreshes = settle k m.refreshes }
    else m
step (refresh_failure k) m = record m { refreshes = settle k m.refreshes }
step (set_active k) m = record m { state = Store.set_active k m.state }
step clear_save_error m = record m { state = Store.clear_save_error m.state }

unfoldable pub run : List Event → Session → Session
run [] m = m
run (e ∷ es) m = run es (step e m)
