-- ===== src/Users/Store.antt =====
-- features/users/state/users.store.ts: the state, its derived values, and the state changes of the
-- methods at the call, at the response and at the failure.
use enterprise_platform.Common.{
  ℕ, String, Bool, true, false, not, ◌&&◌, ◌||◌, Option, none, some, List, [], ◌∷◌, Dict, insert,
  if◌then◌else◌, includes, length, nat_eq, get_or, is_some,
}
use enterprise_platform.Models.{ApiError}
use enterprise_platform.Store.EntityState.{in_order, entity_at}
use enterprise_platform.Users.Types.{
  UserDto, ListUsersResponse, ListUsersParams, ListUsersOverride, default_list_params,
}

pub record UsersState : Type 0 where
  pub ids : List String
  pub entities : Dict UserDto
  pub active_id : Option String
  pub list_params : ListUsersParams
  pub total : ℕ
  pub loading : Bool
  pub loading_detail : Bool
  pub saving : Bool
  pub list_error : Option ApiError
  pub detail_error : Option ApiError
  pub not_found : Bool
  pub save_error : Option ApiError

abbrev pub initial_state : UsersState
initial_state = record {
  ids = [];
  entities = [];
  active_id = none;
  list_params = default_list_params;
  total = 0;
  loading = false;
  loading_detail = false;
  saving = false;
  list_error = none;
  detail_error = none;
  not_found = false;
  save_error = none;
}

-- `!!error && error.statusCode === status`
unfoldable pub is_status : Option ApiError → ℕ → Bool
is_status none status = false
is_status (some e) status = nat_eq e.status_code status

unfoldable pub items : UsersState → List UserDto
items s = in_order s.entities s.ids

unfoldable pub active : UsersState → Option UserDto
active s = entity_at s.entities s.active_id

unfoldable pub is_empty : UsersState → Bool
is_empty s = nat_eq (length s.ids) 0 && (not s.loading && not (is_some s.list_error))

unfoldable pub has_no_matches : UsersState → Bool
has_no_matches s =
    (is_some s.list_params.search || is_some s.list_params.active_only)
    && (nat_eq (length s.ids) 0 && not s.loading)

unfoldable pub save_conflict : UsersState → Bool
unfolding is_status
save_conflict s = is_status s.save_error 409

unfoldable pub upsert : UserDto → UsersState → UsersState
upsert user s = record s {
  entities = insert user.id user s.entities;
  ids = if includes user.id s.ids then s.ids else user.id ∷ s.ids;
}

-- `{ ...listParams, ...override }`
unfoldable pub next_params : Option ListUsersOverride → ListUsersParams → ListUsersParams
next_params none p = p
next_params (some o) p = record {
  page = get_or o.page p.page;
  page_size = get_or o.page_size p.page_size;
  search = get_or o.search p.search;
  active_only = get_or o.active_only p.active_only;
}

unfoldable pub load_list_begin : UsersState → UsersState
load_list_begin s = record s { loading = true; list_error = none }

-- `resp.items.map((u) => { dict[u.id] = u; return u.id; })`: the dictionary, and the ids.
unfoldable pub collect : Dict UserDto → List UserDto → Dict UserDto × List String
collect dict [] = (dict, [])
collect dict (u ∷ us) = let (d, ids) = collect (insert u.id u dict) us in (d, u.id ∷ ids)

unfoldable pub list_loaded : ListUsersParams → ListUsersResponse → UsersState → UsersState
unfolding collect
list_loaded next resp s =
    let (dict, ids) = collect s.entities resp.items in
    record s {
      ids = ids;
      entities = dict;
      list_params = next;
      total = get_or resp.total_count (length resp.items);
      loading = false;
    }

unfoldable pub list_failed : ApiError → UsersState → UsersState
list_failed e s = record s { loading = false; list_error = some e }

unfoldable pub load_by_id_begin : UsersState → UsersState
load_by_id_begin s = record s { loading_detail = true; detail_error = none; not_found = false }

unfoldable pub detail_loaded : UserDto → UsersState → UsersState
unfolding upsert
detail_loaded user s = record (upsert user s) {
  active_id = some user.id;
  loading_detail = false;
  not_found = false;
}

unfoldable pub detail_failed : ApiError → UsersState → UsersState
detail_failed e s =
    if nat_eq e.status_code 404
    then record s { loading_detail = false; not_found = true }
    else record s { loading_detail = false; detail_error = some e }

unfoldable pub set_active : Option String → UsersState → UsersState
set_active k s = record s { active_id = k }

unfoldable pub clear_save_error : UsersState → UsersState
clear_save_error s = record s { save_error = none }

-- The first step of `createUser`, `updateUser` and the single mutations.
unfoldable pub save_begin : UsersState → UsersState
save_begin s = record s { saving = true; save_error = none }

unfoldable pub user_created : UserDto → UsersState → UsersState
unfolding upsert
user_created u s = record (upsert u s) { saving = false; active_id = some u.id }

unfoldable pub save_done : UsersState → UsersState
save_done s = record s { saving = false }

unfoldable pub save_failed : ApiError → UsersState → UsersState
save_failed e s = record s { saving = false; save_error = some e }
