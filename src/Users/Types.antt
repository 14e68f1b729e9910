-- ===== src/Users/Types.antt =====
-- features/users/data/user.types.ts
use enterprise_platform.Common.{ℕ, String, Bool, Option, none, List}

pub record UserDto : Type 0 where
  pub id : String
  pub email : String
  pub first_name : String
  pub last_name : String
  pub external_identity_id : Option String
  pub is_active : Bool
  pub last_login_at : Option String
  pub is_deleted : Bool
  pub deleted_at : Option String
  pub deleted_by : Option String
  pub created_at : String
  pub created_by : String
  pub modified_at : Option String
  pub modified_by : Option String

pub record ListUsersResponse : Type 0 where
  pub items : List UserDto
  pub page_number : ℕ
  pub page_size : ℕ
  pub total_count : Option ℕ

pub record ListUsersParams : Type 0 where
  pub page : ℕ
  pub page_size : ℕ
  pub search : Option String
  pub active_only : Option Bool

abbrev pub default_list_params : ListUsersParams
default_list_params = record { page = 1; page_size = 25; search = none; active_only = none }

-- `Partial<ListUsersParams>`: an absent key is `none`, and a key given as `null` is `some none`.
pub record ListUsersOverride : Type 0 where
  pub page : Option ℕ
  pub page_size : Option ℕ
  pub search : Option (Option String)
  pub active_only : Option (Option Bool)

pub record CreateUserRequest : Type 0 where
  pub email : String
  pub first_name : String
  pub last_name : String
  pub external_identity_id : Option String

pub record RenameUserRequest : Type 0 where
  pub first_name : String
  pub last_name : String

pub record ChangeUserEmailRequest : Type 0 where
  pub email : String

pub record DeactivateUserRequest : Type 0 where
  pub reason : String
