-- ===== src/Users.antt =====
-- features/users: the store of the users list and its detail view.
pub mod Types
pub mod Store
pub mod Session
pub mod FieldErrors
