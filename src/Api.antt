-- ===== src/Api.antt =====
-- The services that send requests: app/core/http/base-api.service.ts and
-- app/features/users/data/users-api.service.ts.
pub mod Params
pub mod BaseApi
pub mod UsersApi
