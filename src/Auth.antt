-- ===== src/Auth.antt =====
-- core/auth and core/guards: the permission store, the route guards, the session monitor, the
-- authentication service and its URLs.
pub mod Permissions
pub mod Guards
pub mod Monitor
pub mod ReturnUrl
pub mod Service
