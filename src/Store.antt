-- ===== src/Store.antt =====
-- core/store: the generic entity store, its features, and the bus between stores.
pub mod EntityState
pub mod Adapter
pub mod Features
pub mod Persistence
pub mod Bus
pub mod Config
pub mod Entity
pub mod Machine
