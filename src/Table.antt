-- ===== src/Table.antt =====
-- The data table of app/shared/components/dph.
pub mod Values
pub mod Types
pub mod Source
pub mod Csv
pub mod View
pub mod Handlers
pub mod Events
pub mod Pipeline
