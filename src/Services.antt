-- ===== src/Services.antt =====
-- core/services: the registry of status banners.
pub mod StatusBanner
