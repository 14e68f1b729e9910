-- ===== src/Utils.antt =====
-- app/shared/utils.
pub mod Texts
pub mod Numbers
