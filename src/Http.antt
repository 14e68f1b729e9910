-- ===== src/Http.antt =====
-- core/interceptors: the functions that every HTTP request passes through.
pub mod Types
pub mod Numbers
pub mod Keys
pub mod Cache
pub mod Errors
pub mod Retry
pub mod Dedup
pub mod Loading
pub mod Correlation
