-- ===== src/Analytics.antt =====
-- internal/analytics: how strings are stored in the database.
pub mod Encoding
pub mod Member
