-- ===== src/Storage.antt =====
-- internal/storage: events, their keys and their binary form.
pub mod Event
pub mod Codec
pub mod Keys
pub mod CardCache
pub mod LeaderboardCache
pub mod Cardinality
pub mod Events
pub mod Reads
pub mod Transfer
pub mod Windowed
