-- ===== src/Query.antt =====
-- internal/query: the query language of the TCP protocol.
pub mod Types
pub mod Tokenize
pub mod Duration
pub mod Validate
pub mod Commands
pub mod Parse
pub mod Batch
pub mod Clock
