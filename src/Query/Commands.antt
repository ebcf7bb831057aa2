-- ===== src/Query/Commands.antt =====
-- The commands of internal/query/parser.go: one round of each loop, the loops, and that they end.
pub mod Text
pub mod Clauses
pub mod Steps
pub mod Loop
pub mod Ends
