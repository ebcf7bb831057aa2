-- ===== src/Cluster.antt =====
-- internal/cluster: the placement of metrics on nodes.
pub mod Ring
pub mod Route
pub mod Heartbeat
pub mod Replication
