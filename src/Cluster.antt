-- ===== src/Cluster.antt =====
-- internal/cluster: who is in the cluster, and who owns a key.
pub mod Ring
pub mod Coordinator
pub mod Consistency
pub mod Rendezvous
mod Tests
