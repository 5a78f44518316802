-- ===== src/Raft.antt =====
-- internal/raft: the replicated log.
pub mod Types
pub mod Store
pub mod Node
pub mod Replication
pub mod Commit
pub mod Election
pub mod Rpc
pub mod Client
pub mod Steps
pub mod Samples
mod Tests
pub mod Open
pub mod Proposing
pub mod Inspect
pub mod Cluster
