-- ===== src/Raft.antt =====
-- raft/: the consensus module that replicates the registration log.
pub mod Config
pub mod Outcome
pub mod Logger
pub mod Node
pub mod Leader
pub mod Quorum
pub mod Win
pub mod Sections
pub mod Kept
pub mod Quiet
pub mod Votes
pub mod Service
pub mod Steps
pub mod Cluster
mod Examples
mod LogExamples
