-- ===== src/Replay.antt =====
-- The replay of a step on one device, src/pretrain/cli/audit_replay.py.
pub mod Carry
pub mod Order
pub mod Paths
pub mod Spill
pub mod Verified
pub mod Tampered
pub mod Fold
pub mod Files
pub mod InRam
pub mod Removed
pub mod Simulation
pub mod Pushes
pub mod Total
pub mod Audit
pub mod ExpectHash
pub mod Ranks
pub mod Sums
pub mod Replicates
pub mod Cluster
mod Sample
mod Tests
