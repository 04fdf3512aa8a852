-- ===== src/StateHash.antt =====
-- src/pretrain/train/state_hash.py: the hash of a training state, computed on the shards of a cluster
-- and on one device, and the running hash of the batches.
pub mod Tags
pub mod Feed
pub mod Sorted
pub mod Hex
pub mod Batches
pub mod Shards
pub mod Whole
pub mod Audit
mod Tests
