-- ===== src/Checkpoint.antt =====
-- src/pretrain/train/checkpoint.py: the files of a checkpoint, the order in which they are written, and
-- which checkpoint is picked and which are removed.
pub mod Names
pub mod NameOrder
pub mod Files
pub mod Save
pub mod Load
pub mod Select
pub mod Newest
pub mod Absent
pub mod Writes
pub mod Crash
pub mod Retention
pub mod Contents
pub mod RankFiles
pub mod RoundTrip
mod Tests
