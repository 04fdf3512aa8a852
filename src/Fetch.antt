-- ===== src/Fetch.antt =====
-- src/pretrain/data/fetch_interval.py: the download of the shards that an audited interval reads.
pub mod Shards
pub mod Payloads
pub mod Touched
pub mod Stubs
pub mod Honest
mod Tests
