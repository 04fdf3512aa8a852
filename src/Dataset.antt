-- ===== src/Dataset.antt =====
-- src/pretrain/data/indexed_dataset.py: the file format of a shard of tokenised documents, its writer
-- and its reader.
pub mod Format
pub mod Writer
pub mod Reader
pub mod Header
pub mod Offsets
pub mod RoundTrip
pub mod Lookup
mod Tests
