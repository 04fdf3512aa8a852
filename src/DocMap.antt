-- ===== src/DocMap.antt =====
-- src/pretrain/data/doc_map.py: the table of the document fragments of each step, and the comparison of
-- the walk's end with a checkpoint.
pub mod Rows
pub mod Chunks
pub mod Joined
pub mod Position
pub mod Agree
mod Tests
