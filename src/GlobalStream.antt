-- ===== src/GlobalStream.antt =====
-- src/pretrain/data/global_stream.py: the canonical stream of packed windows, and one rank's view
-- of it, which walks document lengths and reads only the payloads that it owns.
pub mod Corpus
pub mod Windows
pub mod View
pub mod Taking
pub mod Simulation
pub mod Sharding
pub mod State
pub mod Resume
pub mod Schedule
mod Tests
