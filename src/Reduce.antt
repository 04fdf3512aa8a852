-- ===== src/Reduce.antt =====
-- src/pretrain/parallel/deterministic_reduce.py: gradient reductions whose order of additions does
-- not depend on the topology, so that one device can replay them.
-- A float is an element of a type with an addition of which only `a + b = b + a` is ever assumed, and
-- that in the theorem that names it: it is not associative.
pub mod Blocks
pub mod Tree
pub mod Doubling
pub mod AllReduce
pub mod Norm
pub mod Shards
pub mod PerTensor
pub mod Scatter
pub mod Images
pub mod Bucket
mod Tests
