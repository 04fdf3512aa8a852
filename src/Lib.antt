-- ===== src/Lib.antt =====
-- A model of the deterministic core of open-transformers: what makes a training run on many ranks
-- and its replay on one device walk the same data and form the same sums.
--
-- Parts, and the files that model them (paths from the repository's root):
-- * src/pretrain/train/batch_schedule.py is BatchSchedule. It turns the tokens consumed so far into
--   the step's micro-batches and windows (`current_global_batch_tokens`, `microbatches_per_step`,
--   `windows_per_step`, `canonical_tokens_per_step`, and the legacy `grad_accum_steps` and
--   `tokens_per_optimizer_step`), shares the micro-batches out to ranks (`owner_rank`,
--   `accum_for_rank`, `microbatch_indices_for_rank`), and lays out the steps (`iter_step_plans`,
--   `window_position`). BatchSchedule/Rounding, Ownership, Plans and Tiling prove its properties.
-- * src/pretrain/data/global_stream.py is GlobalStream: GlobalStream/Windows is the class
--   `GlobalStream`, GlobalStream/View the class `ShardedWindowView`, which walks document lengths and
--   reads the payloads that one rank owns, GlobalStream/State the saved state and the constructors'
--   use of it. Taking, Simulation, Sharding, Schedule and Resume prove that the view follows the
--   stream. The view uses `owner_rank` and `iter_step_plans` of BatchSchedule.
-- * src/pretrain/data/mix_sampler.py is Walker, the class `_SourceWalker`: the walk over the epochs'
--   permutations with the stride of the ranks (Walker/Stride) and its counters (Walker/Resume).
--   Walker/Shuffle is `_build_global_perm` and the resolution of a document to its shard, with the
--   numbering of the documents in Walker/Numbering and Walker/Documents.
-- * src/pretrain/data/indexed_dataset.py is Dataset: Dataset/Format the codes and words of the files,
--   Dataset/Writer `IndexedDatasetWriter`, Dataset/Reader `_read_header` and `IndexedDatasetReader`.
--   Header, Offsets and RoundTrip prove that what was written is read, Lookup is about the lookups
--   that fail.
-- * src/pretrain/parallel/deterministic_reduce.py is Reduce: Reduce/Blocks is `_binary_blocks`,
--   Reduce/Tree `tree_reduce_sum`, Reduce/Doubling the butterfly of
--   `_recursive_doubling_allreduce_avg`, Reduce/AllReduce its combination on rank 0,
--   `_binomial_broadcast` and the average. Reduce/Norm is the cutting of a tensor into shards and the
--   gradient norm, on the cluster and in the audit; Reduce/PerTensor the norms per tensor;
--   Reduce/Scatter `DeterministicReduceScatter`; Reduce/Bucket the joined buffers of
--   `DeterministicReplicateAllReduce`, with Reduce/Images; and Reduce/Shards is about the shards.
-- * src/pretrain/train/state_hash.py is StateHash: StateHash/Feed what the hash is fed, Batches
--   `RunningBatchHasher`, Shards the hash of the sharded state and its reconstruction by the audit,
--   Whole `compute_state_hash`, Hex `_coerce_prev`, Tags the constants, Sorted the order of the names.
--   StateHash/Audit proves that the hash does not depend on how tensors are held. It uses the shards
--   of Reduce/Norm.
-- * src/pretrain/train/checkpoint.py is Checkpoint: Checkpoint/Names and Files are the names and the
--   contents, Save the writes of `save` in their order, Load what a rank reads back, Select `latest` and
--   `garbage_collect`. NameOrder and Newest are about the choice, Absent, Writes and Crash about a save
--   that stops, Contents, RankFiles and RoundTrip about loading what was saved, Retention about the
--   removal.
-- * src/pretrain/cli/audit_replay.py is Replay, as far as it saves, folds and checks: Replay/Spill
--   is `_save_verified`, `_load_verified` and `_unlink_verified` with the digest, over the names
--   of Paths; Replay/Fold is `_tree_push` and `_DiskTreeFold`, Replay/Ranks the part
--   of the replay loop that folds the ranks' gradients, Replay/ExpectHash `_resolve_expect_hash`.
--   Carry and Order are about the binary-carry fold on values, Files, Removed, Simulation, Pushes,
--   Total and Audit about the fold over the disk, InRam about the fold in memory, Verified and
--   Tampered about the spill files, Sums, Replicates and Cluster about the loop. The sums of the
--   cluster are those of Reduce. Sample is a storage for the tests.
-- * src/pretrain/data/fetch_interval.py is Fetch, for one source: Fetch/Shards is
--   `_fetch_manifest_and_indices`, `_fetch_bins` and `_stub_untouched_bins`. Payloads, Touched, Stubs and
--   Honest are about the payloads that they leave.
-- * src/pretrain/data/doc_map.py is DocMap: DocMap/Rows is `step_rows`, with the positions and owners of
--   BatchSchedule, Chunks is `write_doc_map`, Position `compare_position`. Joined and Agree prove their
--   properties.
-- * src/pretrain/train/spike_protocol.py is SpikeProtocol, with the gate of the training loop
--   (src/pretrain/train/loop.py). SpikeProtocol/Deque, Window, Cooldown and Resume prove its
--   properties.
-- * Prelude holds the shared names: tests, lists, errors, slices, bits, words, integers, Booleans and a
--   disk of named files.
-- The Tests module of each part runs the definitions and applies the theorems at concrete inputs.
--
-- How the code is modelled. Python's exceptions are the errors of a `Result`. A method takes the
-- object and returns the new one. A generator is a function of the number of values drawn. Sizes,
-- ranks, steps and tokens are natural numbers; Python's integers do not overflow. Floats and tensors
-- are an abstract type with the operations that the code applies, addition being commutative where a
-- theorem says so and never associative. All ranks of a collective run at once: a buffer is a
-- function of the rank, each exchange reads the buffers as they stood before it, and a receive gets
-- what its sender holds then. In the broadcast a rank's buffer is followed back through its
-- receives. The order of the ranks in a group stands for their global numbers.
--
-- Fuel. `bit_length` halves, so the number is fuel enough. `reduce_level` halves a level, so its
-- length is. The broadcast goes to lower ranks, so the rank is. `take_loop` pops a segment in every
-- turn but the last, so one more than the segments is. `fill` gains at least the separator in every
-- refill, so the window's length is. The theorems show that the results are reached.
--
-- Parameters. The interface `Corpus` stands for what is called of numpy's generator
-- (`Generator.choice`, an index below the number of sources), of the walkers in
-- src/pretrain/data/mix_sampler.py (the next document from a walker's counters) and of the readers in
-- src/pretrain/data/indexed_dataset.py (a document's tokens and its length, which agree). The walker
-- takes `_build_global_perm` as a function of the epoch.
-- `Hashing` is blake2b and the text of a shape; `Numpy` is how arrays become bytes and bytes arrays;
-- `Shuffling` is numpy's permutations and its search in a sorted array, and SHA-256. The text of the
-- parameter groups is a parameter too. What `torch.save`, `dcp.save` and `json.dumps` write is the
-- value that they were given. `Storage` is `torch.save` and `torch.load` of a spilled payload: what was
-- saved is loaded. In the replay the ranks' gradients, the addition of two tensors and the scaling by
-- a reciprocal are parameters, in the fetch the mirror, the digest of a file, the reading of a manifest
-- and the size that an index gives its payload; `env` is the environment variable of the verification.
--
-- Not modelled: tensors' contents, devices, timing and logging; the checks of constructor arguments
-- of the stream; the caches of permutations and readers; the checkpoint's meta data and the tensors that
-- torch saves and loads; of the audit the loading of models, the passes over batches, the moving of
-- moments and weights between devices and disk, and its options; the other command-line tools, the
-- model and the optimizers.
pub mod Prelude
pub mod BatchSchedule
pub mod SpikeProtocol
pub mod Reduce
pub mod GlobalStream
pub mod Walker
pub mod StateHash
pub mod Dataset
pub mod Checkpoint
pub mod Replay
pub mod Fetch
pub mod DocMap
