-- ===== src/Replay/Tests.antt =====
-- The theorems on src/pretrain/cli/audit_replay.py at small gradients.
use open_transformers.Prelude.{
  false, ℕ, suc, ◌+◌, ◌*◌, ◌/◌, ◌++◌, ◌≢◌, ◌%◌, ◌≤◌, ◌≡◌, ◌<◌, All, zero, if◌then◌else◌, refl, ap,
  true, List, [], ◌∷◌, map, range, replicate, none, some, length, length-replicate, ok, raise,
  spill_corruption, arith,
}
use open_transformers.StateHash.Tags.{Bytes}
use open_transformers.StateHash.Feed.{Hashing, Tensor, tensor_bytes, feed_tensor}
use open_transformers.StateHash.Hex.{hex}
use open_transformers.StateHash.Sorted.{sorted, insert}
use open_transformers.Reduce.Blocks.{bit_length}
use open_transformers.Reduce.Tree.{gathered, tree_reduce_sum}
use open_transformers.Prelude.Disk.{Disk, text_eq}
use open_transformers.Replay.Spill.{
  strip, lstrip, rstrip, Payload, tensor, mapping, spill_verify_enabled, digest_payload,
  feed_payload, feed_entries, feed_entry, save_verified, load_verified,
}
use open_transformers.Replay.Verified.{damaged, load_verified-save_verified, load_verified-refuses}
use open_transformers.Replay.Fold.{Gradient, DiskTreeFold, new_fold, push_all, get_item, fold_parts}
use open_transformers.Replay.Files.{Values, dict}
use open_transformers.Replay.Audit.{fold_parts-tree_reduce_sum, length-push_all}
use open_transformers.Reduce.Norm.{ascending_sum}
use open_transformers.Reduce.AllReduce.{all_reduce_avg}
use open_transformers.Replay.Ranks.{replay_gradient}
use open_transformers.Replay.Cluster.{replay_gradient-all_reduce_avg}
use open_transformers.Replay.ExpectHash.{
  resolve_expect_hash, looks_like_digest, Canonical, resolve_expect_hash-hex,
  resolve_expect_hash-Canonical,
}
use open_transformers.Replay.Sample.{numbers_storage}

abbrev counting : Hashing
counting = record {
  blake2b = λ bytes. replicate 32 (length bytes % 256);
  length-blake2b = λ bytes. length-replicate 32 (length bytes % 256);
  str_shape = λ shape. map (λ (size : ℕ). suc size) shape;
}

abbrev row : ℕ → Tensor
row value = record { dtype = 102 ∷ []; tail = 1 ∷ []; rows = (value ∷ []) ∷ [] }

-- An addition that is not associative: the rows side by side.
abbrev beside : Tensor → Tensor → Tensor
beside a b = record { dtype = a.dtype; tail = 2 ∷ []; rows = a.rows ++ b.rows }

abbrev weight : Bytes
weight = 119 ∷ []

abbrev parts : ℕ → Values
parts i name = row i

abbrev no_files : Disk
no_files path = none

fold_parts-tree_reduce_sum_example :
    (sum : Gradient) × (value : Tensor) × (fold_parts counting numbers_storage none beside true
        (map (λ i. dict (weight ∷ []) (parts i)) (range 0 6))
        no_files
      ≡ ok (sum, no_files))
    × (get_item sum weight ≡ ok value)
    × (tree_reduce_sum beside (gathered 6 (λ i. parts i weight)) ≡ ok (some value))
fold_parts-tree_reduce_sum_example =
    fold_parts-tree_reduce_sum counting numbers_storage none (weight ∷ []) beside true parts 6
      no_files weight (omega arith) (λ j le. (refl, refl)) refl

length-push_all_example :
    (next : DiskTreeFold) × (after : Disk) × (push_all counting numbers_storage none beside
        (map (λ i. dict (weight ∷ []) (parts i)) (range 0 6))
        (new_fold true)
        no_files
      ≡ ok (next, after))
    × (length next.stack ≤ bit_length 6)
length-push_all_example =
    length-push_all counting numbers_storage none (weight ∷ []) beside true parts 6 no_files
      (λ j le. (refl, refl))

load_verified-save_verified_example :
    load_verified counting numbers_storage none weight
      (save_verified counting numbers_storage none (tensor (row 7)) weight no_files)
    ≡ ok (tensor (row 7))
load_verified-save_verified_example =
    load_verified-save_verified counting numbers_storage none (tensor (row 7)) weight no_files

abbrev longer : Payload
longer = mapping ((weight, some (row 7)) ∷ (98 ∷ [], none) ∷ [])

abbrev second_digit : Bytes → ℕ
second_digit (a ∷ b ∷ text) = b
second_digit text = 0

differ : digest_payload counting longer ≢ digest_payload counting (tensor (row 7))
unfolding digest_payload feed_payload feed_entries feed_entry feed_tensor sorted insert hex
differ e =
    let digits : second_digit (digest_payload counting longer)
        ≡ second_digit (digest_payload counting (tensor (row 7))) =
      ap second_digit e in
    absurd (omega arith)

on : spill_verify_enabled none ≡ true
unfolding spill_verify_enabled
on = refl

load_verified-refuses_example :
    load_verified counting numbers_storage none weight (
      damaged counting numbers_storage none
        (tensor (row 7))
        weight
        (numbers_storage.save longer)
        no_files)
    ≡ raise spill_corruption
load_verified-refuses_example =
    load_verified-refuses counting numbers_storage none (tensor (row 7)) longer weight
      (numbers_storage.save longer) no_files on (numbers_storage.load-save longer) differ

abbrev total_of : Bytes → ℕ
total_of [] = 0
total_of (byte ∷ bytes) = byte + total_of bytes

-- An addition that commutes and is not associative.
abbrev value_of : Tensor → ℕ
value_of t = total_of (tensor_bytes t)

abbrev doubled : Tensor → Tensor → Tensor
doubled a b = row (2 * (value_of a + value_of b))

doubled_comm : (a b : Tensor) → doubled a b ≡ doubled b a
doubled_comm a b =
    let same : 2 * (value_of a + value_of b) ≡ 2 * (value_of b + value_of a) = omega arith in
    ap row same

abbrev divided : ℕ → Tensor → Tensor
divided n t = row (value_of t / n)

abbrev two_names : List Bytes
two_names = weight ∷ (98 ∷ []) ∷ []

abbrev rank_gradients : ℕ → Values
rank_gradients i name = row (i + length name)

replay_gradient-all_reduce_avg_example :
    (outer : Gradient) × (value : Tensor) × (sums : ℕ → Tensor) × (replay_gradient counting
        numbers_storage none doubled divided 2 true 3
        (map (λ i. dict two_names (rank_gradients i)) (range 0 (3 * 2)))
        no_files
      ≡ ok (outer, no_files))
    × (get_item outer weight ≡ ok value)
    × ((rep : ℕ)
        → ascending_sum doubled (map (λ i. rank_gradients i weight) (range (rep * 2) 2))
          ≡ ok (sums rep))
    × (all_reduce_avg doubled divided 3 (λ rep. divided 2 (sums rep)) 1 ≡ ok value)
replay_gradient-all_reduce_avg_example =
    replay_gradient-all_reduce_avg counting numbers_storage none two_names doubled doubled_comm
      divided true 2 3 rank_gradients no_files weight 1 (omega arith) (omega arith)
      (λ j le. (refl, refl)) refl refl (omega arith)

abbrev zeros : Bytes
zeros = replicate 32 0

abbrev hash_disk : Disk
hash_disk path = if text_eq path weight then some (hex zeros ++ 10 ∷ []) else none

replicate-All : (n : ℕ) → All (λ b. b < 256) (replicate n 0)
replicate-All zero = tt
replicate-All (suc n) = (omega arith, replicate-All n)

short : looks_like_digest (strip weight) ≡ false
unfolding looks_like_digest strip rstrip lstrip
short = refl

resolve_expect_hash-hex_example :
    (resolve_expect_hash (hex zeros) hash_disk ≡ ok (hex zeros))
    × (resolve_expect_hash weight hash_disk ≡ ok (hex zeros))
resolve_expect_hash-hex_example =
    resolve_expect_hash-hex zeros weight hash_disk refl (replicate-All 32) short refl

by_file : resolve_expect_hash weight hash_disk ≡ ok (hex zeros)
by_file = (resolve_expect_hash-hex zeros weight hash_disk refl (replicate-All 32) short refl).1

resolve_expect_hash-Canonical_example : Canonical (hex zeros)
resolve_expect_hash-Canonical_example =
    resolve_expect_hash-Canonical weight hash_disk (hex zeros) by_file
