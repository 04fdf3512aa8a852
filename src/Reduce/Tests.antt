-- ===== src/Reduce/Tests.antt =====
-- The theorems on src/pretrain/parallel/deterministic_reduce.py at three and seven ranks.
use native.Mathlib.Nat.{add_comm}
use open_transformers.Prelude.{
  Option, ℕ, ◌+◌, ◌*◌, ◌/◌, ◌<◌, ◌≡◌, refl, List, [], ◌∷◌, none, some, ok, arith,
}
use open_transformers.Reduce.Blocks.{
  blocks_loop, bit_length, binary_blocks, Tiles, binary_blocks-Tiles,
}
use open_transformers.Reduce.Tree.{
  join, pair_up, reduce_level, block_sum, fold_blocks, tree_reduce_sum, gathered,
}
use open_transformers.Reduce.Doubling.{my_block, exchange, phase_a}
use open_transformers.Reduce.Norm.{
  audit_total_norm, deterministic_total_norm, shards, deterministic_total_norm-audit_total_norm,
}
use open_transformers.Reduce.PerTensor.{
  audit_per_tensor_and_global_norm, deterministic_per_tensor_and_global_norm, sharded,
  deterministic_per_tensor-audit_per_tensor,
}
use open_transformers.Reduce.Bucket.{reduce_buffers, reduce_each, reduce_buffers-reduce_each}
use open_transformers.Reduce.AllReduce.{
  receive_mask, broadcast, combine, phase_b, all_reduce_avg, all_reduce_avg-tree_reduce_sum,
}

abbrev add : ℕ → ℕ → ℕ
add a b = a + b

abbrev scale : ℕ → ℕ → ℕ
scale ws x = x / ws

abbrev buffers : ℕ → ℕ
buffers r = 10 * r + 2

blocks_test : binary_blocks 7 ≡ ok ((0, 4) ∷ (4, 2) ∷ (6, 1) ∷ [])
unfolding binary_blocks blocks_loop bit_length
blocks_test = refl

tree_test : tree_reduce_sum add (1 ∷ 2 ∷ 3 ∷ []) ≡ ok (some 6)
unfolding tree_reduce_sum binary_blocks fold_blocks blocks_loop bit_length block_sum reduce_level
    pair_up join
tree_test = refl

all_reduce_test : all_reduce_avg add scale 3 buffers 2 ≡ ok 12
unfolding all_reduce_avg binary_blocks phase_b blocks_loop bit_length broadcast receive_mask combine
    phase_a exchange my_block
all_reduce_test = refl

binary_blocks-Tiles_example :
    (blocks : List (ℕ × ℕ)) × (binary_blocks 7 ≡ ok blocks) × Tiles (bit_length 7) 0 blocks 7
binary_blocks-Tiles_example = binary_blocks-Tiles 7 (omega arith)

all_reduce_avg-tree_reduce_sum_example :
    (total : ℕ) × (tree_reduce_sum add (gathered 3 buffers) ≡ ok (some total))
    × ((r : ℕ) → r < 3 → all_reduce_avg add scale 3 buffers r ≡ ok (scale 3 total))
all_reduce_avg-tree_reduce_sum_example =
    all_reduce_avg-tree_reduce_sum add add_comm scale 3 buffers (omega arith)

-- Two gradients of three rows and one, cut for two ranks; a row is a number.
abbrev squares : List ℕ → ℕ
squares [] = 0
squares (x ∷ xs) = x * x + squares xs

abbrev whole : List (Option (List ℕ))
whole = some (1 ∷ 2 ∷ 3 ∷ []) ∷ none ∷ some (4 ∷ []) ∷ []

deterministic_total_norm-audit_total_norm_example :
    (norm : ℕ) × (audit_total_norm add 0 squares (λ x. x) 0 whole 2 ≡ ok norm)
    × ((r : ℕ)
        → r < 2
        → deterministic_total_norm add 0 squares
            (λ x. x)
            2
            (shards add 0 squares (λ x. x) 0 2 whole)
            r
          ≡ ok norm)
deterministic_total_norm-audit_total_norm_example =
    deterministic_total_norm-audit_total_norm add 0 squares (λ x. x) 0 2 whole (omega arith) tt

abbrev three : List ℕ
three = 1 ∷ 2 ∷ 3 ∷ []

abbrev named_whole : List (ℕ × Option (List ℕ))
named_whole = (10, some (1 ∷ 2 ∷ 3 ∷ [])) ∷ (11, none) ∷ (12, some (4 ∷ [])) ∷ []

deterministic_per_tensor-audit_per_tensor_example :
    (norms : List (ℕ × ℕ) × ℕ) × (audit_per_tensor_and_global_norm ℕ add 0 squares
        (λ x. x)
        0
        named_whole
        2
      ≡ ok norms)
    × (deterministic_per_tensor_and_global_norm ℕ add 0 squares
          (λ x. x)
          2
          (sharded ℕ add 0 squares (λ x. x) 0 2 named_whole)
          1
        ≡ ok norms)
deterministic_per_tensor-audit_per_tensor_example =
    deterministic_per_tensor-audit_per_tensor ℕ add 0 squares (λ x. x) 0 2 1 named_whole
      (omega arith)

-- Two ranks with buffers of two chunks of one number.
abbrev scattered : ℕ → List ℕ
scattered r = (10 * r + 2) ∷ (10 * r + 4) ∷ []

-- A module of one number beside one of two.
abbrev short_module : ℕ → List ℕ
short_module r = (7 * r) ∷ []

reduce_buffers-reduce_each_example :
    (outs : List (List ℕ)) × (reduce_buffers add scale 3 (λ r. scattered r ∷ short_module r ∷ []) 1
      ≡ ok outs)
    × (reduce_each add scale 3 (scattered ∷ short_module ∷ []) 1 ≡ ok outs)
reduce_buffers-reduce_each_example =
    reduce_buffers-reduce_each add scale add_comm 3 1 scattered (short_module ∷ []) (omega arith)
      (λ i. refl, (λ i. refl, tt))
