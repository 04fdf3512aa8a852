-- ===== src/StateHash/Tests.antt =====
-- The theorems on src/pretrain/train/state_hash.py at a hash that is the number of the bytes.
use open_transformers.Prelude.{
  ℕ, ◌≡◌, refl, true, List, [], ◌∷◌, map, replicate, none, some, length, length-replicate, ◌%◌, ok,
  arith,
}
use open_transformers.Reduce.Norm.{shard0_full_chunk_size}
use open_transformers.StateHash.Tags.{Bytes}
use open_transformers.StateHash.Feed.{Hashing, Tensor, Param}
use open_transformers.StateHash.Batches.{RunningBatchHasher, start_hasher}
use open_transformers.StateHash.Shards.{
  Held, plain, shard_view, local_logical, local_shard_state_digest, combine_shard_state,
  audit_shard_state_digest,
}
use open_transformers.StateHash.Audit.{
  held_param, shard_held, audit_shard_state_digest-combine_shard_state,
}

abbrev counting : Hashing
counting = record {
  blake2b = λ bytes. replicate 32 (length bytes % 256);
  length-blake2b = λ bytes. length-replicate 32 (length bytes % 256);
  str_shape = λ shape. shape;
}

abbrev matrix : Tensor
matrix = record { dtype = 102 ∷ []; tail = 1 ∷ []; rows = (7 ∷ []) ∷ (8 ∷ []) ∷ (9 ∷ []) ∷ [] }

abbrev model : List (Param Tensor)
model =
    record {
      name = 119 ∷ [];
      weight = matrix;
      grad = some matrix;
      state = some (record {
        step = some 3;
        exp_avg = some matrix;
        exp_avg_sq = none;
        max_exp_avg_sq = none;
      });
    }
    ∷ []

-- Every rank has a row of zeros behind its shard.
abbrev pads : ℕ → Bytes → ℕ → List Bytes
pads r name slot = (0 ∷ []) ∷ []

abbrev digest : Bytes
digest = replicate 32 171

abbrev batch : List (Bytes × Tensor)
batch = (105 ∷ [], matrix) ∷ []

abbrev hashers : ℕ → RunningBatchHasher
hashers i = record { chain = replicate 32 i }

local_logical_test :
    local_logical (shard_view matrix 5 2 1) ≡ record matrix { rows = (7 ∷ []) ∷ (8 ∷ []) ∷ [] }
unfolding local_logical shard0_full_chunk_size
local_logical_test = refl

made : start_hasher none ≡ ok (hashers 0)
unfolding start_hasher
made = refl

audit_shard_state_digest-combine_shard_state_example :
    audit_shard_state_digest counting true true 2 4 model
    ≡ ok (
        combine_shard_state counting
          (some 4)
          (λ i.
            local_shard_state_digest counting local_logical true true
              (map (held_param (shard_held (i % 2) 2 (pads i))) model))
          3)
audit_shard_state_digest-combine_shard_state_example =
    audit_shard_state_digest-combine_shard_state counting true true 2 4 pads model 3 (omega arith)
      (omega arith)

-- Tensors that are held whole.
abbrev hold_tensor : Bytes → ℕ → Tensor → Held
hold_tensor name slot t = plain t
