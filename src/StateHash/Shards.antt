-- ===== src/StateHash/Shards.antt =====
-- The sharded hash of src/pretrain/train/state_hash.py: a rank's digest of the shards it holds, the
-- combination of the ranks' digests, the audit's reconstruction of it from whole tensors, and the
-- final hash.
use open_transformers.Prelude.{
  ℕ, zero, suc, ◌+◌, ◌-◌, ◌*◌, ◌%◌, min, Bool, not, List, [], ◌∷◌, ◌++◌, map, range, Option, none,
  some, length, take, ◌==◌, if◌then◌else◌, item, Result, ok, raise, raise_if, value_error,
  zero_division_error, ◌>>=◌, ◌>>◌,
}
use open_transformers.Prelude.Words.{to_bytes}
use open_transformers.Reduce.Norm.{shard0_full_chunk_size, shard0_logical_chunk}
use open_transformers.StateHash.Tags.{
  Bytes, schema_v3, prev_tag, weight_tag, optim_step_tag, exp_avg_tag, exp_avg_sq_tag,
  max_exp_avg_sq_tag, grad_none_tag, grad_tag, param_groups_tag, batch_digest_tag, shard_state_tag,
}
use open_transformers.StateHash.Feed.{Hashing, Tensor, join_bytes, Moments, Param, feed_tensor}
use open_transformers.StateHash.Sorted.{sorted}
use open_transformers.StateHash.Hex.{hex, PrevHash, coerce_prev}
use open_transformers.StateHash.Batches.{all_gather_bytes}

-- What a rank holds of a tensor: a plain tensor, a `DTensor` that is not sharded in its first
-- dimension, or the local view of one that is, with the size of that dimension, and the size of the
-- mesh and the rank's place in it.
pub data Held : Type 0 where
  plain whole_view : Tensor → Held
  shard_view : (local : Tensor) (dim0 world coord : ℕ) → Held

unfoldable pub local_logical : Held → Tensor
local_logical (plain t) = t
local_logical (whole_view loc) = loc
local_logical (shard_view loc dim0 world coord) =
    let fcs = shard0_full_chunk_size dim0 world in
    let real = min fcs (dim0 - coord * fcs) in record loc { rows = take real loc.rows }

-- `shard0_logical_chunk(t, s, num_shards)`.
abbrev pub shard_of : ℕ → ℕ → Tensor → Tensor
shard_of s num_shards t = record t { rows = shard0_logical_chunk t.rows s num_shards }

-- `for r in range(num_ranks): combined.update(per_shard[r % num_shards])`.
unfoldable pub feed_ranks : List Bytes → ℕ → (count r : ℕ) → Bytes → Result Bytes
feed_ranks per_shard num_shards zero r h = ok h
feed_ranks per_shard num_shards (suc count) r h = do
  raise_if (num_shards == 0) zero_division_error
  d ← item per_shard (r % num_shards)
  feed_ranks per_shard num_shards count (r + 1) (h ++ d)

-- `groups` is the text that `json.dumps` makes of the parameter groups.
abbrev pub feed_groups : Bytes → Option Bytes → Bytes
feed_groups h none = h
feed_groups h (some groups) = h ++ param_groups_tag ++ groups

abbrev pub feed_batch_digest : Bytes → Option Bytes → Result Bytes
feed_batch_digest h none = ok h
feed_batch_digest h (some batch_digest) =
    if length batch_digest == 32
    then ok (h ++ batch_digest_tag ++ batch_digest)
    else raise value_error

module _ (hashing : Hashing) where
  module _ {T : Type 0} (extract : T → Tensor) where
    unfoldable pub feed_moment : Bytes → Bytes → Option T → Bytes
    feed_moment h tag none = h
    feed_moment h tag (some t) = feed_tensor hashing h tag (extract t)

    abbrev pub step_of : Option ℕ → ℕ
    step_of none = 0
    step_of (some step) = step

    -- The step count from 0 to 2 ^ 63 - 1: `int(step).to_bytes(8, "little", signed=True)`.
    unfoldable pub feed_state : Bytes → Option (Moments T) → Bytes
    feed_state h none = h
    feed_state h (some state) =
        let h1 = h ++ optim_step_tag ++ to_bytes 8 (step_of state.step) in
        let h2 = feed_moment h1 exp_avg_tag state.exp_avg in
        let h3 = feed_moment h2 exp_avg_sq_tag state.exp_avg_sq in
        feed_moment h3 max_exp_avg_sq_tag state.max_exp_avg_sq

    unfoldable pub feed_grad : Bytes → Option T → Bytes
    feed_grad h none = h ++ grad_none_tag
    feed_grad h (some grad) = feed_tensor hashing h grad_tag (extract grad)

    unfoldable pub feed_param : (with_optimizer include_grads : Bool) → Bytes → Param T → Bytes
    feed_param with_optimizer include_grads h p =
        let h1 = feed_tensor hashing (h ++ p.name ++ 0 ∷ []) weight_tag (extract p.weight) in
        let h2 = if with_optimizer then feed_state h1 p.state else h1 in
        if include_grads then feed_grad h2 p.grad else h2

    unfoldable pub feed_params :
        (with_optimizer include_grads : Bool) → Bytes → List (Param T) → Bytes
    feed_params with_optimizer include_grads h [] = h
    feed_params with_optimizer include_grads h (p ∷ params) =
        feed_params with_optimizer include_grads (feed_param with_optimizer include_grads h p)
          params

    unfoldable pub local_shard_state_digest :
        (with_optimizer include_grads : Bool) → List (Param T) → Bytes
    local_shard_state_digest with_optimizer include_grads model =
        hashing.blake2b
          (feed_params with_optimizer include_grads [] (sorted (λ (p : Param T). p.name) model))

  -- On rank `r`, where the ranks of the group hold `locals`.
  unfoldable pub combine_shard_state : Option ℕ → (ℕ → Bytes) → ℕ → Bytes
  combine_shard_state group locals r =
      hashing.blake2b (join_bytes (all_gather_bytes group locals r))

  unfoldable pub audit_shard_state_digest :
      (with_optimizer include_grads : Bool) (num_shards num_ranks : ℕ)
      → List (Param Tensor)
      → Result Bytes
  audit_shard_state_digest with_optimizer include_grads num_shards num_ranks model = do
    let per_shard =
        map
          (λ s. local_shard_state_digest (shard_of s num_shards) with_optimizer include_grads model)
          (range 0 num_shards)
    combined ← feed_ranks per_shard num_shards num_ranks 0 []
    ok (hashing.blake2b combined)

  unfoldable pub finalize_state_hash : PrevHash → Bytes → Option Bytes → Option Bytes → Result Bytes
  finalize_state_hash prev_hash shard_state_digest groups batch_digest = do
    raise_if (not (length shard_state_digest == 32)) value_error
    prev ← coerce_prev prev_hash
    let h = schema_v3 ++ prev_tag ++ prev ++ shard_state_tag ++ shard_state_digest
    fed ← feed_batch_digest (feed_groups h groups) batch_digest
    ok (hex (hashing.blake2b fed))
