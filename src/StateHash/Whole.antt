-- ===== src/StateHash/Whole.antt =====
-- `compute_state_hash` of src/pretrain/train/state_hash.py: the hash over full tensors.
use open_transformers.Prelude.{
  Bool, true, false, List, [], ◌∷◌, ◌++◌, Option, none, some, Result, ok, ◌>>=◌,
}
use open_transformers.StateHash.Tags.{
  Bytes, schema_v2, prev_tag, params_tag, batch_tag, batch_tensor_tag,
}
use open_transformers.StateHash.Feed.{Hashing, Tensor, Param, feed_tensor}
use open_transformers.StateHash.Sorted.{sorted}
use open_transformers.StateHash.Hex.{hex, PrevHash, coerce_prev}
use open_transformers.StateHash.Shards.{feed_params, feed_groups, feed_batch_digest}

module _ (hashing : Hashing) where
  unfoldable pub feed_batch_tensors : Bytes → List (Bytes × Tensor) → Bytes
  feed_batch_tensors h [] = h
  feed_batch_tensors h ((k, t) ∷ items) =
      feed_batch_tensors (feed_tensor hashing (h ++ k ++ 0 ∷ []) batch_tensor_tag t) items

  abbrev pub feed_batch_items : Bytes → Option (List (Bytes × Tensor)) → Bytes
  feed_batch_items h none = h
  feed_batch_items h (some batch) =
      feed_batch_tensors (h ++ batch_tag) (sorted (λ (entry : Bytes × Tensor). entry.0) batch)

  -- `full` is `_full`: the tensor that `full_tensor` assembles, or the plain one. `groups` is the text
  -- of the parameter groups, if there is an optimizer.
  unfoldable pub compute_state_hash :
      {T : Type 0}
      → (T → Tensor)
      → List (Param T)
      → (groups : Option Bytes) (include_grads : Bool) (batch : Option (List (Bytes × Tensor)))
      → (batch_digest : Option Bytes) → PrevHash
      → Result Bytes
  compute_state_hash {T} full model groups include_grads batch batch_digest prev_hash = do
    prev ← coerce_prev prev_hash
    let with_optimizer : Bool = elim groups [ none ↦ false | some text ↦ true ]
    let h =
        feed_params hashing full with_optimizer include_grads
          (schema_v2 ++ prev_tag ++ prev ++ params_tag) (sorted (λ (p : Param T). p.name) model)
    fed ← feed_batch_digest (feed_groups h groups) batch_digest
    ok (hex (hashing.blake2b (feed_batch_items fed batch)))
