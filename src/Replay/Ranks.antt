-- ===== src/Replay/Ranks.antt =====
-- The folding of the ranks' gradients in the replay loop of src/pretrain/cli/audit_replay.py: within a
-- replicate over its shards, then over the replicates.
use open_transformers.Prelude.{
  ℕ, suc, ◌-◌, ◌%◌, Bool, true, false, List, [], ◌∷◌, map, Option, none, some, ◌==◌, if◌then◌else◌,
  Result, ok, raise, key_error, type_error, ◌>>=◌, ◌>>◌, raise_if, not,
}
use open_transformers.StateHash.Tags.{Bytes}
use open_transformers.StateHash.Feed.{Hashing, Tensor}
use open_transformers.Prelude.Disk.{text_eq, Disk}
use open_transformers.Replay.Spill.{Storage}
use open_transformers.Replay.Fold.{Gradient, DiskTreeFold, new_fold, push, result}

abbrev pub has_key : Gradient → Bytes → Bool
has_key [] name = false
has_key ((own, t) ∷ gradient) name =
    let rest = has_key gradient name in if text_eq own name then true else rest

-- `g.mul_(1.0 / n)` on every tensor.
unfoldable pub averages : (ℕ → Tensor → Tensor) → ℕ → Gradient → Gradient
averages scale n gradient = map (λ entry. (entry.0, scale n entry.1)) gradient

module _ (add : Tensor → Tensor → Tensor) where
  abbrev pub add_under : Bytes → Tensor → Bytes × Tensor → Bytes × Tensor
  add_under name t (own, x) = if text_eq own name then (own, add x t) else (own, x)

  -- `inner[n].add_(rg[n])`.
  unfoldable pub add_at : Gradient → Bytes → Tensor → Result Gradient
  add_at inner name t =
      raise_if (not (has_key inner name)) key_error >> ok (map (add_under name t) inner)

  -- `for n in rg`.
  unfoldable pub accumulate : Gradient → Gradient → Result Gradient
  accumulate inner [] = ok inner
  accumulate inner ((name, t) ∷ rg) = do next ← add_at inner name t; accumulate next rg

  unfoldable pub take_rank : ℕ → Gradient → Option Gradient → Result Gradient
  take_rank shard rg none = if shard == 0 then ok rg else raise type_error
  take_rank shard rg (some inner) =
      let sum = accumulate inner rg in if shard == 0 then ok rg else sum

module _ (hashing : Hashing) (storage : Storage) (env : Option Bytes)
    (add : Tensor → Tensor → Tensor) (scale : ℕ → Tensor → Tensor) (dp_shard : ℕ) where
  -- The last shard of a replicate pushes the average.
  unfoldable pub close_replicate :
      ℕ → Gradient → DiskTreeFold → Disk → Result (Option Gradient × DiskTreeFold × Disk)
  close_replicate shard inner self disk =
      let pushed = (do
        (next, after) ← push hashing storage env add (averages scale dp_shard inner) self disk
        ok (none, next, after)) in
      if shard == dp_shard - 1 then pushed else ok (some inner, self, disk)

  -- The loop from rank `r` on, where each rank's gradient is at hand.
  unfoldable pub fold_ranks :
      ℕ → Option Gradient → List Gradient → DiskTreeFold → Disk → Result (DiskTreeFold × Disk)
  fold_ranks r inner [] self disk = ok (self, disk)
  fold_ranks r inner (rg ∷ ranks) self disk = do
    sum ← take_rank add (r % dp_shard) rg inner
    (kept, next, after) ← close_replicate (r % dp_shard) sum self disk
    fold_ranks (suc r) kept ranks next after

  -- The step's gradient: the fold over all ranks, averaged over the replicates.
  unfoldable pub replay_gradient : Bool → ℕ → List Gradient → Disk → Result (Gradient × Disk)
  replay_gradient spills dp_replicate ranks disk = do
    (self, after) ← fold_ranks 0 none ranks (new_fold spills) disk
    (outer, left) ← result hashing storage env add self after
    ok (averages scale dp_replicate outer, left)
