-- ===== src/Replay/Cluster.antt =====
-- The replay of src/pretrain/cli/audit_replay.py folds the ranks' gradients to what the ranks of
-- src/pretrain/parallel/deterministic_reduce.py reduce them to.
use open_transformers.Prelude.{
  ℕ, ◌*◌, ◌<◌, ◌≡◌, refl, sym, ap, ◌∙◌, Bool, true, false, List, [], ◌∷◌, map, range, Option, none,
  some, ok, ◌>>=◌, >>=_assoc, arith, fun_ext, Bool-cases, inl, inr,
}
use open_transformers.StateHash.Tags.{Bytes}
use open_transformers.StateHash.Feed.{Hashing, Tensor}
use open_transformers.Reduce.Norm.{ascending_sum}
use open_transformers.Reduce.AllReduce.{all_reduce_avg, all_reduce_avg-tree_reduce_sum}
use open_transformers.Prelude.Disk.{Disk, text_eq}
use open_transformers.Replay.Spill.{Storage}
use open_transformers.Replay.Fold.{Gradient, get_item, new_fold, push_all, fold_parts}
use open_transformers.Replay.Ranks.{averages, fold_ranks, replay_gradient}
use open_transformers.Replay.Files.{Values, dict, has}
use open_transformers.Replay.Removed.{Fresh}
use open_transformers.Replay.Sums.{distinct}
use open_transformers.Replay.Audit.{fold_parts-tree_reduce_sum}
use open_transformers.Replay.Replicates.{
  part, fold_ranks-push_all, shard_sum, part-shard_sum, ascending-shard_sum,
}

get_item-first :
    (own name : Bytes) (x : Tensor) (gradient : Gradient)
    → text_eq own name ≡ true
    → get_item ((own, x) ∷ gradient) name ≡ ok x
unfolding get_item
get_item-first own name x gradient same = rw same refl

get_item-rest :
    (own name : Bytes) (x : Tensor) (gradient : Gradient)
    → text_eq own name ≡ false
    → get_item ((own, x) ∷ gradient) name ≡ get_item gradient name
unfolding get_item
get_item-rest own name x gradient apart = rw apart refl

ok-eq : (a b : Tensor) → ok a ≡ ok b → a ≡ b
ok-eq a b e = cc

get_item-averages :
    (scale : ℕ → Tensor → Tensor) (n : ℕ) (gradient : Gradient) (name : Bytes) {t : Tensor}
    → get_item gradient name ≡ ok t
    → get_item (averages scale n gradient) name ≡ ok (scale n t)
unfolding get_item averages
get_item-averages scale n [] name e = cc
get_item-averages scale n ((own, x) ∷ gradient) name {t} e = elim (Bool-cases (text_eq own name)) [
  | inl same ↦
      let value = ok-eq x t (sym (get_item-first own name x gradient same) ∙ e) in
      rw (same, value) refl
  | inr apart ↦
      let behind = sym (get_item-rest own name x gradient apart) ∙ e in
      rw apart (get_item-averages scale n gradient name behind)
]

ok-some-eq : (a b : Tensor) → ok (some a) ≡ ok (some b) → a ≡ b
ok-some-eq a b e = cc

-- The step's gradient under each name, folded from the ranks' gradients on one device, is the one that
-- each replicate `r` of the cluster gets for it: the average over the replicates of their averages
-- over the shards. The replay does not fail and leaves no file. The gradients have the same distinct
-- names on all ranks, shards and replicates are positive in number, no spill file stands on the disk
-- before, and the addition of tensors commutes; it need not associate.
pub replay_gradient-all_reduce_avg :
    (hashing : Hashing) (storage : Storage) (env : Option Bytes) (names : List Bytes)
    (add : Tensor → Tensor → Tensor) (comm : (x y : Tensor) → add x y ≡ add y x)
    (scale : ℕ → Tensor → Tensor) (spills : Bool) (dp_shard dp_replicate : ℕ) (h : ℕ → Values)
    (disk : Disk) (name : Bytes) (r : ℕ)
    → 0 < dp_shard
    → 0 < dp_replicate
    → Fresh 0 disk
    → distinct names ≡ true
    → has names name ≡ true
    → r < dp_replicate
    → (outer : Gradient) × (value : Tensor) × (sums : ℕ → Tensor) × (replay_gradient hashing storage
          env add scale dp_shard spills dp_replicate
          (map (λ i. dict names (h i)) (range 0 (dp_replicate * dp_shard)))
          disk
        ≡ ok (outer, disk))
      × (get_item outer name ≡ ok value)
      × ((rep : ℕ)
          → ascending_sum add (map (λ i. h i name) (range (rep * dp_shard) dp_shard))
            ≡ ok (sums rep))
      × (all_reduce_avg add scale dp_replicate (λ rep. scale dp_shard (sums rep)) r ≡ ok value)
unfolding replay_gradient fold_parts
replay_gradient-all_reduce_avg hashing storage env names add comm scale spills s n h disk name r
      pos_s pos fresh once known less =
    let g = part hashing storage env names add scale s h once in
    let sums = shard_sum hashing storage env names add scale s h once name in
    let (sum, value, folded, got, treed) =
      fold_parts-tree_reduce_sum hashing storage env names add spills g n disk name pos fresh
        known in
    let (total, treed', each) =
      all_reduce_avg-tree_reduce_sum add comm scale n (λ i. g i name) pos in
    let same = ok-some-eq total value (sym treed' ∙ treed) in
    let zero : 0 ≡ 0 * s = omega arith in
    let pushes =
      ap
        (λ (t : ℕ).
          fold_ranks hashing storage env add scale s t none
            (map (λ i. dict names (h i)) (range t (n * s))) (new_fold spills) disk)
        zero
      ∙ fold_ranks-push_all hashing storage env names add scale s h once n 0 (new_fold spills) disk
          pos_s in
    (
      averages scale n sum,
      scale n value,
      sums,
      rw pushes (
          sym (
            >>=_assoc
              (push_all hashing storage env add (map (λ i. dict names (g i)) (range 0 n))
                (new_fold spills) disk)
              _ _)
          ∙ ap (λ run. run >>= λ done. ok (averages scale n done.0, done.1)) folded),
      get_item-averages scale n sum name got,
      λ rep. ascending-shard_sum hashing storage env names add scale s h once name rep pos_s,
      ap (λ φ. all_reduce_avg add scale n φ r)
            (fun_ext
              (λ rep. sym (part-shard_sum hashing storage env names add scale s h once name rep)))
          ∙ each r less
          ∙ ap (λ t. ok (scale n t)) same,
    )
