-- ===== src/Replay/Audit.antt =====
-- The gradient that the replay of src/pretrain/cli/audit_replay.py folds is the one that the ranks of
-- src/pretrain/parallel/deterministic_reduce.py reduce.
use open_transformers.Prelude.{
  ℕ, ◌+◌, ◌≤◌, ◌<◌, ◌≡◌, refl, ap, ◌∙◌, Bool, true, List, [], Option, some, map, range, ok, arith,
  length,
}
use open_transformers.StateHash.Tags.{Bytes}
use open_transformers.StateHash.Feed.{Hashing, Tensor}
use open_transformers.Reduce.Blocks.{bit_length}
use open_transformers.Reduce.Tree.{gathered, tree_reduce_sum}
use open_transformers.Prelude.Disk.{Disk}
use open_transformers.Replay.Spill.{Storage}
use open_transformers.Replay.Carry.{carry_all, total, total-some, total-carry_all-map}
use open_transformers.Replay.Order.{total-tree_reduce_sum, length-carry_all}
use open_transformers.Replay.Fold.{Gradient, get_item, DiskTreeFold, new_fold, push_all, fold_parts}
use open_transformers.Replay.Removed.{remove_entries, Fresh}
use open_transformers.Replay.Files.{Values, dict, add_values, has, get_item-has}
use open_transformers.Replay.Pushes.{Folded}
use open_transformers.Replay.Simulation.{bare, length-Spilled}
use open_transformers.Replay.Total.{result-Folded, push_all-Folded}

-- Replicate `i` has the gradient `g i` over the same names as the others.
module _ (hashing : Hashing) (storage : Storage) (env : Option Bytes) (names : List Bytes)
    (add : Tensor → Tensor → Tensor) where
  new_fold-Folded :
      (spills : Bool) (disk : Disk)
      → Fresh 0 disk
      → Folded hashing storage env names add [] disk (new_fold spills) disk
  unfolding remove_entries
  new_fold-Folded spills disk fresh = record { held = bare; unused = fresh; cleaned = refl }

  fold_parts-total :
      (spills : Bool) (g : ℕ → Values) (n : ℕ) (disk : Disk) (sum : Values)
      → Fresh 0 disk
      → total (add_values add) (carry_all (add_values add) g n) ≡ some sum
      → fold_parts hashing storage env add spills (map (λ i. dict names (g i)) (range 0 n)) disk
        ≡ ok (dict names sum, disk)
  unfolding fold_parts carry_all
  fold_parts-total spills g n disk sum fresh e =
      let (next, after, pushed, held) =
        push_all-Folded hashing storage env names add g 0 n disk (new_fold spills) disk
          (new_fold-Folded spills disk fresh) in
      let from_zero : 0 + n ≡ n = omega arith in
      rw pushed
        (result-Folded hashing storage env names add disk next after sum held (rw from_zero e))

-- The parts of `n` replicates, pushed in their order, fold without an exception to a dict whose value
-- under each name is what `tree_reduce_sum` makes of the parts' values under it, in memory or over
-- the disk, with the verification on or off; no spill file is left.
pub fold_parts-tree_reduce_sum :
    (hashing : Hashing) (storage : Storage) (env : Option Bytes) (names : List Bytes)
    (add : Tensor → Tensor → Tensor) (spills : Bool) (g : ℕ → Values) (n : ℕ) (disk : Disk)
    (name : Bytes)
    → 0 < n
    → Fresh 0 disk
    → has names name ≡ true
    → (sum : Gradient) × (value : Tensor) × (fold_parts hashing storage env add spills
          (map (λ i. dict names (g i)) (range 0 n))
          disk
        ≡ ok (sum, disk))
      × (get_item sum name ≡ ok value)
      × (tree_reduce_sum add (gathered n (λ i. g i name)) ≡ ok (some value))
fold_parts-tree_reduce_sum hashing storage env names add spills g n disk name pos fresh known =
    let (sum, whole) = total-some (add_values add) n g pos in
    let own : total add (carry_all add (λ i. g i name) n) ≡ some (sum name) =
      total-carry_all-map (add_values add) add (λ f. f name) (λ f h. refl) g n whole in
    (
      dict names sum,
      sum name,
      fold_parts-total hashing storage env names add spills g n disk sum fresh whole,
      get_item-has names sum name known,
      total-tree_reduce_sum add n (λ i. g i name) pos ∙ ap ok own,
    )

-- The stack behind `n` parts has at most as many entries as `n` has binary digits.
pub length-push_all :
    (hashing : Hashing) (storage : Storage) (env : Option Bytes) (names : List Bytes)
    (add : Tensor → Tensor → Tensor) (spills : Bool) (g : ℕ → Values) (n : ℕ) (disk : Disk)
    → Fresh 0 disk
    → (next : DiskTreeFold) × (after : Disk) × (push_all hashing storage env add
          (map (λ i. dict names (g i)) (range 0 n))
          (new_fold spills)
          disk
        ≡ ok (next, after))
      × (length next.stack ≤ bit_length n)
unfolding carry_all
length-push_all hashing storage env names add spills g n disk fresh =
    let from_zero : 0 + n ≡ n = omega arith in
    let (next, after, pushed, folded) =
      push_all-Folded hashing storage env names add g 0 n disk (new_fold spills) disk
        (new_fold-Folded hashing storage env names add spills disk fresh) in
    let size = length-Spilled hashing storage env names next.stack folded.held in
    let values : length (carry_all (add_values add) g (0 + n)) ≤ bit_length (0 + n) =
      length-carry_all (add_values add) g (0 + n) in
    (next, after, pushed, omega (arith, ap bit_length from_zero))
