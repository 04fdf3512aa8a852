-- ===== src/Replay/InRam.antt =====
-- Without a spill directory, `_DiskTreeFold.push` is `_tree_push` (src/pretrain/cli/audit_replay.py).
use open_transformers.Prelude.{
  ℕ, suc, ◌≡◌, refl, ap, sym, >>=_assoc, ◌∙◌, false, List, [], ◌∷◌, ◌==◌, ok, ◌>>=◌, Bool-cases,
  inl, inr, Result-cases,
}
use open_transformers.StateHash.Feed.{Hashing, Tensor}
use open_transformers.StateHash.Tags.{Bytes}
use open_transformers.Prelude.Disk.{Disk}
use open_transformers.Replay.Spill.{Storage}
use open_transformers.Replay.Fold.{
  Gradient, Entry, in_ram, add_into, push_from, tree_push, all_in_ram, fetch, store, carry_loop,
  push,
}
use open_transformers.Prelude.{Option}

module _ (hashing : Hashing) (storage : Storage) (env : Option Bytes)
    (add : Tensor → Tensor → Tensor) where
  -- What the loop leaves, with the sum on top.
  abbrev put_back : ℕ × Gradient × List (ℕ × Entry) × Disk → List (ℕ × Entry) × Disk
  put_back (level, part, stack, disk) = ((level, in_ram part) ∷ stack, disk)

  carry_loop-push_from :
      (level : ℕ) (part : Gradient) (stack : List (ℕ × Gradient)) (disk : Disk)
      → (carry_loop hashing storage env add level part (all_in_ram stack) disk >>= λ left.
          ok (put_back left))
        ≡ (push_from add level part stack >>= λ next. ok (all_in_ram next, disk))
  unfolding carry_loop push_from fetch
  carry_loop-push_from level part [] disk = refl
  carry_loop-push_from level part ((top, lower) ∷ stack) disk = elim (Bool-cases (top == level)) [
    | inl same ↦ elim (Result-cases (add_into add lower part)) [
      | inl (merged, e) ↦ rw (same, e) (carry_loop-push_from (suc level) merged stack disk)
      | inr (error, e) ↦ rw (same, e) refl
    ]
    | inr other ↦ rw other refl
  ]

  -- In memory, a push leaves what `_tree_push` makes of the stack, or fails as it does, and does not
  -- touch the disk.
  pub push-tree_push :
      (stack : List (ℕ × Gradient)) (seq : ℕ) (part : Gradient) (disk : Disk)
      → push hashing storage env add part
          (record { spills = false; stack = all_in_ram stack; seq = seq })
          disk
        ≡ (tree_push add stack part >>= λ next.
            ok (record { spills = false; stack = all_in_ram next; seq = seq }, disk))
  unfolding push tree_push store
  push-tree_push stack seq part disk =
      let rebuilt = λ (left : List (ℕ × Entry) × Disk).
        ok (record { spills = false; stack = left.0; seq = seq }, left.1) in
      sym (
        >>=_assoc (carry_loop hashing storage env add 0 part (all_in_ram stack) disk)
          (λ left. ok (put_back left)) rebuilt)
      ∙ ap (λ run. run >>= rebuilt) (carry_loop-push_from 0 part stack disk)
      ∙ >>=_assoc (push_from add 0 part stack) (λ next. ok (all_in_ram next, disk)) rebuilt
