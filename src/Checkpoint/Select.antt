-- ===== src/Checkpoint/Select.antt =====
-- `has_checkpoints`, `latest` and `garbage_collect` of src/pretrain/train/checkpoint.py, on a root of
-- directories that `save` made: each is its step and its files. The order in which `glob` finds them
-- is the order of the list.
use open_transformers.Prelude.{
  ℕ, zero, suc, ◌-◌, ◌%◌, Bool, true, false, ◌||◌, List, [], ◌∷◌, ◌++◌, Option, none, some, length,
  drop, keep, leb, ◌==◌, if◌then◌else◌, Result, ok, raise, zero_division_error, ◌>>=◌,
}
use open_transformers.StateHash.Sorted.{sorted}
use open_transformers.Checkpoint.Names.{dir_name}
use open_transformers.Checkpoint.Files.{File, is_complete}

abbrev pub Root : Type 0 → Type 0
Root C = List (ℕ × List (File × C))

-- `c in to_keep`.
abbrev pub is_in : ℕ → List ℕ → Bool
is_in step [] = false
is_in step (other ∷ steps) = step == other || is_in step steps

module _ {C : Type 0} where
  abbrev pub has_checkpoints : Root C → Bool
  has_checkpoints [] = false
  has_checkpoints (dir ∷ root) = true

  -- `sorted(self.root.glob("step_*"), key=lambda p: p.name)`.
  abbrev pub by_name : Root C → Root C
  by_name root = sorted (λ (dir : ℕ × List (File × C)). dir_name dir.0) root

  abbrev pub reversed : Root C → Root C
  reversed [] = []
  reversed (dir ∷ root) = reversed root ++ dir ∷ []

  unfoldable pub first_complete : Root C → Option ℕ
  first_complete [] = none
  first_complete (dir ∷ root) =
      let rest = first_complete root in if is_complete dir.1 then some dir.0 else rest

  unfoldable pub latest : Root C → Option ℕ
  latest root = first_complete (reversed (by_name root))

  -- `ckpts[-keep_last:]`; `ckpts[-0:]` is the whole list.
  abbrev pub last_of : ℕ → Root C → Root C
  last_of zero ckpts = ckpts
  last_of (suc count) ckpts = drop (length ckpts - suc count) ckpts

  -- The loop that adds the directories whose step is a multiple; `zero_division_error` is what `%` by 0
  -- raises.
  unfoldable pub multiples : ℕ → Root C → Result (List ℕ)
  multiples keep_every [] = ok []
  multiples keep_every (dir ∷ ckpts) =
      let rest = multiples keep_every ckpts in
      if keep_every == 0
      then raise zero_division_error
      else (rest >>= λ steps. ok (if dir.0 % keep_every == 0 then dir.0 ∷ steps else steps))

  abbrev pub steps_of : Root C → List ℕ
  steps_of [] = []
  steps_of (dir ∷ root) = dir.0 ∷ steps_of root

  -- What is left where `shutil.rmtree` removes what it is given.
  unfoldable pub garbage_collect : (keep_last keep_every : ℕ) → Root C → Result (Root C)
  garbage_collect keep_last keep_every root =
      let ckpts = by_name root in
      if leb (length ckpts) keep_last then ok root else do
        every ← multiples keep_every ckpts
        let to_keep = steps_of (last_of keep_last ckpts) ++ every
        ok (keep (λ dir. is_in dir.0 to_keep) root)
