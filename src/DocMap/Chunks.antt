-- ===== src/DocMap/Chunks.antt =====
-- `write_doc_map` of src/pretrain/data/doc_map.py, over the steps that `iter_doc_map` yields.
use open_transformers.Prelude.{
  ℕ, ◌+◌, ◌*◌, ◌%◌, List, [], ◌∷◌, ◌++◌, Option, none, some, ◌==◌, if◌then◌else◌, Result, ok,
  raise_if, zero_division_error, ◌>>=◌, ◌>>◌, length,
}
use open_transformers.BatchSchedule.{StepPlan}
use open_transformers.DocMap.Rows.{Row}

-- `step_docs-{first_step:06d}-{last_step:06d}.parquet` with its rows.
pub record Chunk : Type 0 where
  pub first_step : ℕ
  pub last_step : ℕ
  pub rows : List Row

-- The variables of the loop; `last_step` is read only where `first_step` is set.
pub record Writer : Type 0 where
  pub acc : List Row
  pub files : List Chunk
  pub first_step : Option ℕ
  pub last_step : ℕ
  pub total_rows : ℕ
  pub total_windows : ℕ
  pub steps_walked : ℕ

abbrev pub first_of : Option ℕ → ℕ → ℕ
first_of none step = step
first_of (some first) step = first

-- `_flush`, and `first_step = None`.
unfoldable pub flush : ℕ → Writer → Writer
flush first self = record self {
  acc = [];
  files =
      self.files ++ record { first_step = first; last_step = self.last_step; rows = self.acc } ∷ [];
  first_step = none;
}

-- The counts and `_extend` for one step.
unfoldable pub add_step : (micro_batch_size : ℕ) → StepPlan → List Row → Writer → Writer
add_step mb plan rows self = record {
  acc = self.acc ++ rows;
  files = self.files;
  first_step = some (first_of self.first_step plan.step);
  last_step = plan.step;
  total_rows = self.total_rows + length rows;
  total_windows = self.total_windows + plan.microbatches * mb;
  steps_walked = self.steps_walked + 1;
}

unfoldable pub take_plan :
    (micro_batch_size chunk_steps : ℕ) → StepPlan → List Row → Writer → Result Writer
take_plan mb chunk_steps plan rows self = do
  let added = add_step mb plan rows self
  raise_if (chunk_steps == 0) zero_division_error
  ok (
      if (plan.step + 1) % chunk_steps == 0
      then flush (first_of self.first_step plan.step) added
      else added)

unfoldable pub take_plans :
    (micro_batch_size chunk_steps : ℕ) → List (StepPlan × List Row) → Writer → Result Writer
take_plans mb chunk_steps [] self = ok self
take_plans mb chunk_steps ((plan, rows) ∷ steps) self = do
  next ← take_plan mb chunk_steps plan rows self
  take_plans mb chunk_steps steps next

-- `if first_step is not None and acc["step"]`.
abbrev pub flush_rest : Option ℕ → List Row → Writer → Writer
flush_rest none acc self = self
flush_rest (some first) [] self = self
flush_rest (some first) (row ∷ acc) self = flush first self

abbrev pub start_writer : Writer
start_writer = record {
  acc = [];
  files = [];
  first_step = none;
  last_step = 0;
  total_rows = 0;
  total_windows = 0;
  steps_walked = 0;
}

unfoldable pub write_doc_map :
    (micro_batch_size chunk_steps : ℕ) → List (StepPlan × List Row) → Result Writer
write_doc_map mb chunk_steps steps = do
  self ← take_plans mb chunk_steps steps start_writer
  ok (flush_rest self.first_step self.acc self)
