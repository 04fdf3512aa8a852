-- ===== src/DocMap/Joined.antt =====
-- The files of `write_doc_map` in src/pretrain/data/doc_map.py hold the rows of all steps.
use open_transformers.Prelude.{ℕ, ◌+◌, ◌*◌, ◌≡◌, List, [], ◌∷◌, ◌++◌, none}
use open_transformers.BatchSchedule.{StepPlan}
use open_transformers.DocMap.Rows.{Row}
use open_transformers.DocMap.Chunks.{Chunk, Writer}

unfoldable pub joined : List Chunk → List Row
joined [] = []
joined (chunk ∷ chunks) = chunk.rows ++ joined chunks

unfoldable pub all_rows : List (StepPlan × List Row) → List Row
all_rows [] = []
all_rows ((plan, rows) ∷ steps) = rows ++ all_rows steps

unfoldable pub all_windows : ℕ → List (StepPlan × List Row) → ℕ
all_windows mb [] = 0
all_windows mb ((plan, rows) ∷ steps) = plan.microbatches * mb + all_windows mb steps

-- The files and the rows behind them are the rows `done`; no rows wait where no step is open.
record Written (done : List Row) (self : Writer) : Type 0 where
  kept : joined self.files ++ self.acc ≡ done
  closed : self.first_step ≡ none → self.acc ≡ []
