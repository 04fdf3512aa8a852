-- ===== src/DocMap/Tests.antt =====
-- The theorems on src/pretrain/data/doc_map.py on two steps.
use open_transformers.Prelude.{
  ℕ, ◌≡◌, ◌↔◌, refl, List, [], ◌∷◌, map, some, ok, arith, All, Result, raise,
}
use open_transformers.Prelude.Disk.{Text}
use open_transformers.BatchSchedule.{StepPlan, window_position}
use open_transformers.DocMap.Rows.{Span, Row, step_rows, rows_from, Placed, step_rows-Placed}
use open_transformers.DocMap.Agree.{compare_position-agree}
use open_transformers.DocMap.Position.{Position, GlobalStreamJson, compare_position, get}

abbrev plan : ℕ → StepPlan
plan step = record {
  step = step;
  consumed_tokens = 0;
  base_window = 4;
  microbatches = 2;
  tokens_this_step = 8;
}

abbrev span : ℕ → Span
span gw = record {
  global_window = gw;
  source = 97 ∷ [];
  shard_id = 0;
  local_doc = gw;
  tok_start = 0;
  tok_end = 3;
}

abbrev spans : List Span
spans = span 4 ∷ span 4 ∷ span 5 ∷ span 7 ∷ []

step_rows-Placed_example :
    (rows : List Row) × (step_rows (plan 3) spans 2 2 ≡ ok rows)
    × (map (λ (row : Row). row.span) rows ≡ spans)
    × All (Placed (plan 3) 2 2) rows
step_rows-Placed_example = step_rows-Placed (plan 3) spans 2 2 (
  (omega arith, omega arith),
  ((omega arith, omega arith), ((omega arith, omega arith), ((omega arith, omega arith), tt))),
)

abbrev ok_frags : Result (List Row) → List ℕ
ok_frags (ok rows) = map (λ (row : Row). row.frag_idx) rows
ok_frags (raise error) = []

-- The fragments of a window are numbered from 0 on.
frag_test : ok_frags (step_rows (plan 3) spans 2 2) ≡ 0 ∷ 1 ∷ 0 ∷ 0 ∷ []
unfolding step_rows rows_from window_position
frag_test = refl

abbrev one_row : ℕ → Row
one_row step = record {
  step = step;
  microbatch = 0;
  slot = 0;
  frag_idx = 0;
  dp_rank = 0;
  span = span 4;
}

abbrev steps : List (StepPlan × List Row)
steps = (plan 0, one_row 0 ∷ []) ∷ (plan 1, []) ∷ (plan 2, one_row 2 ∷ one_row 2 ∷ []) ∷ []

abbrev walked : Position
walked = record {
  consumed_documents_per_source = (97 ∷ [], 5) ∷ (98 ∷ [], 2) ∷ [];
  epoch_per_source = (97 ∷ [], 0) ∷ (98 ∷ [], 1) ∷ [];
  windows_emitted = 12;
}

abbrev saved : GlobalStreamJson
saved = record {
  consumed_documents_per_source = (98 ∷ [], 2) ∷ (97 ∷ [], 5) ∷ [];
  epoch_per_source = (98 ∷ [], 1) ∷ [];
  windows_emitted = some 12;
}

compare_position-agree_example : (compare_position walked saved ≡ []) ↔ (
    ((name : Text)
      → get saved.consumed_documents_per_source name
        ≡ get walked.consumed_documents_per_source name)
    × ((name : Text) → get saved.epoch_per_source name ≡ get walked.epoch_per_source name)
    × (saved.windows_emitted ≡ some walked.windows_emitted))
compare_position-agree_example = compare_position-agree walked saved
