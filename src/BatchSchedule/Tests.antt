-- ===== src/BatchSchedule/Tests.antt =====
-- The theorems on src/pretrain/train/batch_schedule.py at concrete configurations, and runs of it.
use open_transformers.Prelude.{ℕ, ◌*◌, ◌≡◌, refl, [], ◌∷◌, ok, raise, value_error, ◌>>=◌, arith}
use mathlib.Core.List.{Mem}
use open_transformers.BatchSchedule.{
  TrainConfig, rounds_for, next_plan, current_global_batch_tokens, microbatches_per_step,
  windows_per_step, canonical_tokens_per_step, accum_for_rank, StepPlan, window_position,
  PlanCursor, iter_step_plans,
}
use open_transformers.BatchSchedule.Rounding.{
  IsLeastRounds, canonical_tokens_per_step-IsLeastRounds,
}
use open_transformers.BatchSchedule.Plans.{Follow, done, plan_then}
use open_transformers.BatchSchedule.Tiling.{Follow-tiles}

-- Micro-batches of 8 tokens; batches of 20, 32 and 64 tokens.
abbrev tiny : TrainConfig
tiny = record {
  seq_len = 4;
  micro_batch_size = 2;
  global_batch_tokens = record { warmup = 20; main = 32; late = 64 };
  warmup_to_main_at_tokens = 24;
  main_to_late_at_tokens = 50;
}

abbrev beginning : PlanCursor
beginning = record { consumed_tokens = 0; windows_emitted = 0; step = 0 }

abbrev plan0 : StepPlan
plan0 = record {
  step = 0;
  consumed_tokens = 0;
  base_window = 0;
  microbatches = 3;
  tokens_this_step = 24;
}

abbrev plan1 : StepPlan
plan1 = record {
  step = 1;
  consumed_tokens = 24;
  base_window = 6;
  microbatches = 4;
  tokens_this_step = 32;
}

abbrev two_later : PlanCursor
two_later = record { consumed_tokens = 56; windows_emitted = 14; step = 2 }

canonical_test : canonical_tokens_per_step 0 tiny ≡ ok 24
unfolding canonical_tokens_per_step windows_per_step microbatches_per_step rounds_for
    current_global_batch_tokens
canonical_test = refl

no_tokens_test : accum_for_rank 7 2 2 ≡ raise value_error
unfolding accum_for_rank
no_tokens_test = refl

plans_test : iter_step_plans 2 tiny beginning ≡ ok (plan0 ∷ plan1 ∷ [], two_later)
unfolding iter_step_plans next_plan microbatches_per_step rounds_for current_global_batch_tokens
plans_test = refl

first_plans : Follow tiny beginning (plan0 ∷ plan1 ∷ []) two_later
unfolding microbatches_per_step rounds_for current_global_batch_tokens
first_plans =
    plan_then plan0 refl refl refl refl refl (plan_then plan1 refl refl refl refl refl done)

canonical_tokens_per_step-IsLeastRounds_example :
    (m : ℕ) × (microbatches_per_step 0 tiny ≡ ok m)
    × (windows_per_step 0 tiny ≡ ok (m * 2))
    × (canonical_tokens_per_step 0 tiny ≡ ok (m * 2 * 4))
    × IsLeastRounds (current_global_batch_tokens 0 tiny) 8 m
canonical_tokens_per_step-IsLeastRounds_example =
    canonical_tokens_per_step-IsLeastRounds 0 tiny (omega arith)

Follow-tiles_example :
    (p : StepPlan) × Mem p (plan0 ∷ plan1 ∷ [])
    × ((row : ℕ) × (slot : ℕ) × (window_position 9 p 2 ≡ ok (row, slot)))
    × ((q : StepPlan) (row slot : ℕ)
        → Mem q (plan0 ∷ plan1 ∷ [])
        → window_position 9 q 2 ≡ ok (row, slot)
        → q ≡ p)
Follow-tiles_example = Follow-tiles first_plans 9 (omega arith) (omega arith)
