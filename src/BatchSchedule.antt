-- ===== src/BatchSchedule.antt =====
-- src/pretrain/train/batch_schedule.py: the batch warm-up schedule, the split of a step's
-- micro-batches among the ranks, and the generator of step plans.
-- Token counts, sizes and ranks are non-negative. A generator is a function of the number of
-- values drawn, which returns those values and the variables it stops with.
mod Rounding
mod Tiling
pub mod Plans
mod Ownership
mod Tests
use open_transformers.Prelude.{
  ℕ, zero, suc, ◌+◌, ◌-◌, ◌*◌, ◌/◌, ◌%◌, max, not, ◌&&◌, List, [], ◌∷◌, ltb, leb, if◌then◌else◌,
  range, Result, ok, raise_if, ◌>>=◌, ◌>>◌, floordiv, value_error, ℕ_discrete,
}
use mathlib.Core.List.{filter}

pub record GlobalBatchTokens : Type 0 where
  pub warmup : ℕ
  pub main : ℕ
  pub late : ℕ

-- The fields that the schedule reads.
pub record TrainConfig : Type 0 where
  pub seq_len : ℕ
  pub micro_batch_size : ℕ
  pub global_batch_tokens : GlobalBatchTokens
  pub warmup_to_main_at_tokens : ℕ
  pub main_to_late_at_tokens : ℕ

unfoldable pub current_global_batch_tokens : ℕ → TrainConfig → ℕ
current_global_batch_tokens consumed_tokens train =
    if ltb consumed_tokens train.warmup_to_main_at_tokens
    then train.global_batch_tokens.warmup
    else if ltb consumed_tokens train.main_to_late_at_tokens
    then train.global_batch_tokens.main
    else train.global_batch_tokens.late

-- The rounding that `grad_accum_steps` and `microbatches_per_step` share.
unfoldable pub rounds_for : ℕ → ℕ → Result ℕ
rounds_for target per_round = do
  quotient ← floordiv target per_round
  let rounds = max 1 quotient
  ok (if ltb (rounds * per_round) target then rounds + 1 else rounds)

pub grad_accum_steps : ℕ → TrainConfig → ℕ → Result ℕ
grad_accum_steps consumed_tokens train dp_world_size =
    let target = current_global_batch_tokens consumed_tokens train in
    let per_step_per_rank = train.micro_batch_size * train.seq_len in
    let per_step_global = per_step_per_rank * max dp_world_size 1 in
    rounds_for target per_step_global

pub tokens_per_optimizer_step : ℕ → TrainConfig → ℕ → Result ℕ
tokens_per_optimizer_step consumed_tokens train dp_world_size = do
  accum ← grad_accum_steps consumed_tokens train dp_world_size
  ok (accum * train.micro_batch_size * train.seq_len * max dp_world_size 1)

unfoldable pub microbatches_per_step : ℕ → TrainConfig → Result ℕ
microbatches_per_step consumed_tokens train =
    let target = current_global_batch_tokens consumed_tokens train in
    let per_microbatch = train.micro_batch_size * train.seq_len in rounds_for target per_microbatch

unfoldable pub windows_per_step : ℕ → TrainConfig → Result ℕ
windows_per_step consumed_tokens train = do
  m ← microbatches_per_step consumed_tokens train
  ok (m * train.micro_batch_size)

pub canonical_tokens_per_step : ℕ → TrainConfig → Result ℕ
canonical_tokens_per_step consumed_tokens train = do
  windows ← windows_per_step consumed_tokens train
  ok (windows * train.seq_len)

unfoldable pub owner_rank : ℕ → ℕ → ℕ
owner_rank microbatch world_size = microbatch % max world_size 1

unfoldable pub accum_for_rank : ℕ → ℕ → ℕ → Result ℕ
accum_for_rank total_microbatches world_size rank = do
  raise_if (leb world_size rank) value_error
  let n = max world_size 1
  ok (if ltb rank total_microbatches then (total_microbatches - rank + n - 1) / n else 0)

unfoldable pub microbatch_indices_for_rank : ℕ → ℕ → ℕ → List ℕ
microbatch_indices_for_rank total_microbatches world_size rank =
    filter (λ m. ℕ_discrete (owner_rank m world_size) rank) (range 0 total_microbatches)

pub record StepPlan : Type 0 where
  pub step : ℕ
  pub consumed_tokens : ℕ
  pub base_window : ℕ
  pub microbatches : ℕ
  pub tokens_this_step : ℕ

-- `rel` is negative where the window lies before the plan.
unfoldable pub window_position : ℕ → StepPlan → ℕ → Result (ℕ × ℕ)
window_position global_window plan micro_batch_size = do
  let rel = global_window - plan.base_window
  raise_if
      (not (leb plan.base_window global_window && ltb rel (plan.microbatches * micro_batch_size)))
      value_error
  row ← floordiv rel micro_batch_size
  ok (row, rel % micro_batch_size)

-- The variables of the generator `iter_step_plans`.
pub record PlanCursor : Type 0 where
  pub consumed_tokens : ℕ
  pub windows_emitted : ℕ
  pub step : ℕ

-- One turn of its `while True`.
unfoldable pub next_plan : TrainConfig → PlanCursor → Result (StepPlan × PlanCursor)
next_plan train cursor = do
  let mb = train.micro_batch_size
  m ← microbatches_per_step cursor.consumed_tokens train
  let tokens_this_step = m * mb * train.seq_len
  ok (
    record {
      step = cursor.step;
      consumed_tokens = cursor.consumed_tokens;
      base_window = cursor.windows_emitted;
      microbatches = m;
      tokens_this_step = tokens_this_step;
    },
    record {
      consumed_tokens = cursor.consumed_tokens + tokens_this_step;
      windows_emitted = cursor.windows_emitted + m * mb;
      step = cursor.step + 1;
    },
  )

-- The first `count` plans.
unfoldable pub iter_step_plans : ℕ → TrainConfig → PlanCursor → Result (List StepPlan × PlanCursor)
iter_step_plans zero train cursor = ok ([], cursor)
iter_step_plans (suc count) train cursor = do
  (plan, after) ← next_plan train cursor
  (plans, last) ← iter_step_plans count train after
  ok (plan ∷ plans, last)
