-- ===== src/BatchSchedule/Plans.antt =====
-- The step plans of `iter_step_plans` in src/pretrain/train/batch_schedule.py: they tile the window
-- stream, keep the token clock, and resume from any step.
use native.Mathlib.Nat.{
  div-lt_iff_lt-mul, div-eq_of_lt-le, div-add-mod', mod-lt, mod-eq_of_lt, mul-add-mod_self_right,
}
use open_transformers.Prelude.{
  dec_lt, dec_le, length, ◌∙◌, ◌↔◌, ℕ, zero, suc, ◌+◌, ◌-◌, ◌*◌, ◌/◌, ◌%◌, ◌≤◌, ◌<◌, ◌≡◌, refl,
  List, [], ◌∷◌, ok, raise, value_error, arith, inl, inr, ◌⊎◌,
}
use open_transformers.BatchSchedule.{
  TrainConfig, StepPlan, PlanCursor, window_position, next_plan, iter_step_plans,
  microbatches_per_step,
}
use open_transformers.BatchSchedule.Rounding.{step_microbatches, microbatches_per_step_lem}

pub pos_of_lt-mul : (a b mb : ℕ) → a < b * mb → 0 < mb
pos_of_lt-mul a b zero h = grind arith
pos_of_lt-mul a b (suc mb) h = omega arith

pub in_range : (row slot rows mb : ℕ) → row < rows → slot < mb → row * mb + slot < rows * mb
in_range row slot rows mb h k = grind arith

div_lt : (rel rows mb : ℕ) → 0 < mb → rel < rows * mb → rel / mb < rows
div_lt rel rows mb pos h = (div-lt_iff_lt-mul pos).1 h

module _ (w mb : ℕ) (plan : StepPlan) where
  pub position_inside :
      0 < mb
      → plan.base_window ≤ w
      → w - plan.base_window < plan.microbatches * mb
      → window_position w plan mb ≡ ok ((w - plan.base_window) / mb, (w - plan.base_window) % mb)
  unfolding window_position
  position_inside pos lo hi = ground arith

  position_outside :
      (w < plan.base_window) ⊎ (plan.base_window + plan.microbatches * mb ≤ w)
      → window_position w plan mb ≡ raise value_error
  unfolding window_position
  position_outside h = ground arith

  position_bounds :
      (row slot : ℕ)
      → window_position w plan mb ≡ ok (row, slot)
      → (row < plan.microbatches) × (slot < mb) × (w ≡ plan.base_window + (row * mb + slot))
  position_bounds row slot e = elim (dec_lt w plan.base_window) [
    | yes below ↦ cc (position_outside (inl below))
    | no above ↦ elim (dec_le (plan.base_window + plan.microbatches * mb) w) [
      | yes past ↦ cc (position_outside (inr past))
      | no within ↦
          let rel = w - plan.base_window in
          let hi : rel < plan.microbatches * mb = omega arith in
          let pos : 0 < mb = pos_of_lt-mul rel plan.microbatches mb hi in
          let found = position_inside pos (omega arith) hi in
          let here : (rel / mb ≡ row) × (rel % mb ≡ slot) = ground (arith, found) in
          (
            rw (← here.0) (div_lt rel plan.microbatches mb pos hi),
            rw (← here.1) (mod-lt rel pos),
            rw (← here.0, ← here.1) (omega (arith, div-add-mod' rel mb)),
          )
    ]
  ]

position_at :
    (mb : ℕ) (plan : StepPlan) (row slot : ℕ)
    → row < plan.microbatches
    → slot < mb
    → window_position (plan.base_window + (row * mb + slot)) plan mb ≡ ok (row, slot)
position_at mb plan row slot h k =
    let rel : plan.base_window + (row * mb + slot) - plan.base_window ≡ row * mb + slot =
      omega arith in
    let hi = in_range row slot plan.microbatches mb h k in
    let quotient : (row * mb + slot) / mb ≡ row = div-eq_of_lt-le mb (omega arith) (omega arith) in
    let remainder : (row * mb + slot) % mb ≡ slot =
      mul-add-mod_self_right row mb slot ∙ mod-eq_of_lt k in
    position_inside (plan.base_window + (row * mb + slot)) mb plan (omega arith) (omega arith)
      (rw rel hi)
    ∙ rw (rel, quotient, remainder)

-- `window_position` finds exactly the windows of the plan: it returns micro-batch and slot just where
-- the window stands `row * mb + slot` behind the plan's first one, for a micro-batch of the plan
-- and a slot of the micro-batch, and before and behind the plan's windows it is a `ValueError`.
pub window_position_lem :
    (w mb : ℕ) (plan : StepPlan)
    → ((row slot : ℕ)
        → (window_position w plan mb ≡ ok (row, slot))
          ↔ ((row < plan.microbatches) × (slot < mb) × (w ≡ plan.base_window + (row * mb + slot))))
      × ((w < plan.base_window) ⊎ (plan.base_window + plan.microbatches * mb ≤ w)
          → window_position w plan mb ≡ raise value_error)
window_position_lem w mb plan = (
  λ row slot.
      (position_bounds w mb plan row slot, λ h. rw h.2 (position_at mb plan row slot h.0 h.1)),
  position_outside w mb plan,
)

module _ (train : TrainConfig) where
  abbrev mb : ℕ
  mb = train.micro_batch_size

  -- The plan that `next_plan` makes at a cursor, and the cursor behind it.
  abbrev plan_at : PlanCursor → StepPlan
  plan_at c = record {
    step = c.step;
    consumed_tokens = c.consumed_tokens;
    base_window = c.windows_emitted;
    microbatches = step_microbatches c.consumed_tokens train;
    tokens_this_step = step_microbatches c.consumed_tokens train * mb * train.seq_len;
  }

  abbrev cursor_after : PlanCursor → PlanCursor
  cursor_after c = record {
    consumed_tokens =
        c.consumed_tokens + step_microbatches c.consumed_tokens train * mb * train.seq_len;
    windows_emitted = c.windows_emitted + step_microbatches c.consumed_tokens train * mb;
    step = c.step + 1;
  }

  pub next_plan_lem :
      0 < mb * train.seq_len → (c : PlanCursor) → next_plan train c ≡ ok (plan_at c, cursor_after c)
  unfolding next_plan
  next_plan_lem h c = rw (microbatches_per_step_lem c.consumed_tokens train h)

-- The plans follow one another from the cursor `c` to the cursor `last`: each starts at the window,
-- the token count and the step where the one before it ends.
pub data Follow (train : TrainConfig) : PlanCursor → List StepPlan → PlanCursor → Type 0 where
  done : {c : PlanCursor} → Follow train c [] c
  plan_then :
      {c last : PlanCursor} {plans : List StepPlan} (plan : StepPlan)
      → plan.step ≡ c.step
      → plan.consumed_tokens ≡ c.consumed_tokens
      → plan.base_window ≡ c.windows_emitted
      → microbatches_per_step c.consumed_tokens train ≡ ok plan.microbatches
      → plan.tokens_this_step ≡ plan.microbatches * train.micro_batch_size * train.seq_len
      → Follow train
          (record {
            consumed_tokens = c.consumed_tokens + plan.tokens_this_step;
            windows_emitted = c.windows_emitted + plan.microbatches * train.micro_batch_size;
            step = c.step + 1;
          })
          plans
          last
      → Follow train c (plan ∷ plans) last

-- With a positive micro-batch every number of plans is produced, and they follow one another.
pub iter_step_plans-Follow :
    (count : ℕ) (train : TrainConfig) (c : PlanCursor)
    → 0 < train.micro_batch_size * train.seq_len
    → (plans : List StepPlan) × (last : PlanCursor) × (iter_step_plans count train c
        ≡ ok (plans, last))
      × Follow train c plans last
      × (length plans ≡ count)
unfolding iter_step_plans
iter_step_plans-Follow zero train c h = ([], c, refl, done, refl)
iter_step_plans-Follow (suc count) train c h =
    let rest = iter_step_plans-Follow count train (cursor_after train c) h in
    (
      plan_at train c ∷ rest.0,
      rest.1,
      rw (next_plan_lem train h c, rest.2),
      plan_then (plan_at train c) refl refl refl
          (microbatches_per_step_lem c.consumed_tokens train h) refl rest.3,
      omega (arith, rest.4),
    )
