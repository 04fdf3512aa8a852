-- ===== src/BatchSchedule/Tiling.antt =====
-- Every window that a run of `iter_step_plans` (src/pretrain/train/batch_schedule.py) walks belongs
-- to one step.
use mathlib.Core.HLevel.{hedberg}
use mathlib.Core.List.{Mem, mem-cons_self, mem-cons_of_mem, eq-or-mem_of_mem-cons, not-mem-nil}
use mathlib.Core.Logic.Or
use native.Mathlib.Bridge.{le_prop}
use open_transformers.Prelude.{
  ℕ, ◌+◌, ◌-◌, ◌*◌, ◌/◌, ◌%◌, ◌≤◌, ◌<◌, ◌≡◌, ap, List, ok, arith, dec_lt, ℕ_discrete,
}
use open_transformers.BatchSchedule.{TrainConfig, StepPlan, PlanCursor, window_position}
use open_transformers.BatchSchedule.Plans.{
  Follow, done, plan_then, window_position_lem, pos_of_lt-mul, position_inside, in_range,
}

StepPlan-set : IsSet StepPlan
StepPlan-set = hedberg (hlevel ℕ_discrete)

-- The window `w` stands in the plan.
abbrev Covers : ℕ → StepPlan → ℕ → Type 0
Covers mb plan w = (plan.base_window ≤ w) × (w < plan.base_window + plan.microbatches * mb)

-- The plans of a run start no earlier than its cursor and end no later than the cursor behind it.
Follow-bounds :
    {train : TrainConfig} {c last : PlanCursor} {plans : List StepPlan}
    → Follow train c plans last
    → (q : StepPlan) → Mem q plans
    → (c.windows_emitted ≤ q.base_window)
Follow-bounds done q m = absurd (not-mem-nil m)
Follow-bounds (plan_then plan s t w k n rest) q m =
    Or.elim le_prop (eq-or-mem_of_mem-cons m) (λ e. rw e (omega arith))
      (λ m'. omega (arith, Follow-bounds rest q m'))

Follow-unique :
    {train : TrainConfig} {c last : PlanCursor} {plans : List StepPlan}
    → Follow train c plans last
    → (w : ℕ) (p q : StepPlan) → Mem p plans
    → Mem q plans
    → Covers train.micro_batch_size p w
    → Covers train.micro_batch_size q w
    → q ≡ p
Follow-unique done w p q m k i j = absurd (not-mem-nil m)
Follow-unique {train} {c} (plan_then {plans = rest_plans} plan s t b k n rest) w p q mp mq cp cq =
    Or.elim (StepPlan-set q p) (eq-or-mem_of_mem-cons mp)
      (λ ep.
        Or.elim (StepPlan-set q p) (eq-or-mem_of_mem-cons mq) (λ eq. cc)
          (λ mq'. absurd (apart q p ep mq' cq cp)))
      (λ mp'.
        Or.elim (StepPlan-set q p) (eq-or-mem_of_mem-cons mq)
          (λ eq. absurd (apart p q eq mp' cp cq)) (λ mq'. Follow-unique rest w p q mp' mq' cp cq))
  where
    apart :
        (x y : StepPlan)
        → y ≡ plan
        → Mem x rest_plans
        → Covers train.micro_batch_size x w
        → Covers train.micro_batch_size y w
        → ⊥
    apart x y e m cx cy =
        let after = Follow-bounds rest x m in
        let start : y.base_window ≡ c.windows_emitted = cc in
        let size : y.microbatches ≡ plan.microbatches = cc in
        let ends : y.microbatches * train.micro_batch_size
            ≡ plan.microbatches * train.micro_batch_size =
          ap (λ (r : ℕ). r * train.micro_batch_size) size in
        omega arith

Follow-Covers :
    {train : TrainConfig} {c last : PlanCursor} {plans : List StepPlan}
    → Follow train c plans last
    → (w : ℕ) → c.windows_emitted ≤ w
    → w < last.windows_emitted
    → (p : StepPlan) × Mem p plans × Covers train.micro_batch_size p w
Follow-Covers done w lo hi = absurd (omega arith)
Follow-Covers {train} {c} (plan_then plan s t b k n rest) w lo hi =
    elim (dec_lt w (c.windows_emitted + plan.microbatches * train.micro_batch_size)) [
      | yes here ↦ (plan, mem-cons_self, (omega arith, omega arith))
      | no past ↦
          let (p, m, within) = Follow-Covers rest w (omega arith) hi in
          (p, mem-cons_of_mem plan m, within)
    ]

-- The plans of a run tile its windows: each window that the run emits is found in exactly one
-- plan, and `window_position` gives its micro-batch and slot there.
pub Follow-tiles :
    {train : TrainConfig} {c last : PlanCursor} {plans : List StepPlan}
    → Follow train c plans last
    → (w : ℕ) → c.windows_emitted ≤ w
    → w < last.windows_emitted
    → (p : StepPlan) × Mem p plans
      × ((row : ℕ) × (slot : ℕ) × (window_position w p train.micro_batch_size ≡ ok (row, slot)))
      × ((q : StepPlan) (row slot : ℕ)
          → Mem q plans
          → window_position w q train.micro_batch_size ≡ ok (row, slot)
          → q ≡ p)
Follow-tiles {train} {c} follows w lo hi =
    let (p, m, within) = Follow-Covers follows w lo hi in
    let mb = train.micro_batch_size in
    let rel = w - p.base_window in
    let pos : 0 < mb = pos_of_lt-mul rel p.microbatches mb (omega arith) in
    (
      p,
      m,
      (rel / mb, rel % mb, position_inside w mb p pos within.0 (omega arith)),
      λ q row slot mq located.
          let (r, s, e) = ((window_position_lem w mb q).0 row slot).0 located in
          Follow-unique follows w p q m mq within
            (omega arith, omega (arith, in_range row slot q.microbatches mb r s)),
    )
