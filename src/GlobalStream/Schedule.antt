-- ===== src/GlobalStream/Schedule.antt =====
-- `ShardedWindowView.__iter__` of src/pretrain/data/global_stream.py over the step plans of
-- src/pretrain/train/batch_schedule.py: the steps of a run, and where its window counter stands.
use native.Mathlib.Nat.{add-zero}
use open_transformers.Prelude.{
  ℕ, zero, suc, ◌+◌, ◌*◌, ◌<◌, ◌≡◌, refl, sym, ap, ◌∙◌, List, [], ◌∷◌, map, some, length, ltb, ok,
  Bool-cases, inl, inr, arith,
}
use open_transformers.BatchSchedule.{TrainConfig, StepPlan, PlanCursor, iter_step_plans}
use open_transformers.BatchSchedule.Plans.{Follow, done, plan_then, iter_step_plans-Follow}
use open_transformers.GlobalStream.Corpus.{Corpus}
use open_transformers.GlobalStream.Windows.{Stream, refill, fill, next_window, next_windows}
use open_transformers.GlobalStream.View.{View, take_steps, iterate}
use open_transformers.GlobalStream.Simulation.{Simulates}
use open_transformers.GlobalStream.Sharding.{owned_of, micro_batches, take_step-Simulates}

module _ (corpus : Corpus) (seq_len eos_id : ℕ) where
  -- The stream's micro-batches of each plan.
  abbrev pub step_batches :
      (mb : ℕ) → List StepPlan → Stream corpus → List (List (List (List ℕ))) × Stream corpus
  step_batches mb [] s = ([], s)
  step_batches mb (plan ∷ plans) s =
      let (batches, after) = micro_batches corpus seq_len eos_id mb plan.microbatches s in
      let (steps, last) = step_batches mb plans after in (batches ∷ steps, last)

  take_steps-Simulates :
      (mb world_size rank : ℕ) (plans : List StepPlan) (v : View corpus) (s : Stream corpus)
      → Simulates corpus seq_len eos_id v s
      → (after : View corpus) × (take_steps corpus seq_len eos_id mb world_size rank plans v
          ≡ ok (
            map
                (λ batches. map (map some) (owned_of world_size rank 0 batches))
                (step_batches mb plans s).0,
            after,
          ))
        × Simulates corpus seq_len eos_id after (step_batches mb plans s).1
  unfolding take_steps
  take_steps-Simulates mb world_size rank [] v s sim = (v, refl, sim)
  take_steps-Simulates mb world_size rank (plan ∷ plans) v s sim =
      let (next, made, sim') =
        take_step-Simulates corpus seq_len eos_id mb world_size rank 0 plan.microbatches v s sim in
      let (last, all, sim'') =
        take_steps-Simulates mb world_size rank plans next
          (micro_batches corpus seq_len eos_id mb plan.microbatches s).1 sim' in
      (last, rw (made, all) refl, sim'')

  fill-emitted :
      (fuel : ℕ) (s : Stream corpus)
      → (fill corpus seq_len eos_id fuel s).windows_emitted ≡ s.windows_emitted
  unfolding fill refill
  fill-emitted zero s = refl
  fill-emitted (suc fuel) s = elim (Bool-cases (ltb (length s.buf) (seq_len + 1))) [
    | inl more ↦ rw more (fill-emitted fuel (refill corpus seq_len eos_id s))
    | inr full ↦ rw full refl
  ]

  next_windows-emitted :
      (count : ℕ) (s : Stream corpus)
      → (next_windows corpus seq_len eos_id count s).1.windows_emitted ≡ s.windows_emitted + count
  unfolding next_windows next_window
  next_windows-emitted zero s = sym (add-zero s.windows_emitted)
  next_windows-emitted (suc count) s = omega (
    arith,
    next_windows-emitted count (next_window corpus seq_len eos_id s).1,
    fill-emitted (seq_len + 1) s,
  )

  next_turn : (w mb count : ℕ) → w + mb + count * mb ≡ w + suc count * mb
  next_turn w mb count = grind arith

  micro_batches-emitted :
      (mb count : ℕ) (s : Stream corpus)
      → (micro_batches corpus seq_len eos_id mb count s).1.windows_emitted
        ≡ s.windows_emitted + count * mb
  micro_batches-emitted mb zero s = ground arith
  micro_batches-emitted mb (suc count) s =
      micro_batches-emitted mb count (next_windows corpus seq_len eos_id mb s).1
      ∙ rw (next_windows-emitted mb s) (next_turn s.windows_emitted mb count)

  step_batches-emitted :
      {train : TrainConfig} {c last : PlanCursor} {plans : List StepPlan} (s : Stream corpus)
      → Follow train c plans last
      → s.windows_emitted ≡ c.windows_emitted
      → (step_batches train.micro_batch_size plans s).1.windows_emitted ≡ last.windows_emitted
  step_batches-emitted s done e = e
  step_batches-emitted {train} s (plan_then plan _ _ _ _ _ rest) e =
      step_batches-emitted
        (micro_batches corpus seq_len eos_id train.micro_batch_size plan.microbatches s).1 rest
        (micro_batches-emitted train.micro_batch_size plan.microbatches s
          ∙ ap (λ (t : ℕ). t + plan.microbatches * train.micro_batch_size) e)

  -- With a positive micro-batch, the first `count` steps of a view in step with the stream never
  -- fail. They are the stream's micro-batches of the plans, of which the rank gets those it owns with
  -- all their windows read; behind them the view is in step with the stream, and its window counter
  -- is the one that the schedule reaches.
  pub iterate-Simulates :
      (train : TrainConfig) (world_size rank tokens step count : ℕ) (v : View corpus)
      (s : Stream corpus)
      → 0 < train.micro_batch_size * train.seq_len
      → Simulates corpus seq_len eos_id v s
      → (plans : List StepPlan) × (last : PlanCursor) × (after : View corpus) × (iter_step_plans
            count train
            (record { consumed_tokens = tokens; windows_emitted = v.windows_emitted; step = step })
          ≡ ok (plans, last))
        × (iterate corpus seq_len eos_id train train.micro_batch_size world_size rank tokens step
              count v
            ≡ ok (
              map
                  (λ batches. map (map some) (owned_of world_size rank 0 batches))
                  (step_batches train.micro_batch_size plans s).0,
              after,
            ))
        × Simulates corpus seq_len eos_id after (step_batches train.micro_batch_size plans s).1
        × (after.windows_emitted ≡ last.windows_emitted)
  unfolding iterate
  iterate-Simulates train world_size rank tokens step count v s pos sim =
      let (plans, last, planned, follow, size) =
        iter_step_plans-Follow count train
          (record { consumed_tokens = tokens; windows_emitted = v.windows_emitted; step = step })
          pos in
      let (after, taken, sim') =
        take_steps-Simulates train.micro_batch_size world_size rank plans v s sim in
      (
        plans,
        last,
        after,
        planned,
        rw planned taken,
        sim',
        sim'.windows ∙ step_batches-emitted s follow (sym sim.windows),
      )
