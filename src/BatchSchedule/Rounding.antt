-- ===== src/BatchSchedule/Rounding.antt =====
-- How the step sizes of src/pretrain/train/batch_schedule.py are rounded.
use native.Mathlib.Nat.{div-le_of_le-mul, lt-div-mul-add, mul_comm, mul_assoc, mul-one}
use open_transformers.Prelude.{
  ℕ, ◌+◌, ◌*◌, ◌/◌, ◌≤◌, ◌<◌, max, ◌≡◌, ltb, if◌then◌else◌, arith, ok, Bool-cases, inl, inr, ltb→lt,
  ltb-false,
}
use open_transformers.BatchSchedule.{
  TrainConfig, current_global_batch_tokens, rounds_for, grad_accum_steps, tokens_per_optimizer_step,
  microbatches_per_step, windows_per_step, canonical_tokens_per_step,
}

-- The least positive number of rounds of a given size that reaches a target.
pub record IsLeastRounds (target size rounds : ℕ) : Type 0 where
  pub positive : 0 < rounds
  pub enough : target ≤ rounds * size
  pub least : (k : ℕ) → 0 < k → target ≤ k * size → rounds ≤ k

-- What `rounds_for` returns, without the division by zero.
top_up : ℕ → ℕ → ℕ → ℕ
top_up r target size = if ltb (r * size) target then r + 1 else r

unfoldable pub rounds : ℕ → ℕ → ℕ
unfolding top_up
rounds target size = top_up (max 1 (target / size)) target size

pub rounds_for-rounds :
    (target size : ℕ) → 0 < size → rounds_for target size ≡ ok (rounds target size)
unfolding rounds_for rounds
rounds_for-rounds target size h = ground arith

top_up_enough :
    (r target size : ℕ) → target < r * size + size → target ≤ top_up r target size * size
unfolding top_up
top_up_enough r target size h = elim (Bool-cases (ltb (r * size) target)) [
  | inl more ↦ rw more (omega arith)
  | inr done ↦ rw done (ltb-false (r * size) target done)
]

top_up_least :
    (r target size k : ℕ) → r ≤ k → target ≤ k * size → 0 < size → top_up r target size ≤ k
unfolding top_up
top_up_least r target size k le e h = elim (Bool-cases (ltb (r * size) target)) [
  | inl more ↦ rw more (grind (arith, ltb→lt (r * size) target more))
  | inr done ↦ rw done le
]

mul_mono_left : (a b c : ℕ) → a ≤ b → a * c ≤ b * c
mul_mono_left a b c h = grind arith

mul_cancel-lt : (a b c : ℕ) → a * c < b * c → a < b
mul_cancel-lt a b c h = grind arith

pub rounds-IsLeastRounds :
    (target size : ℕ) → 0 < size → IsLeastRounds target size (rounds target size)
unfolding rounds
rounds-IsLeastRounds target size h = record {
  positive = ground arith;
  enough = top_up_enough r target size (
      omega
        (arith, lt-div-mul-add {a = target} h, mul_mono_left (target / size) r size (omega arith)));
  least = λ k pos e. top_up_least r target size k (omega (arith, small k pos e)) e h;
}
  where
    r : ℕ
    r = max 1 (target / size)

    small : (k : ℕ) → 0 < k → target ≤ k * size → target / size ≤ k
    small k pos e = div-le_of_le-mul size (rw mul_comm e)

module _ (consumed : ℕ) (train : TrainConfig) where
  abbrev per_microbatch : ℕ
  per_microbatch = train.micro_batch_size * train.seq_len

  abbrev pub step_microbatches : ℕ
  step_microbatches = rounds (current_global_batch_tokens consumed train) per_microbatch

  module _ (h : 0 < per_microbatch) where
    pub microbatches_per_step_lem : microbatches_per_step consumed train ≡ ok step_microbatches
    unfolding microbatches_per_step
    microbatches_per_step_lem = rounds_for-rounds _ _ h

    -- With a positive micro-batch the step sizes are computed without an exception: the least positive
    -- number of micro-batches that reaches the target, and its windows and tokens to match.
    pub canonical_tokens_per_step-IsLeastRounds :
        (m : ℕ) × (microbatches_per_step consumed train ≡ ok m)
        × (windows_per_step consumed train ≡ ok (m * train.micro_batch_size))
        × (canonical_tokens_per_step consumed train
            ≡ ok (m * train.micro_batch_size * train.seq_len))
        × IsLeastRounds
            (current_global_batch_tokens consumed train)
            (train.micro_batch_size * train.seq_len)
            m
    unfolding canonical_tokens_per_step windows_per_step
    canonical_tokens_per_step-IsLeastRounds = (
      step_microbatches,
      microbatches_per_step_lem,
      rw microbatches_per_step_lem,
      rw microbatches_per_step_lem,
      rounds-IsLeastRounds _ _ h,
    )

    -- With a positive micro-batch, the legacy counts at one data-parallel rank are the canonical ones.
    pub grad_accum_steps-one :
        (grad_accum_steps consumed train 1 ≡ microbatches_per_step consumed train)
        × (tokens_per_optimizer_step consumed train 1 ≡ canonical_tokens_per_step consumed train)
    unfolding grad_accum_steps tokens_per_optimizer_step canonical_tokens_per_step windows_per_step
        microbatches_per_step
    grad_accum_steps-one = (simp mul-one, simp mul-one (ground arith))

  -- With a positive micro-batch and `n` positive, the legacy step at `n` ranks is computed without an
  -- exception, reaches the target, and is no larger than any positive number of rounds that does.
  pub tokens_per_optimizer_step_bounds :
      (n : ℕ)
      → 0 < n
      → 0 < per_microbatch
      → (t : ℕ) × (tokens_per_optimizer_step consumed train n ≡ ok t)
        × (current_global_batch_tokens consumed train ≤ t)
        × ((k : ℕ)
            → 0 < k
            → current_global_batch_tokens consumed train ≤ k * (per_microbatch * n)
            → t ≤ k * (per_microbatch * n))
  unfolding tokens_per_optimizer_step grad_accum_steps
  tokens_per_optimizer_step_bounds n pos h =
      let e : max n 1 ≡ n = omega arith in
      let positive : 0 < per_microbatch * n = grind arith in
      let p =
        rounds-IsLeastRounds (current_global_batch_tokens consumed train) (per_microbatch * n)
          positive in
      let r = rounds (current_global_batch_tokens consumed train) (per_microbatch * n) in
      let whole : r * train.micro_batch_size * train.seq_len * n ≡ r * (per_microbatch * n) =
        simp mul_assoc in
      (
        r * (per_microbatch * n),
        rw (e, rounds_for-rounds _ _ positive, whole),
        p.enough,
        λ k q reach. mul_mono_left r k (per_microbatch * n) (p.least k q reach),
      )
