-- ===== src/SpikeProtocol/Cooldown.antt =====
-- The gate of the training loop (src/pretrain/train/loop.py) over `should_skip` and `record_skip` of
-- src/pretrain/train/spike_protocol.py: what a spike does to the steps behind it.
use open_transformers.Prelude.{
  if◌then◌else◌, ℕ, ◌+◌, ◌-◌, ◌<◌, ◌≡◌, refl, Bool, true, false, List, [], ◌∷◌, length, All, ◌↔◌,
  ◌⊎◌, ◌∙◌, sym, arith,
}
use open_transformers.SpikeProtocol.{
  FloatTests, SpikeProtocol, Outcome, returned, should_skip, record_fresh, record_skip, gate,
}

-- The global gradient norm, the loss and the number of a step.
pub record StepReading (F : Type 0) : Type 0 where
  pub grad_norm : F
  pub loss : F
  pub step : ℕ

module _ {F : Type 0} (float : FloatTests F) where
  -- The gate at each of some steps: its verdicts with the outcomes, and the object behind them.
  pub gates : SpikeProtocol F → List (StepReading F) → List (Bool × Outcome F) × SpikeProtocol F
  gates self [] = ([], self)
  gates self (r ∷ readings) =
      let (skipped, after, outcome) = gate float self r.grad_norm r.loss r.step in
      let (verdicts, last) = gates after readings in ((skipped, outcome) ∷ verdicts, last)

  gate_cooling :
      (self : SpikeProtocol F) (r : StepReading F)
      → 0 < self.cooldown_remaining
      → ((gate float self r.grad_norm r.loss r.step).0 ≡ true)
        × ((gate float self r.grad_norm r.loss r.step).2 ≡ returned)
        × ((gate float self r.grad_norm r.loss r.step).1.cooldown_remaining + 1
            ≡ self.cooldown_remaining)
        × ((gate float self r.grad_norm r.loss r.step).1.recent_skip_steps ≡ self.recent_skip_steps)
  unfolding gate should_skip record_skip
  gate_cooling self r h = ground arith

  gates_cooling :
      (readings : List (StepReading F)) (self : SpikeProtocol F)
      → self.cooldown_remaining ≡ length readings
      → All (λ v. v ≡ (true, returned)) (gates self readings).0
        × ((gates self readings).1.cooldown_remaining ≡ 0)
        × ((gates self readings).1.recent_skip_steps ≡ self.recent_skip_steps)
  unfolding gates
  gates_cooling [] self h = (tt, h, refl)
  gates_cooling (r ∷ readings) self h =
      let (skipped, outcome, falls, same) = gate_cooling self r (omega arith) in
      let (all, ends, rest) =
        gates_cooling readings (gate float self r.grad_norm r.loss r.step).1 (omega arith) in
      ((cc, all), ends, rest ∙ same)

  fresh_cooldown :
      (self : SpikeProtocol F) (r : StepReading F)
      → self.cooldown_remaining ≡ 0
      → should_skip float self r.grad_norm r.loss r.step ≡ true
      → (gate float self r.grad_norm r.loss r.step).1.cooldown_remaining
        ≡ self.skip_steps_on_spike - 1
  unfolding gate record_skip record_fresh
  fresh_cooldown self r h e = ground arith

  -- A step that is skipped outside a cooldown starts one: the next `skip_steps_on_spike - 1` steps
  -- are skipped whatever their norms and losses, raise no `Halt` and add no event to the deque, and
  -- the cooldown is over behind them.
  pub spike_then_cooldown :
      (self : SpikeProtocol F) (r : StepReading F) (readings : List (StepReading F))
      → self.cooldown_remaining ≡ 0
      → should_skip float self r.grad_norm r.loss r.step ≡ true
      → length readings ≡ self.skip_steps_on_spike - 1
      → let after = (gate float self r.grad_norm r.loss r.step).1 in
        All (λ v. v ≡ (true, returned)) (gates after readings).0
        × ((gates after readings).1.cooldown_remaining ≡ 0)
        × ((gates after readings).1.recent_skip_steps ≡ after.recent_skip_steps)
  spike_then_cooldown self r readings h e k =
      gates_cooling readings _ (fresh_cooldown self r h e ∙ sym k)

  -- The gate lets a step through exactly if loss and norm are finite, no cooldown is left, and the
  -- norm is not above the threshold or the steps before `start_step` are not over; and it counts
  -- every step that it skips, and no other.
  pub gate_lem :
      (self : SpikeProtocol F) (r : StepReading F)
      → (((gate float self r.grad_norm r.loss r.step).0 ≡ false) ↔ (
          (float.is_nan r.loss ≡ false)
          × (float.is_inf r.loss ≡ false)
          × (float.is_nan r.grad_norm ≡ false)
          × (float.is_inf r.grad_norm ≡ false)
          × (self.cooldown_remaining ≡ 0)
          × ((r.step < self.start_step) ⊎ (float.gtb r.grad_norm self.threshold ≡ false))))
        × ((gate float self r.grad_norm r.loss r.step).1.state.skipped_steps
            ≡ self.state.skipped_steps
              + (if (gate float self r.grad_norm r.loss r.step).0 then 1 else 0))
  unfolding gate should_skip record_skip record_fresh
  gate_lem self r = ((ground arith, ground arith), ground arith)
