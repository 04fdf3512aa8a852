-- ===== src/SpikeProtocol/Tests.antt =====
-- The theorems on src/pretrain/train/spike_protocol.py at a concrete protocol, with numbers as the
-- floats.
use open_transformers.Prelude.{ℕ, ◌≡◌, refl, true, false, [], ◌∷◌, ltb, All}
use open_transformers.SpikeProtocol.{
  FloatTests, SpikeProtocol, returned, raised_halt, spike_events, init, should_skip, record_skip,
  record_fresh, pop_expired, gate,
}
use open_transformers.SpikeProtocol.Window.{record_all}
use open_transformers.SpikeProtocol.Cooldown.{StepReading, gates, spike_then_cooldown}

abbrev numbers : FloatTests ℕ
numbers = record { is_nan = λ x. false; is_inf = λ x. false; gtb = λ x y. ltb y x }

-- Norms above 5 are spikes from step 2 on; two in 10 steps halt, and each skips 3 steps.
abbrev fresh_protocol : SpikeProtocol ℕ
fresh_protocol = init 5 2 10 3 2

abbrev spike : StepReading ℕ
spike = record { grad_norm = 9; loss = 1; step = 4 }

abbrev calm : ℕ → StepReading ℕ
calm step = record { grad_norm = 1; loss = 1; step = step }

halt_test :
    (record_skip (record_all fresh_protocol (4 ∷ 5 ∷ 6 ∷ [])) 9).1
    ≡ raised_halt (spike_events 2 10 5)
unfolding record_skip record_all record_fresh pop_expired init
halt_test = refl

spike_then_cooldown_example :
    let after = (gate numbers fresh_protocol 9 1 4).1 in
    All (λ v. v ≡ (true, returned)) (gates numbers after (calm 5 ∷ calm 6 ∷ [])).0
    × ((gates numbers after (calm 5 ∷ calm 6 ∷ [])).1.cooldown_remaining ≡ 0)
    × ((gates numbers after (calm 5 ∷ calm 6 ∷ [])).1.recent_skip_steps ≡ after.recent_skip_steps)
unfolding should_skip init
spike_then_cooldown_example =
    spike_then_cooldown numbers fresh_protocol spike (calm 5 ∷ calm 6 ∷ []) refl refl refl
