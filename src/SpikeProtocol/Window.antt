-- ===== src/SpikeProtocol/Window.antt =====
-- The halt window of src/pretrain/train/spike_protocol.py: which events the deque holds, and when
-- `Halt` is raised, against a history that forgets nothing.
use open_transformers.Prelude.{ℕ, zero, suc, ◌≡◌, List, [], ◌∷◌, ◌++◌, leb, if◌then◌else◌, length}
use open_transformers.SpikeProtocol.{
  SpikeProtocol, Outcome, returned, raised_halt, spike_events, record_skip,
}
use open_transformers.SpikeProtocol.Deque.{in_window}

unfoldable pub record_all : {F : Type 0} → SpikeProtocol F → List ℕ → SpikeProtocol F
record_all self [] = self
record_all self (step ∷ steps) = record_all (record_skip self step).0 steps

-- The object after the history `events` of fresh events, with `wait` calls of cooldown to come.
record Tracks {F : Type 0} (w every limit : ℕ) (t : F) (events : List ℕ) (wait : ℕ)
    (self : SpikeProtocol F) : Type 0 where
  recent : self.recent_skip_steps ≡ in_window w events
  cooldown : self.cooldown_remaining ≡ wait
  window : self.halt_window_steps ≡ w
  skips : self.skip_steps_on_spike ≡ every
  needed : self.skips_in_window_to_halt ≡ limit
  bound : self.threshold ≡ t

module _ {F : Type 0} (w every limit : ℕ) (t : F) where
  -- What the next call does.
  pub next_outcome : List ℕ → ℕ → ℕ → Outcome F
  next_outcome events (suc wait) step = returned
  next_outcome events zero step =
      let n = length (in_window w (events ++ step ∷ [])) in
      if leb limit n then raised_halt (spike_events n w t) else returned
