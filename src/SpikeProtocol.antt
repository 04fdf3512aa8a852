-- ===== src/SpikeProtocol.antt =====
-- src/pretrain/train/spike_protocol.py: loss-spike detection, the cooldown behind a spike, and the
-- halt on too many spikes within a window of steps.
-- Floats are a type with the three tests that the code makes of them. A method returns the new
-- object; `record_skip` also says whether it raised `Halt`. The text of the halt reason is kept as
-- the values that it is formatted from.
mod Cooldown
mod Deque
mod Window
mod Resume
mod Tests
use open_transformers.Prelude.{
  ℕ, zero, suc, ◌+◌, ◌-◌, max, Bool, true, false, ◌||◌, List, [], ◌∷◌, ◌++◌, Option, none, some,
  ltb, leb, if◌then◌else◌, length,
}
use open_transformers.Prelude.Int.{ℤ, pos, negsuc}
use mathlib.Core.Option

-- `math.isnan`, `math.isinf` and `>` on floats.
pub record FloatTests (F : Type 0) : Type 0 where
  pub is_nan : F → Bool
  pub is_inf : F → Bool
  pub gtb : F → F → Bool

-- `"{events} spike events in last {window} steps (threshold {threshold})"`, or the empty text.
pub data HaltReason (F : Type 0) : Type 0 where
  no_reason : HaltReason F
  spike_events : (events window : ℕ) (threshold : F) → HaltReason F

pub record SpikeProtocolState (F : Type 0) : Type 0 where
  pub skipped_steps : ℕ
  pub last_skip_step : ℤ
  pub halted : Bool
  pub halt_reason : HaltReason F

pub record SpikeProtocol (F : Type 0) : Type 0 where
  pub threshold : F
  pub skips_in_window_to_halt : ℕ
  pub halt_window_steps : ℕ
  pub skip_steps_on_spike : ℕ
  pub start_step : ℕ
  pub recent_skip_steps : List ℕ
  pub cooldown_remaining : ℕ
  pub state : SpikeProtocolState F

pub data Outcome (F : Type 0) : Type 0 where
  returned : Outcome F
  raised_halt : HaltReason F → Outcome F

-- `while recent and recent[0] < step - window: recent.popleft()`. The cutoff may be negative, so
-- the window stands on the left.
unfoldable pub pop_expired : ℕ → ℕ → List ℕ → List ℕ
pop_expired window step [] = []
pop_expired window step (first ∷ recent) =
    if ltb (first + window) step then pop_expired window step recent else first ∷ recent

abbrev pub initial_state : {F : Type 0} → SpikeProtocolState F
initial_state = record {
  skipped_steps = 0;
  last_skip_step = negsuc 0;
  halted = false;
  halt_reason = no_reason;
}

module _ {F : Type 0} where
  unfoldable pub init : F → ℕ → ℕ → ℕ → ℕ → SpikeProtocol F
  init threshold skips_in_window_to_halt halt_window_steps skip_steps_on_spike start_step = record {
    threshold = threshold;
    skips_in_window_to_halt = skips_in_window_to_halt;
    halt_window_steps = halt_window_steps;
    skip_steps_on_spike = max skip_steps_on_spike 1;
    start_step = start_step;
    recent_skip_steps = [];
    cooldown_remaining = 0;
    state = initial_state;
  }

  unfoldable pub should_skip : FloatTests F → SpikeProtocol F → F → F → ℕ → Bool
  should_skip float self grad_norm loss step =
      if float.is_nan loss || float.is_inf loss
      then true
      else if float.is_nan grad_norm || float.is_inf grad_norm
      then true
      else if ltb 0 self.cooldown_remaining
      then true
      else if ltb step self.start_step
      then false
      else float.gtb grad_norm self.threshold

  -- `record_skip` on a fresh event, behind its count and its step.
  unfoldable pub record_fresh : SpikeProtocol F → ℕ → SpikeProtocol F × Outcome F
  record_fresh self step =
      let recent = pop_expired self.halt_window_steps step (self.recent_skip_steps ++ step ∷ []) in
      let cooled = record self {
        recent_skip_steps = recent;
        cooldown_remaining = self.skip_steps_on_spike - 1;
      } in
      let reason = spike_events (length recent) self.halt_window_steps self.threshold in
      if leb self.skips_in_window_to_halt (length recent)
      then (
        record cooled { state = record (self.state) { halted = true; halt_reason = reason } },
        raised_halt reason,
      )
      else (cooled, returned)

  unfoldable pub record_skip : SpikeProtocol F → ℕ → SpikeProtocol F × Outcome F
  record_skip self step =
      let counted = record self {
        state = record (self.state) {
          skipped_steps = self.state.skipped_steps + 1;
          last_skip_step = pos step;
        };
      } in
      if ltb 0 self.cooldown_remaining
      then (record counted { cooldown_remaining = self.cooldown_remaining - 1 }, returned)
      else record_fresh counted step

  -- The gate of the training loop: whether the step is skipped, the object and what the call did. The
  -- loop's own count of skipped steps is not part of it.
  unfoldable pub gate :
      FloatTests F → SpikeProtocol F → F → F → ℕ → Bool × SpikeProtocol F × Outcome F
  gate float self grad_norm loss step =
      if should_skip float self grad_norm loss step
      then (true, (record_skip self step).0, (record_skip self step).1)
      else (false, self, returned)

-- The dictionary of `state_dict`; a key may be missing from one that is loaded.
pub record SpikeDict (F : Type 0) : Type 0 where
  pub recent_skip_steps : Option (List ℕ)
  pub cooldown_remaining : Option ℕ
  pub skipped_steps : Option ℕ
  pub last_skip_step : Option ℤ
  pub halted : Option Bool
  pub halt_reason : Option (HaltReason F)

module _ {F : Type 0} where
  unfoldable pub state_dict : SpikeProtocol F → SpikeDict F
  state_dict self = record {
    recent_skip_steps = some (self.recent_skip_steps);
    cooldown_remaining = some (self.cooldown_remaining);
    skipped_steps = some (self.state.skipped_steps);
    last_skip_step = some (self.state.last_skip_step);
    halted = some (self.state.halted);
    halt_reason = some (self.state.halt_reason);
  }

  unfoldable pub load_state_dict : SpikeProtocol F → SpikeDict F → SpikeProtocol F
  load_state_dict self sd = record self {
    recent_skip_steps = Option.get_or (sd.recent_skip_steps) [];
    cooldown_remaining = Option.get_or (sd.cooldown_remaining) 0;
    state = record {
      skipped_steps = Option.get_or (sd.skipped_steps) 0;
      last_skip_step = Option.get_or (sd.last_skip_step) (negsuc 0);
      halted = Option.get_or (sd.halted) false;
      halt_reason = Option.get_or (sd.halt_reason) no_reason;
    };
  }
