-- ===== src/SpikeProtocol/Resume.antt =====
-- `state_dict` and `load_state_dict` of src/pretrain/train/spike_protocol.py: a resumed run carries
-- on with the object that was saved.
use open_transformers.Prelude.{◌≡◌, arith}
use open_transformers.SpikeProtocol.{SpikeProtocol, state_dict, load_state_dict}

-- Two objects that were built from one configuration.
pub record SameConfig {F : Type 0} (a b : SpikeProtocol F) : Type 0 where
  pub threshold : a.threshold ≡ b.threshold
  pub needed : a.skips_in_window_to_halt ≡ b.skips_in_window_to_halt
  pub window : a.halt_window_steps ≡ b.halt_window_steps
  pub skips : a.skip_steps_on_spike ≡ b.skip_steps_on_spike
  pub start : a.start_step ≡ b.start_step

-- An object of the same configuration that loads the saved dictionary is the saved object.
pub load-state_dict :
    {F : Type 0} (saved other : SpikeProtocol F)
    → SameConfig other saved
    → load_state_dict other (state_dict saved) ≡ saved
unfolding load_state_dict state_dict
load-state_dict saved other h = ground arith
