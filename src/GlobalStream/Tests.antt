-- ===== src/GlobalStream/Tests.antt =====
-- The theorems on src/pretrain/data/global_stream.py at two small sources, and runs of it.
use open_transformers.Prelude.{
  ℕ, ◌+◌, ◌%◌, ◌≡◌, true, List, [], ◌∷◌, map, none, some, length-replicate, replicate, ok,
  ℕ_discrete, arith,
}
use native.Mathlib.Nat.{mod-lt}
use open_transformers.GlobalStream.Corpus.{Corpus}
use open_transformers.GlobalStream.Windows.{Stream, next_window}
use open_transformers.GlobalStream.View.{Seg, doc, eos, Span, View, take_window, take_step}
use open_transformers.BatchSchedule.{TrainConfig, StepPlan, PlanCursor, iter_step_plans}
use open_transformers.GlobalStream.View.{iterate}
use open_transformers.GlobalStream.Schedule.{step_batches, iterate-Simulates}
use open_transformers.GlobalStream.State.{stream_state, view_state, start_stream, start_view}
use open_transformers.GlobalStream.Simulation.{Simulates, take_window-Simulates}
use open_transformers.GlobalStream.Sharding.{owned_of, micro_batches, take_step-Simulates}
use open_transformers.GlobalStream.Resume.{
  DistinctNames, view_state-stream_state, start_view-Simulates, start_view-fresh,
}

-- Document `i` of source `s` is `i % 3 + 1` times the token `s + 5`; the sources take turns.
abbrev two_sources : Corpus
two_sources = record {
  Name = ℕ;
  name_discrete = ℕ_discrete;
  Rng = ℕ;
  sources = 2;
  name = λ i. i;
  choose = λ rng. (rng % 2, rng + 1);
  choose-lt = λ rng. mod-lt rng (omega arith);
  next_ref = λ src position.
      ((0, position.consumed), record { consumed = position.consumed + 1; epoch = position.epoch });
  tokens = λ src ref. replicate (ref.1 % 3 + 1) (src + 5);
  doc_length = λ src ref. ref.1 % 3 + 1;
  length-tokens = λ src ref. length-replicate (ref.1 % 3 + 1) (src + 5);
}

-- Windows of 4 tokens with the separator 9.
abbrev stream0 : Stream two_sources
stream0 = start_stream two_sources 0 none

abbrev view0 : View two_sources
view0 = start_view two_sources 0 none

together : Simulates two_sources 3 9 view0 stream0
together = start_view-fresh two_sources 3 9 0

abbrev segments : List Seg
segments = doc 0 (0, 1) 2 ∷ eos ∷ doc 1 (0, 2) 3 ∷ eos ∷ []

take_window-Simulates_example :
    (spans : List Span) × (after : View two_sources) × (take_window two_sources 3 9 view0 true
      ≡ ok (some (next_window two_sources 3 9 stream0).0, spans, after))
    × Simulates two_sources 3 9 after (next_window two_sources 3 9 stream0).1
take_window-Simulates_example = take_window-Simulates two_sources 3 9 view0 stream0 true together

take_step-Simulates_example :
    (after : View two_sources) × (take_step two_sources 3 9 2 2 1 0 3 view0
      ≡ ok (map (map some) (owned_of 2 1 0 (micro_batches two_sources 3 9 2 3 stream0).0), after))
    × Simulates two_sources 3 9 after (micro_batches two_sources 3 9 2 3 stream0).1
take_step-Simulates_example = take_step-Simulates two_sources 3 9 2 2 1 0 3 view0 stream0 together

view_state-stream_state_example : view_state two_sources 9 view0 ≡ stream_state two_sources stream0
view_state-stream_state_example = view_state-stream_state two_sources 3 9 together

own_names : DistinctNames two_sources
own_names i j hi hj e = e

start_view-Simulates_example :
    Simulates two_sources 3 9
      (start_view two_sources 0
        (some (stream_state two_sources (next_window two_sources 3 9 stream0).1)))
      (next_window two_sources 3 9 stream0).1
start_view-Simulates_example =
    start_view-Simulates two_sources 3 9 own_names 0 (next_window two_sources 3 9 stream0).1

-- Steps of one, two and four micro-batches of two windows.
abbrev growing : TrainConfig
growing = record {
  seq_len = 3;
  micro_batch_size = 2;
  global_batch_tokens = record { warmup = 5; main = 12; late = 24 };
  warmup_to_main_at_tokens = 6;
  main_to_late_at_tokens = 18;
}

iterate-Simulates_example :
    (plans : List StepPlan) × (last : PlanCursor) × (after : View two_sources) × (iter_step_plans 3
        growing
        (record { consumed_tokens = 0; windows_emitted = view0.windows_emitted; step = 0 })
      ≡ ok (plans, last))
    × (iterate two_sources 3 9 growing 2 2 1 0 0 3 view0
        ≡ ok (
          map
              (λ batches. map (map some) (owned_of 2 1 0 batches))
              (step_batches two_sources 3 9 2 plans stream0).0,
          after,
        ))
    × Simulates two_sources 3 9 after (step_batches two_sources 3 9 2 plans stream0).1
    × (after.windows_emitted ≡ last.windows_emitted)
iterate-Simulates_example =
    iterate-Simulates two_sources 3 9 growing 2 1 0 0 3 view0 stream0 (omega arith) together
