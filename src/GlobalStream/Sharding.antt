-- ===== src/GlobalStream/Sharding.antt =====
-- A step of `ShardedWindowView.__iter__` of src/pretrain/data/global_stream.py against the global
-- stream: what a rank gets, and where it stands after.
use native.Mathlib.Nat.{add_comm, suc-add, zero-add, zero-mul, suc-mul}
use open_transformers.Prelude.{
  ℕ, zero, suc, ◌+◌, ◌*◌, ◌≡◌, refl, ap, Bool, List, [], ◌∷◌, ◌++◌, map, none, some, ◌==◌,
  if◌then◌else◌, ok, Bool-cases, inl, inr,
}
use open_transformers.BatchSchedule.{owner_rank}
use open_transformers.GlobalStream.Corpus.{Corpus}
use open_transformers.GlobalStream.Windows.{Stream, next_window, next_windows}
use open_transformers.GlobalStream.View.{View, take_windows, take_step}
use open_transformers.GlobalStream.Simulation.{Simulates, take_window-Simulates}

-- Of the micro-batches from `m` on, those that `rank` owns.
abbrev pub owned_of {ℓ} : {A : Type ℓ} → (world_size rank m : ℕ) → List A → List A
owned_of world_size rank m [] = []
owned_of world_size rank m (batch ∷ batches) =
    let rest = owned_of world_size rank (m + 1) batches in
    if owner_rank m world_size == rank then batch ∷ rest else rest

abbrev pub concat {ℓ} : {A : Type ℓ} → List (List A) → List A
concat [] = []
concat (xs ∷ xss) = xs ++ concat xss

module _ (corpus : Corpus) (seq_len eos_id : ℕ) where
  -- The stream's next `count` micro-batches of `mb` windows each.
  abbrev pub micro_batches : (mb count : ℕ) → Stream corpus → List (List (List ℕ)) × Stream corpus
  micro_batches mb zero s = ([], s)
  micro_batches mb (suc count) s =
      let (windows, after) = next_windows corpus seq_len eos_id mb s in
      let (batches, last) = micro_batches mb count after in (windows ∷ batches, last)

  next_windows-add :
      (a b : ℕ) (s : Stream corpus)
      → next_windows corpus seq_len eos_id (a + b) s ≡ (
        (next_windows corpus seq_len eos_id a s).0
            ++ (next_windows corpus seq_len eos_id b (next_windows corpus seq_len eos_id a s).1).0,
        (next_windows corpus seq_len eos_id b (next_windows corpus seq_len eos_id a s).1).1,
      )
  unfolding next_windows
  next_windows-add zero b s = rw (zero-add b) refl
  next_windows-add (suc a) b s =
      rw (suc-add a b, next_windows-add a b (next_window corpus seq_len eos_id s).1) refl

  turns : (mb count : ℕ) → suc count * mb ≡ mb + count * mb
  turns mb count = rw (suc-mul count mb) (add_comm (count * mb) mb)

  -- The micro-batches are the stream's windows in order, none left out and none repeated.
  pub micro_batches-concat :
      (mb count : ℕ) (s : Stream corpus)
      → (concat (micro_batches mb count s).0, (micro_batches mb count s).1)
        ≡ next_windows corpus seq_len eos_id (count * mb) s
  unfolding next_windows
  micro_batches-concat mb zero s = rw (zero-mul mb) refl
  micro_batches-concat mb (suc count) s =
      rw (turns mb count, next_windows-add mb (count * mb) s)
        (ap (λ rest. ((next_windows corpus seq_len eos_id mb s).0 ++ rest.0, rest.1))
          (micro_batches-concat mb count (next_windows corpus seq_len eos_id mb s).1))

  pub take_windows-Simulates :
      (count : ℕ) (owned : Bool) (v : View corpus) (s : Stream corpus)
      → Simulates corpus seq_len eos_id v s
      → (after : View corpus) × (take_windows corpus seq_len eos_id count owned v
          ≡ ok (
            map
                (λ w. if owned then some w else none)
                (next_windows corpus seq_len eos_id count s).0,
            after,
          ))
        × Simulates corpus seq_len eos_id after (next_windows corpus seq_len eos_id count s).1
  unfolding take_windows next_windows
  take_windows-Simulates zero owned v s sim = (v, refl, sim)
  take_windows-Simulates (suc count) owned v s sim =
      let (spans, after, made, sim') = take_window-Simulates corpus seq_len eos_id v s owned sim in
      let (last, all, sim'') =
        take_windows-Simulates count owned after (next_window corpus seq_len eos_id s).1 sim' in
      (last, rw (made, all) refl, sim'')

  -- A rank's step from micro-batch `m` on, in step with the stream, returns the stream's
  -- micro-batches that the rank owns, with all their windows read, and is after it in step with the
  -- stream that has given out all `count` micro-batches.
  pub take_step-Simulates :
      (mb world_size rank m count : ℕ) (v : View corpus) (s : Stream corpus)
      → Simulates corpus seq_len eos_id v s
      → (after : View corpus) × (take_step corpus seq_len eos_id mb world_size rank m count v
          ≡ ok (map (map some) (owned_of world_size rank m (micro_batches mb count s).0), after))
        × Simulates corpus seq_len eos_id after (micro_batches mb count s).1
  unfolding take_step
  take_step-Simulates mb world_size rank m zero v s sim = (v, refl, sim)
  take_step-Simulates mb world_size rank m (suc count) v s sim =
      let (next, made, sim') =
        take_windows-Simulates mb (owner_rank m world_size == rank) v s sim in
      let (last, all, sim'') =
        take_step-Simulates mb world_size rank (m + 1) count next
          (next_windows corpus seq_len eos_id mb s).1 sim' in
      (
        last,
        elim (Bool-cases (owner_rank m world_size == rank)) [
          | inl mine ↦ rw (made, all, mine) refl
          | inr other ↦ rw (made, all, other) refl
        ],
        sim'',
      )
