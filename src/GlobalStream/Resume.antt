-- ===== src/GlobalStream/Resume.antt =====
-- Saving and restoring a stream's state (src/pretrain/data/global_stream.py): a view saves what the
-- global stream would, and a view restored from it follows the stream that was saved.
use open_transformers.Prelude.{
  ℕ, zero, suc, ◌+◌, ◌-◌, ◌≤◌, ◌<◌, ◌≡◌, refl, sym, ◌∙◌, List, [], ◌∷◌, ◌++◌, append-nil, map,
  range, none, some, take, drop, le→ltb-false, All, arith, ℕ_discrete,
}
use open_transformers.Prelude.Slices.{take_of_length-le}
use open_transformers.GlobalStream.Corpus.{Position, Corpus}
use open_transformers.GlobalStream.View.{Seg, doc, eos, lit, seg_length, View}
use open_transformers.GlobalStream.Windows.{Stream}
use open_transformers.GlobalStream.State.{
  choice, dict_get, per_source, stream_state, materialize_buffer, view_state, start_walkers,
  start_rng, start_stream, carried, start_view,
}
use open_transformers.GlobalStream.Taking.{
  seg_tokens, flat, Measured, HeadFits, size_left, open_front, zero_fits,
}
use open_transformers.GlobalStream.Simulation.{Simulates}

choice-yes {ℓ κ} : {A : Type ℓ} {B : Type κ} (d : Dec A) (x y : B) → A → choice d x y ≡ x
choice-yes (yes a) x y h = refl
choice-yes (no na) x y h = absurd (na h)

choice-no {ℓ κ} : {A : Type ℓ} {B : Type κ} (d : Dec A) (x y : B) → ¬ A → choice d x y ≡ y
choice-no (yes a) x y h = absurd (h a)
choice-no (no na) x y h = refl

module _ (corpus : Corpus) where
  open corpus use {Name, name_discrete, Rng, sources, name, tokens}

  -- No two sources share a name, as the keys of the saved counters need.
  abbrev pub DistinctNames : Type 0
  DistinctNames = (i j : ℕ) → i < sources → j < sources → name i ≡ name j → i ≡ j

  module _ (distinct : DistinctNames) (f : ℕ → ℕ) where
    unrelated :
        (start count i d : ℕ)
        → start + count ≤ sources
        → i < start
        → dict_get corpus (map (λ i. (name i, f i)) (range start count)) (name i) d ≡ d
    unrelated start zero i d h lo = refl
    unrelated start (suc count) i d h lo =
        unrelated (suc start) count i _ (omega arith) (omega arith)
        ∙ choice-no (name_discrete (name start) (name i)) (f start) d other
      where
        other : ¬ (name start ≡ name i)
        other e =
            let same : start ≡ i = distinct start i (omega arith) (omega arith) e in
            absurd (omega arith)

    dict_get-per_source :
        (start count i d : ℕ)
        → start + count ≤ sources
        → start ≤ i
        → i < start + count
        → dict_get corpus (map (λ i. (name i, f i)) (range start count)) (name i) d ≡ f i
    dict_get-per_source start zero i d h lo hi = absurd (omega arith)
    dict_get-per_source start (suc count) i d h lo hi = elim (ℕ_discrete start i) [
      | yes e ↦
          unrelated (suc start) count i _ (omega arith) (omega arith)
          ∙ rw e (choice-yes (name_discrete (name i) (name i)) (f i) d refl)
      | no ne ↦ dict_get-per_source (suc start) count i _ (omega arith) (omega arith) (omega arith)
    ]

  per_source-eq :
      (counter : Position → ℕ) (v w : ℕ → Position)
      → ((i : ℕ) → i < sources → v i ≡ w i)
      → per_source corpus counter v ≡ per_source corpus counter w
  per_source-eq counter v w h = go 0 sources (λ i lo hi. h i (omega arith))
    where
      go :
          (start count : ℕ)
          → ((i : ℕ) → start ≤ i → i < start + count → v i ≡ w i)
          → map {B = Name × ℕ} (λ i. (name i, counter (v i))) (range start count)
            ≡ map {B = Name × ℕ} (λ i. (name i, counter (w i))) (range start count)
      go start zero h = refl
      go start (suc count) h =
          rw
            (
              h start (omega arith) (omega arith),
              go (suc start) count (λ i lo hi. h i (omega arith) (omega arith)),
            )
            refl

  module _ (seq_len eos_id : ℕ) where
    seg_rest :
        (seg : Seg) (segs : List Seg) (off : ℕ)
        → materialize_buffer corpus eos_id (seg ∷ segs) off
          ≡ take (seg_length seg - off) (drop off (seg_tokens corpus eos_id seg))
            ++ materialize_buffer corpus eos_id segs 0
    unfolding materialize_buffer
    seg_rest (doc src ref doc_len) segs off = refl
    seg_rest eos segs zero = refl
    seg_rest eos segs (suc zero) = refl
    seg_rest eos segs (suc (suc off)) =
        let none_left : 1 - suc (suc off) ≡ 0 = omega arith in
        rw (le→ltb-false (suc (suc off)) 1 (omega arith), none_left) refl
    seg_rest (lit xs) segs off = refl

    materialize_buffer-flat :
        (segs : List Seg) (off : ℕ)
        → All (Measured corpus eos_id) segs
        → HeadFits corpus eos_id segs off
        → materialize_buffer corpus eos_id segs off ≡ drop off (flat corpus eos_id segs)
    unfolding materialize_buffer
    materialize_buffer-flat [] off known fits = rw fits refl
    materialize_buffer-flat (seg ∷ segs) off known fits =
        seg_rest seg segs off
        ∙ rw
            (
              take_of_length-le (seg_length seg - off) (drop off (seg_tokens corpus eos_id seg))
                  (omega (arith, size_left corpus eos_id seg segs off known.0 fits)),
              materialize_buffer-flat segs 0 known.1 (zero_fits corpus eos_id seq_len segs),
            )
            (sym (open_front corpus eos_id seg segs off known.0 fits))

    -- A view in step with the stream saves the state that the stream would.
    pub view_state-stream_state :
        {v : View corpus} {s : Stream corpus}
        → Simulates corpus seq_len eos_id v s
        → view_state corpus eos_id v ≡ stream_state corpus s
    unfolding view_state stream_state
    view_state-stream_state {v} {s} sim =
        rw
          (
            per_source-eq Position.consumed v.walkers s.walkers sim.walkers,
            per_source-eq Position.epoch v.walkers s.walkers sim.walkers,
            sim.rng,
            materialize_buffer-flat v.segs v.head_off sim.measured sim.fits,
            sim.buffer,
            sim.windows,
          )
          refl

    carried-flat : (xs : List ℕ) → flat corpus eos_id (carried corpus xs) ≡ xs
    carried-flat [] = refl
    carried-flat (x ∷ xs) = append-nil (x ∷ xs)

    carried-Measured : (xs : List ℕ) → All (Measured corpus eos_id) (carried corpus xs)
    carried-Measured [] = tt
    carried-Measured (x ∷ xs) = (tt, tt)

    restored_walkers :
        DistinctNames
        → (s : Stream corpus) (i : ℕ) → i < sources
        → start_walkers corpus (some (stream_state corpus s)) i ≡ s.walkers i
    unfolding start_walkers stream_state
    restored_walkers distinct s i h =
        rw
          (
            dict_get-per_source distinct (λ j. Position.consumed (s.walkers j)) 0 sources i 0
                (omega arith) (omega arith) (omega arith),
            dict_get-per_source distinct (λ j. Position.epoch (s.walkers j)) 0 sources i 0
                (omega arith) (omega arith) (omega arith),
          )
          refl

    -- A view started from a stream's state is in step with that stream.
    pub start_view-Simulates :
        DistinctNames
        → (fresh : Rng) (s : Stream corpus)
        → Simulates corpus seq_len eos_id (start_view corpus fresh (some (stream_state corpus s))) s
    unfolding start_view stream_state start_rng
    start_view-Simulates distinct fresh s = record {
      rng = refl;
      walkers = restored_walkers distinct s;
      buffer = carried-flat s.buf;
      buf_len = refl;
      measured = carried-Measured s.buf;
      fits = zero_fits corpus eos_id seq_len (carried corpus s.buf);
      windows = refl;
    }

    -- Without a state, both start in step.
    pub start_view-fresh :
        (fresh : Rng)
        → Simulates corpus seq_len eos_id
            (start_view corpus fresh none)
            (start_stream corpus fresh none)
    unfolding start_view start_stream start_rng
    start_view-fresh fresh = record {
      rng = refl;
      walkers = λ i h. refl;
      buffer = refl;
      buf_len = refl;
      measured = tt;
      fits = refl;
      windows = refl;
    }
