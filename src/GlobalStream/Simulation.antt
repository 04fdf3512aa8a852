-- ===== src/GlobalStream/Simulation.antt =====
-- `ShardedWindowView` of src/pretrain/data/global_stream.py simulates `GlobalStream`: both walk one
-- stream, and a window that the view reads is the stream's.
use open_transformers.Prelude.{
  ℕ, zero, suc, ◌+◌, ◌-◌, ◌≤◌, ◌<◌, ◌≡◌, refl, sym, ap, ◌∙◌, Bool, true, false, List, [], ◌∷◌, ◌++◌,
  append_assoc, ltb, if◌then◌else◌, length, length-append, length-drop, take, drop, none, some, All,
  All-append, ok, arith, Bool-cases, inl, inr, ltb-false,
}
use open_transformers.Prelude.Slices.{drop-append_le}
use open_transformers.GlobalStream.Corpus.{Corpus, moved}
use open_transformers.GlobalStream.View.{
  Seg, doc, eos, lit, seg_length, Span, View, take_tokens, take_window, take_windows, take_loop,
}
use open_transformers.GlobalStream.View
use open_transformers.GlobalStream.Windows.{Stream, next_window, next_windows}
use open_transformers.GlobalStream.Windows
use open_transformers.GlobalStream.Taking.{
  seg_tokens, flat, Measured, HeadFits, length-seg_tokens, take_loop-TookFront,
}

module _ (corpus : Corpus) (seq_len eos_id : ℕ) where
  open corpus use {Rng, sources, choose, choose-lt, next_ref, tokens, doc_length, length-tokens}

  -- The view stands where the stream stands: the same draws and documents to come, and the stream's
  -- buffer in its segments.
  pub record Simulates (v : View corpus) (s : Stream corpus) : Type 0 where
    pub rng : v.rng ≡ s.rng
    pub walkers : (i : ℕ) → i < sources → v.walkers i ≡ s.walkers i
    pub buffer : drop v.head_off (flat corpus eos_id v.segs) ≡ s.buf
    pub buf_len : v.buf_len ≡ length s.buf
    pub measured : All (Measured corpus eos_id) v.segs
    pub fits : HeadFits corpus eos_id v.segs v.head_off
    pub windows : v.windows_emitted ≡ s.windows_emitted

  flat-append :
      (xs ys : List Seg)
      → flat corpus eos_id (xs ++ ys) ≡ flat corpus eos_id xs ++ flat corpus eos_id ys
  flat-append [] ys = refl
  flat-append (seg ∷ xs) ys = rw (flat-append xs ys) (
      sym (
        append_assoc (seg_tokens corpus eos_id seg) (flat corpus eos_id xs)
          (flat corpus eos_id ys)))

  -- Documents behind the buffer leave its front alone.
  buffer-append :
      (segs more : List Seg) (off : ℕ)
      → All (Measured corpus eos_id) segs
      → HeadFits corpus eos_id segs off
      → drop off (flat corpus eos_id (segs ++ more))
        ≡ drop off (flat corpus eos_id segs) ++ flat corpus eos_id more
  buffer-append segs more off known fits = rw (flat-append segs more) (front segs known fits)
    where
      front :
          (segs : List Seg)
          → All (Measured corpus eos_id) segs
          → HeadFits corpus eos_id segs off
          → drop off (flat corpus eos_id segs ++ flat corpus eos_id more)
            ≡ drop off (flat corpus eos_id segs) ++ flat corpus eos_id more
      front [] known fits = rw fits
      front (seg ∷ segs) known fits =
          drop-append_le off (flat corpus eos_id (seg ∷ segs)) (flat corpus eos_id more) (
            omega (
              arith,
              length-append (seg_tokens corpus eos_id seg) (flat corpus eos_id segs),
              length-seg_tokens corpus eos_id seg known.0,
            ))

  HeadFits-append :
      (segs more : List Seg) (off : ℕ)
      → HeadFits corpus eos_id segs off
      → HeadFits corpus eos_id (segs ++ more) off
  HeadFits-append [] [] off h = h
  HeadFits-append [] (seg ∷ more) off h = omega arith
  HeadFits-append (seg ∷ segs) more off h = h

  module _ {v : View corpus} {s : Stream corpus} (sim : Simulates v s) where
    drawn : v.walkers (choose v.rng).0 ≡ s.walkers (choose s.rng).0
    drawn = rw sim.rng (sim.walkers _ (choose-lt s.rng))

    same_walk :
        next_ref (choose v.rng).0 (v.walkers (choose v.rng).0)
        ≡ next_ref (choose s.rng).0 (s.walkers (choose s.rng).0)
    same_walk = rw (drawn, sim.rng) refl

    refill-Simulates :
        Simulates (View.refill corpus seq_len eos_id v) (Windows.refill corpus seq_len eos_id s)
    unfolding View.refill Windows.refill moved
    refill-Simulates = record {
      rng = rw sim.rng refl;
      walkers = λ i h. rw (same_walk, sim.rng, sim.walkers i h) refl;
      buffer =
          buffer-append v.segs _ v.head_off sim.measured sim.fits
          ∙ rw (same_walk, sim.rng, sim.buffer) refl;
      buf_len =
          rw (same_walk, sim.rng, sim.buf_len, length-append, length-append, length-tokens) refl;
      measured = All-append (Measured corpus eos_id) v.segs _ sim.measured (refl, (tt, tt));
      fits = HeadFits-append v.segs _ v.head_off sim.fits;
      windows = sim.windows;
    }

  -- A `fill` of either, told to stop by the same test.
  pub fill-Simulates :
      (fuel : ℕ) (v : View corpus) (s : Stream corpus)
      → Simulates v s
      → Simulates
          (View.fill corpus seq_len eos_id fuel v)
          (Windows.fill corpus seq_len eos_id fuel s)
  unfolding View.fill Windows.fill
  fill-Simulates zero v s sim = sim
  fill-Simulates (suc fuel) v s sim = elim (Bool-cases (ltb (length s.buf) (seq_len + 1))) [
    | inl more ↦
        rw (same more, more)
          (fill-Simulates fuel (View.refill corpus seq_len eos_id v)
            (Windows.refill corpus seq_len eos_id s) (refill-Simulates sim))
    | inr full ↦ rw (same full, full) sim
  ]
    where
      same : {b : Bool} → ltb (length s.buf) (seq_len + 1) ≡ b → ltb v.buf_len (seq_len + 1) ≡ b
      same e = rw sim.buf_len e

  grown :
      (s : Stream corpus) (fuel : ℕ)
      → seq_len + 1 ≤ length s.buf + suc fuel
      → seq_len + 1 ≤ length (Windows.refill corpus seq_len eos_id s).buf + fuel
  unfolding Windows.refill
  grown s fuel h = rw (length-append, length-append) (omega arith)

  -- Each refill adds the separator at least, so the fuel fills the buffer.
  pub fill-full :
      (fuel : ℕ) (s : Stream corpus)
      → seq_len + 1 ≤ length s.buf + fuel
      → seq_len + 1 ≤ length (Windows.fill corpus seq_len eos_id fuel s).buf
  unfolding Windows.fill
  fill-full zero s h = omega arith
  fill-full (suc fuel) s h = elim (Bool-cases (ltb (length s.buf) (seq_len + 1))) [
    | inl more ↦ rw more (fill-full fuel (Windows.refill corpus seq_len eos_id s) (grown s fuel h))
    | inr full ↦ rw full (ltb-false (length s.buf) (seq_len + 1) full)
  ]

  read :
      (mat : Bool) (xs ys : List ℕ)
      → (mat ≡ true → xs ≡ ys)
      → (if mat then some xs else none) ≡ (if mat then some ys else none)
  read true xs ys h = ap some (h refl)
  read false xs ys h = refl

  -- What the view's `_take` of a window leaves, where its buffer holds one.
  take_tokens-Simulates :
      (v : View corpus) (s : Stream corpus) (mat : Bool)
      → Simulates v s
      → seq_len + 1 ≤ length s.buf
      → (spans : List Span) × (after : View corpus) × (take_tokens corpus seq_len eos_id v
            (seq_len + 1)
            mat
          ≡ ok (if mat then some (take (seq_len + 1) s.buf) else none, spans, after))
        × Simulates after (record s { buf = drop (seq_len + 1) s.buf })
  unfolding take_tokens
  take_tokens-Simulates v s mat sim full =
      let (out, made, took) =
        take_loop-TookFront corpus eos_id seq_len (length v.segs + 1) mat v.windows_emitted v.segs
          v.head_off (seq_len + 1) sim.measured sim.fits (rw sim.buffer full) (omega arith) in
      (
        out.spans,
        record v { segs = out.segs; head_off = out.head_off; buf_len = v.buf_len - (seq_len + 1) },
        rw
            (
              made,
              read mat out.pieces (take (seq_len + 1) s.buf)
                  (λ e. took.front e ∙ rw sim.buffer refl),
            )
            refl,
        record {
          rng = sim.rng;
          walkers = sim.walkers;
          buffer = took.rest ∙ rw sim.buffer refl;
          buf_len = rw (sim.buf_len, length-drop) refl;
          measured = took.measured;
          fits = took.fits;
          windows = sim.windows;
        },
      )

  -- A window that the view takes is the stream's next one, if it reads it, and the two stay in step.
  pub take_window-Simulates :
      (v : View corpus) (s : Stream corpus) (mat : Bool)
      → Simulates v s
      → (spans : List Span) × (after : View corpus) × (take_window corpus seq_len eos_id v mat
          ≡ ok (if mat then some (next_window corpus seq_len eos_id s).0 else none, spans, after))
        × Simulates after (next_window corpus seq_len eos_id s).1
  unfolding take_window next_window
  take_window-Simulates v s mat sim =
      let (spans, after, made, sim') =
        take_tokens-Simulates (View.fill corpus seq_len eos_id (seq_len + 1) v)
          (Windows.fill corpus seq_len eos_id (seq_len + 1) s) mat
          (fill-Simulates (seq_len + 1) v s sim) (fill-full (seq_len + 1) s (omega arith)) in
      (
        spans,
        _,
        rw made refl,
        record {
          rng = sim'.rng;
          walkers = sim'.walkers;
          buffer = sim'.buffer;
          buf_len = sim'.buf_len;
          measured = sim'.measured;
          fits = sim'.fits;
          windows = ap (λ (t : ℕ). t + 1) sim'.windows;
        },
      )
