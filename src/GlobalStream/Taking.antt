-- ===== src/GlobalStream/Taking.antt =====
-- `_take` of src/pretrain/data/global_stream.py against the tokens that the buffer stands for.
use open_transformers.Prelude.{
  ℕ, zero, suc, ◌+◌, ◌-◌, ◌≤◌, ◌<◌, min, ◌≡◌, refl, sym, ap, ◌∙◌, Bool, true, false, List, [], ◌∷◌,
  ◌++◌, append-nil, ltb, ◌==◌, length, length-append, length-drop, take, drop, All, ok, arith,
  Bool-cases, inl, inr, ltb-false, ltb→lt, ==_iff,
}
use open_transformers.Prelude.Slices.{
  take-append_le, take-append_ge, drop-append_le, drop-append_ge, drop-drop, take_of_length-le,
}
use open_transformers.GlobalStream.Corpus.{Corpus}
use open_transformers.GlobalStream.View.{
  Seg, doc, eos, lit, seg_length, Taken, span_of, payload, take_loop,
}

module _ (corpus : Corpus) (eos_id : ℕ) where
  open corpus use {tokens, doc_length, length-tokens}

  -- The tokens that a segment and a list of segments stand for.
  abbrev pub seg_tokens : Seg → List ℕ
  seg_tokens (doc src ref doc_len) = tokens src ref
  seg_tokens eos = eos_id ∷ []
  seg_tokens (lit xs) = xs

  abbrev pub flat : List Seg → List ℕ
  flat [] = []
  flat (seg ∷ segs) = seg_tokens seg ++ flat segs

  -- A document's segment carries its length.
  abbrev pub Measured : Seg → Type 0
  Measured (doc src ref doc_len) = doc_len ≡ doc_length src ref
  Measured eos = Unit
  Measured (lit xs) = Unit

  -- The offset lies in the first segment.
  abbrev pub HeadFits : List Seg → ℕ → Type 0
  HeadFits [] off = off ≡ 0
  HeadFits (seg ∷ segs) off = off ≤ seg_length seg

  pub length-seg_tokens : (seg : Seg) → Measured seg → length (seg_tokens seg) ≡ seg_length seg
  length-seg_tokens (doc src ref doc_len) h = length-tokens src ref ∙ sym h
  length-seg_tokens eos h = refl
  length-seg_tokens (lit xs) h = refl

  payload-take :
      (seq_len : ℕ) (seg : Seg) (off t : ℕ)
      → off + t ≤ seg_length seg
      → payload corpus seq_len eos_id true seg off t ≡ take t (drop off (seg_tokens seg))
  unfolding payload
  payload-take seq_len (doc src ref doc_len) off t h = refl
  payload-take seq_len (lit xs) off t h = refl
  payload-take seq_len eos zero zero h = refl
  payload-take seq_len eos zero (suc zero) h = refl
  payload-take seq_len eos zero (suc (suc t)) h = absurd (omega arith)
  payload-take seq_len eos (suc zero) zero h = refl
  payload-take seq_len eos (suc off) (suc t) h = absurd (omega arith)
  payload-take seq_len eos (suc (suc off)) zero h = absurd (omega arith)

  -- What a front of the buffer of `n` tokens leaves: the tokens themselves, and the rest.
  pub record TookFront (materialize : Bool) (segs : List Seg) (off n : ℕ) (out : Taken)
      : Type 0 where
    pub front : materialize ≡ true → out.pieces ≡ take n (drop off (flat segs))
    pub rest : drop out.head_off (flat out.segs) ≡ drop n (drop off (flat segs))
    pub measured : All Measured out.segs
    pub fits : HeadFits out.segs out.head_off

  module _ (seg : Seg) (segs : List Seg) (off : ℕ) (known : Measured seg)
      (fits : off ≤ seg_length seg) where
    size : length (seg_tokens seg) ≡ seg_length seg
    size = length-seg_tokens seg known

    pub open_front : drop off (seg_tokens seg ++ flat segs) ≡ drop off (seg_tokens seg) ++ flat segs
    open_front = drop-append_le off (seg_tokens seg) (flat segs) (omega (arith, size))

    pub size_left : length (drop off (seg_tokens seg)) ≡ seg_length seg - off
    size_left = length-drop off (seg_tokens seg) ∙ ap (λ (t : ℕ). t - off) size

    -- A turn that empties the segment.
    front_pop :
        (n : ℕ)
        → seg_length seg - off ≤ n
        → take n (drop off (flat (seg ∷ segs)))
          ≡ take (seg_length seg - off) (drop off (seg_tokens seg))
            ++ take (n - (seg_length seg - off)) (flat segs)
    front_pop n h =
        ap (take n) open_front
        ∙ take-append_ge n (drop off (seg_tokens seg)) (flat segs) (omega (arith, size_left))
        ∙ rw (
          size_left,
          take_of_length-le (seg_length seg - off) (drop off (seg_tokens seg))
              (omega (arith, size_left)),
        )

    rest_pop :
        (n : ℕ)
        → seg_length seg - off ≤ n
        → drop n (drop off (flat (seg ∷ segs))) ≡ drop (n - (seg_length seg - off)) (flat segs)
    rest_pop n h =
        ap (drop n) open_front
        ∙ drop-append_ge n (drop off (seg_tokens seg)) (flat segs) (omega (arith, size_left))
        ∙ rw size_left

    -- A turn that stays in the segment.
    front_stay :
        (n : ℕ)
        → n ≤ seg_length seg - off
        → take n (drop off (flat (seg ∷ segs))) ≡ take n (drop off (seg_tokens seg))
    front_stay n h =
        ap (take n) open_front
        ∙ take-append_le n (drop off (seg_tokens seg)) (flat segs) (omega (arith, size_left))

  module _ (seq_len : ℕ) where
    stopped :
        (mat : Bool) (segs : List Seg) (off : ℕ)
        → All Measured segs
        → HeadFits segs off
        → TookFront mat segs off 0 (record { pieces = []; spans = []; segs = segs; head_off = off })
    stopped mat segs off known fits = record {
      front = λ e. refl;
      rest = refl;
      measured = known;
      fits = fits;
    }

    popped_front :
        (mat : Bool) (w : ℕ) (seg : Seg) (segs : List Seg) (off n : ℕ) (out : Taken)
        → Measured seg
        → off ≤ seg_length seg
        → seg_length seg - off ≤ n
        → TookFront mat segs 0 (n - (seg_length seg - off)) out
        → TookFront mat (seg ∷ segs) off n (record out {
          pieces = payload corpus seq_len eos_id mat seg off (seg_length seg - off) ++ out.pieces;
          spans = span_of w seg off (seg_length seg - off) ++ out.spans;
        })
    popped_front mat w seg segs off n out known fits h took = record {
      front = λ e.
          rw
            (
              e,
              payload-take seq_len seg off (seg_length seg - off) (omega arith),
              front_pop seg segs off known fits n h,
            )
            (ap (λ t. take (seg_length seg - off) (drop off (seg_tokens seg)) ++ t) (took.front e));
      rest = took.rest ∙ sym (rest_pop seg segs off known fits n h);
      measured = took.measured;
      fits = took.fits;
    }

    stayed_front :
        (mat : Bool) (w : ℕ) (seg : Seg) (segs : List Seg) (off n : ℕ) (out : Taken)
        → Measured seg
        → off + n ≤ seg_length seg
        → TookFront mat (seg ∷ segs) (off + n) 0 out
        → TookFront mat (seg ∷ segs) off n (record out {
          pieces = payload corpus seq_len eos_id mat seg off n ++ out.pieces;
          spans = span_of w seg off n ++ out.spans;
        })
    stayed_front mat w seg segs off n out known h took = record {
      front = λ e.
          rw
            (
              e,
              took.front e,
              payload-take seq_len seg off n h,
              front_stay seg segs off known (omega arith) n (omega arith),
            )
            (append-nil _);
      rest = took.rest ∙ sym (drop-drop n off (flat (seg ∷ segs)));
      measured = took.measured;
      fits = took.fits;
    }

    left_pop :
        (seg : Seg) (segs : List Seg) (off n : ℕ)
        → Measured seg
        → off ≤ seg_length seg
        → seg_length seg - off ≤ n
        → n ≤ length (drop off (flat (seg ∷ segs)))
        → n - (seg_length seg - off) ≤ length (flat segs)
    left_pop seg segs off n known fits h have = omega (
      arith,
      ap length (open_front seg segs off known fits),
      length-append (drop off (seg_tokens seg)) (flat segs),
      size_left seg segs off known fits,
    )

    take_loop-zero :
        (fuel : ℕ) (mat : Bool) (window : ℕ) (segs : List Seg) (off : ℕ)
        → 0 < fuel
        → take_loop corpus seq_len eos_id fuel mat window segs off 0
          ≡ ok (record { pieces = []; spans = []; segs = segs; head_off = off })
    unfolding take_loop
    take_loop-zero zero mat w segs off h = elim h [ ]
    take_loop-zero (suc fuel) mat w segs off h = refl

    pub zero_fits : (segs : List Seg) → HeadFits segs 0
    zero_fits [] = refl
    zero_fits (seg ∷ segs) = omega arith

    -- A turn of the loop, by what the test of `off == seg_len` says.
    turn_pop :
        (f : ℕ) (mat : Bool) (w : ℕ) (seg : Seg) (segs : List Seg) (off n : ℕ) (out : Taken)
        → ltb 0 n ≡ true
        → min (seg_length seg - off) n ≡ seg_length seg - off
        → (off + (seg_length seg - off) == seg_length seg) ≡ true
        → take_loop corpus seq_len eos_id f mat w segs 0 (n - (seg_length seg - off)) ≡ ok out
        → take_loop corpus seq_len eos_id (suc f) mat w (seg ∷ segs) off n
          ≡ ok (record out {
            pieces = payload corpus seq_len eos_id mat seg off (seg_length seg - off) ++ out.pieces;
            spans = span_of w seg off (seg_length seg - off) ++ out.spans;
          })
    unfolding take_loop
    turn_pop f mat w seg segs off n out more all pops made = rw (more, all, pops, made) refl

    turn_stay :
        (f : ℕ) (mat : Bool) (w : ℕ) (seg : Seg) (segs : List Seg) (off n : ℕ) (out : Taken)
        → ltb 0 n ≡ true
        → min (seg_length seg - off) n ≡ n
        → (off + n == seg_length seg) ≡ false
        → n - n ≡ 0
        → take_loop corpus seq_len eos_id f mat w (seg ∷ segs) (off + n) 0 ≡ ok out
        → take_loop corpus seq_len eos_id (suc f) mat w (seg ∷ segs) off n
          ≡ ok (record out {
            pieces = payload corpus seq_len eos_id mat seg off n ++ out.pieces;
            spans = span_of w seg off n ++ out.spans;
          })
    unfolding take_loop
    turn_stay f mat w seg segs off n out more part stays over made =
        rw (more, part, stays, over, made) refl

    -- With one more fuel than segments, a request that the buffer can meet is met.
    pub take_loop-TookFront :
        (fuel : ℕ) (mat : Bool) (window : ℕ) (segs : List Seg) (off n : ℕ)
        → All Measured segs
        → HeadFits segs off
        → n ≤ length (drop off (flat segs))
        → length segs < fuel
        → (out : Taken) × (take_loop corpus seq_len eos_id fuel mat window segs off n ≡ ok out)
          × TookFront mat segs off n out
    unfolding take_loop
    take_loop-TookFront zero mat w segs off n known fits have fuel = absurd (omega arith)
    take_loop-TookFront (suc f) mat w [] off n known fits have fuel =
        let short : n ≤ 0 = rw fits at have in
        let none_asked : n ≡ 0 = omega arith in
        rw none_asked (_, refl, stopped mat [] off known fits)
    take_loop-TookFront (suc f) mat w (seg ∷ segs) off n known fits have fuel =
        elim (Bool-cases (ltb 0 n)) [
          | inr done ↦
              let none_asked : n ≡ 0 = omega (arith, ltb-false 0 n done) in
              rw none_asked (_, refl, stopped mat (seg ∷ segs) off known fits)
          | inl more ↦ elim (Bool-cases (ltb n (seg_length seg - off))) [
            | inr enough ↦
                let here : seg_length seg - off ≤ n = ltb-false n (seg_length seg - off) enough in
                let (out, made, took) =
                  take_loop-TookFront f mat w segs 0 (n - (seg_length seg - off)) known.1
                    (zero_fits segs) (left_pop seg segs off n known.0 fits here have)
                    (omega arith) in
                (
                  _,
                  turn_pop f mat w seg segs off n out more (ground arith)
                      ((==_iff (off + (seg_length seg - off)) (seg_length seg)).1 (omega arith))
                      made,
                  popped_front mat w seg segs off n out known.0 fits here took,
                )
            | inl short ↦
                let inside : off + n < seg_length seg =
                  omega (arith, ltb→lt n (seg_length seg - off) short) in
                let within : off + n ≤ seg_length seg = omega arith in
                (
                  _,
                  turn_stay f mat w seg segs off n _ more (ground arith) (ground arith)
                      (omega arith) (take_loop-zero f mat w (seg ∷ segs) (off + n) (omega arith)),
                  stayed_front mat w seg segs off n _ known.0 within
                      (stopped mat (seg ∷ segs) (off + n) known within),
                )
          ]
        ]
