-- ===== src/GlobalStream/View.antt =====
-- `ShardedWindowView` of src/pretrain/data/global_stream.py: the buffer of segments, and what a rank
-- yields step by step.
use open_transformers.Prelude.{
  ℕ, zero, suc, ◌+◌, ◌-◌, min, Bool, true, false, List, [], ◌∷◌, ◌++◌, Option, none, some, ltb,
  ◌==◌, if◌then◌else◌, length, take, drop, replicate, Result, ok, raise, index_error, runtime_error,
  ◌>>=◌,
}
use open_transformers.BatchSchedule.{owner_rank, TrainConfig, StepPlan, iter_step_plans}
use open_transformers.GlobalStream.Corpus.{Position, DocRef, Corpus, moved}

-- A segment of the length-walk buffer: a document, the separator behind one, or literal tokens from
-- a checkpoint. The first carries the recorded length, `document_length`.
pub data Seg : Type 0 where
  doc : (src : ℕ) (ref : DocRef) (doc_len : ℕ) → Seg
  eos : Seg
  lit : List ℕ → Seg

abbrev pub seg_length : Seg → ℕ
seg_length (doc src ref doc_len) = doc_len
seg_length eos = 1
seg_length (lit xs) = length xs

-- What `_span_sink` gets: a window, and the half-open range of a document's tokens in it.
pub record Span : Type 0 where
  pub window : ℕ
  pub source : ℕ
  pub ref : DocRef
  pub tok_start : ℕ
  pub tok_end : ℕ

-- What `_take` leaves: the pieces read, the spans, and the buffer.
pub record Taken : Type 0 where
  pub pieces : List ℕ
  pub spans : List Span
  pub segs : List Seg
  pub head_off : ℕ

abbrev pub span_of : ℕ → Seg → ℕ → ℕ → List Span
span_of window (doc src ref doc_len) off t =
    record { window = window; source = src; ref = ref; tok_start = off; tok_end = off + t } ∷ []
span_of window eos off t = []
span_of window (lit xs) off t = []

module _ (corpus : Corpus) where
  open corpus use {Rng, choose, next_ref, tokens, doc_length}

  pub record View : Type 0 where
    pub rng : Rng
    pub walkers : ℕ → Position
    pub segs : List Seg
    pub head_off : ℕ
    pub buf_len : ℕ
    pub windows_emitted : ℕ

  module _ (seq_len eos_id : ℕ) where
    unfoldable pub refill : View → View
    refill self =
        let (src, rng) = choose self.rng in
        let (ref, position) = next_ref src (self.walkers src) in
        let doc_len = doc_length src ref in
        record self {
          rng = rng;
          walkers = moved src position self.walkers;
          segs = self.segs ++ (doc src ref doc_len ∷ eos ∷ []);
          buf_len = self.buf_len + (doc_len + 1);
        }

    -- The tokens that a turn of `_take` reads, if it is told to.
    unfoldable pub payload : Bool → Seg → ℕ → ℕ → List ℕ
    payload false seg off t = []
    payload true (doc src ref doc_len) off t = take t (drop off (tokens src ref))
    payload true eos off t = replicate t eos_id
    payload true (lit xs) off t = take t (drop off xs)

    -- `while remaining > 0` of `_take`. Each turn pops a segment or is the last one, so one more than
    -- the segments is fuel enough.
    unfoldable pub take_loop : ℕ → Bool → ℕ → List Seg → ℕ → ℕ → Result Taken
    take_loop zero materialize window segs off remaining = raise runtime_error
    take_loop (suc fuel) materialize window segs off remaining =
        let turn : Result Taken = elim segs [
          | [] ↦ raise index_error
          | seg ∷ rest ↦ do
            let avail = seg_length seg - off
            let t = min avail remaining
            let popped = off + t == seg_length seg
            out ←
                take_loop fuel materialize window (if popped then rest else seg ∷ rest)
                  (if popped then 0 else off + t) (remaining - t)
            ok (record out {
              pieces = payload materialize seg off t ++ out.pieces;
              spans = span_of window seg off t ++ out.spans;
            })
        ] in
        if ltb 0 remaining
        then turn
        else ok (record { pieces = []; spans = []; segs = segs; head_off = off })

    -- `_take`, with the window's tokens if they were read.
    unfoldable pub take_tokens : View → ℕ → Bool → Result (Option (List ℕ) × List Span × View)
    take_tokens self n materialize = do
      out ←
          take_loop (length self.segs + 1) materialize self.windows_emitted self.segs self.head_off
            n
      ok (
        if materialize then some (out.pieces) else none,
        out.spans,
        record self { segs = out.segs; head_off = out.head_off; buf_len = self.buf_len - n },
      )

    -- `while self._buf_len < target_len`, as in `Windows.fill`.
    unfoldable pub fill : ℕ → View → View
    fill zero self = self
    fill (suc fuel) self =
        let rest = fill fuel (refill self) in if ltb self.buf_len (seq_len + 1) then rest else self

    unfoldable pub take_window : View → Bool → Result (Option (List ℕ) × List Span × View)
    take_window self materialize = do
      (window, spans, after) ← take_tokens (fill (seq_len + 1) self) (seq_len + 1) materialize
      ok (window, spans, record after { windows_emitted = after.windows_emitted + 1 })

    -- `[self._take_window(materialize=owned) for _ in range(count)]`.
    unfoldable pub take_windows : ℕ → Bool → View → Result (List (Option (List ℕ)) × View)
    take_windows zero owned self = ok ([], self)
    take_windows (suc count) owned self = do
      (window, spans, after) ← take_window self owned
      (windows, last) ← take_windows count owned after
      ok (window ∷ windows, last)

    -- A step of `__iter__`: the micro-batches `m`, …, `m + count - 1`, and those that the rank owns.
    unfoldable pub take_step :
        (mb world_size rank m count : ℕ) → View → Result (List (List (Option (List ℕ))) × View)
    take_step mb world_size rank m zero self = ok ([], self)
    take_step mb world_size rank m (suc count) self = do
      let owned = owner_rank m world_size == rank
      (windows, after) ← take_windows mb owned self
      (batches, last) ← take_step mb world_size rank (m + 1) count after
      ok (if owned then windows ∷ batches else batches, last)

    -- The steps of the plans: for each the rank's micro-batches.
    unfoldable pub take_steps :
        (mb world_size rank : ℕ)
        → List StepPlan
        → View
        → Result (List (List (List (Option (List ℕ)))) × View)
    take_steps mb world_size rank [] self = ok ([], self)
    take_steps mb world_size rank (plan ∷ plans) self = do
      (batches, after) ← take_step mb world_size rank 0 plan.microbatches self
      (steps, last) ← take_steps mb world_size rank plans after
      ok (batches ∷ steps, last)

    -- The first `count` steps of `__iter__`.
    unfoldable pub iterate :
        (train : TrainConfig) (mb world_size rank start_consumed_tokens start_step count : ℕ)
        → View
        → Result (List (List (List (Option (List ℕ)))) × View)
    iterate train mb world_size rank start_consumed_tokens start_step count self = do
      (plans, last) ← iter_step_plans count train (record {
        consumed_tokens = start_consumed_tokens;
        windows_emitted = self.windows_emitted;
        step = start_step;
      })
      take_steps mb world_size rank plans self
