-- ===== src/GlobalStream/Windows.antt =====
-- `GlobalStream` of src/pretrain/data/global_stream.py: refilling the buffer and cutting windows.
use open_transformers.Prelude.{
  ℕ, zero, suc, ◌+◌, List, [], ◌∷◌, ◌++◌, ltb, if◌then◌else◌, length, take, drop,
}
use open_transformers.GlobalStream.Corpus.{Position, Corpus, moved}

module _ (corpus : Corpus) where
  open corpus use {Rng, choose, next_ref, tokens}

  pub record Stream : Type 0 where
    pub rng : Rng
    pub walkers : ℕ → Position
    pub buf : List ℕ
    pub windows_emitted : ℕ

  module _ (seq_len eos_id : ℕ) where
    unfoldable pub refill : Stream → Stream
    refill self =
        let (src, rng) = choose self.rng in
        let (ref, position) = next_ref src (self.walkers src) in
        record self {
          rng = rng;
          walkers = moved src position self.walkers;
          buf = self.buf ++ (tokens src ref ++ eos_id ∷ []);
        }

    -- `while len(self._buf) < target_len`. Each turn adds at least the separator, so `target_len` is
    -- fuel enough.
    unfoldable pub fill : ℕ → Stream → Stream
    fill zero self = self
    fill (suc fuel) self =
        let rest = fill fuel (refill self) in
        if ltb (length self.buf) (seq_len + 1) then rest else self

    -- One turn of `__iter__`.
    unfoldable pub next_window : Stream → List ℕ × Stream
    next_window self =
        let filled = fill (seq_len + 1) self in
        (
          take (seq_len + 1) filled.buf,
          record filled {
            buf = drop (seq_len + 1) filled.buf;
            windows_emitted = filled.windows_emitted + 1;
          },
        )

    -- The next `count` windows.
    unfoldable pub next_windows : ℕ → Stream → List (List ℕ) × Stream
    next_windows zero self = ([], self)
    next_windows (suc count) self =
        let (window, after) = next_window self in
        let (windows, last) = next_windows count after in (window ∷ windows, last)
