-- ===== src/Walker.antt =====
-- `_SourceWalker` of src/pretrain/data/mix_sampler.py: one source's walk over its documents, in the
-- order of a permutation per epoch, of which each rank takes every `world_size`-th entry.
-- `build_global_perm` stands for `_build_global_perm`, which depends on the walker's seed, its
-- source and the epoch. The walker here yields the document's number in the source.
pub mod Shuffle
mod Numbering
mod Documents
mod Stride
mod Resume
mod Tests
use open_transformers.Prelude.{
  ℕ, zero, suc, ◌+◌, ◌*◌, List, [], ◌∷◌, Option, none, some, length, item, leb, if◌then◌else◌,
  Result, ok, raise, index_error, ◌>>=◌,
}

pub record SourceWalker : Type 0 where
  pub rank : ℕ
  pub world_size : ℕ
  pub consumed : ℕ
  pub epoch : ℕ
  pub global_perm : List ℕ

module _ (build_global_perm : ℕ → List ℕ) where
  unfoldable pub start_walker : (rank world_size start_consumed start_epoch : ℕ) → SourceWalker
  start_walker rank world_size start_consumed start_epoch = record {
    rank = rank;
    world_size = world_size;
    consumed = start_consumed;
    epoch = start_epoch;
    global_perm = build_global_perm start_epoch;
  }

  unfoldable pub next_document : SourceWalker → Result (ℕ × SourceWalker)
  next_document self =
      let idx_in_perm = self.consumed * self.world_size + self.rank in
      if leb (length self.global_perm) idx_in_perm
      then (do
        let perm = build_global_perm (self.epoch + 1)
        global_doc ← item perm self.rank
        ok (global_doc, record self { consumed = 1; epoch = self.epoch + 1; global_perm = perm }))
      else (do
        global_doc ← item self.global_perm idx_in_perm
        ok (global_doc, record self { consumed = self.consumed + 1 }))

  -- The next `count` documents.
  unfoldable pub next_documents : ℕ → SourceWalker → Result (List ℕ × SourceWalker)
  next_documents zero self = ok ([], self)
  next_documents (suc count) self = do
    (document, after) ← next_document self
    (documents, last) ← next_documents count after
    ok (document ∷ documents, last)
