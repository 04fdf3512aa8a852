-- ===== src/GlobalStream/Corpus.antt =====
-- What the stream of src/pretrain/data/global_stream.py asks of its sources: the draw of a source,
-- the walk to a source's next document, and the document's length and tokens.
-- `next_ref` is `_SourceWalker.next_document_ref` of src/pretrain/data/mix_sampler.py as a function of
-- the walker's counters, `tokens` and `doc_length` are `document` and `document_length` of the
-- reader in src/pretrain/data/indexed_dataset.py. `choose` stands for numpy's
-- `Generator.choice(n, p=weights)`, which returns an index below `n`.
use open_transformers.Prelude.{ℕ, ◌<◌, ◌≡◌, List, length, ◌==◌, if◌then◌else◌}

-- The two counters of a `_SourceWalker`.
pub record Position : Type 0 where
  pub consumed : ℕ
  pub epoch : ℕ

-- A shard of a source and a document in it.
abbrev pub DocRef : Type 0
DocRef = ℕ × ℕ

pub record Corpus : Type 1 where
  pub Name : Type 0
  pub name_discrete : Discrete Name
  pub Rng : Type 0
  pub sources : ℕ
  pub name : ℕ → Name
  pub choose : Rng → ℕ × Rng
  pub choose-lt : (rng : Rng) → (choose rng).0 < sources
  pub next_ref : ℕ → Position → DocRef × Position
  pub tokens : ℕ → DocRef → List ℕ
  pub doc_length : ℕ → DocRef → ℕ
  pub length-tokens : (src : ℕ) (ref : DocRef) → length (tokens src ref) ≡ doc_length src ref

-- `walkers[src]` after its walker has moved.
unfoldable pub moved : ℕ → Position → (ℕ → Position) → ℕ → Position
moved src position walkers i = if i == src then position else walkers i
