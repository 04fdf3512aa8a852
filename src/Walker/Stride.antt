-- ===== src/Walker/Stride.antt =====
-- Which documents the walkers of src/pretrain/data/mix_sampler.py visit within an epoch: the ranks
-- share the permutation's entries, each taken by one rank at one count.
use open_transformers.Prelude.{
  item, ℕ, zero, suc, ◌+◌, ◌*◌, ◌≤◌, ◌<◌, ◌≡◌, refl, ap, ◌∙◌, List, [], ◌∷◌, some, length,
  get_elem?, leb, ok, ◌>>=◌, false, arith,
}
use open_transformers.Walker.{SourceWalker, start_walker, next_document, next_documents}

leb-false : (a b : ℕ) → b < a → leb a b ≡ false
leb-false a b h = ground arith

get_elem?-some : (xs : List ℕ) (i : ℕ) → i < length xs → (x : ℕ) × (get_elem? xs i ≡ some x)
get_elem?-some [] i h = absurd (omega arith)
get_elem?-some (x ∷ xs) zero h = (x, refl)
get_elem?-some (x ∷ xs) (suc i) h = get_elem?-some xs i (omega arith)

module _ (perm : ℕ → List ℕ) where
  -- The entry that the walker takes after `i` more documents of its epoch.
  abbrev pub entry : SourceWalker → ℕ → ℕ
  entry self i = (self.consumed + i) * self.world_size + self.rank

  -- Within the epoch a step takes the entry at the counter.
  next_document-inside :
      (self : SourceWalker)
      → self.consumed * self.world_size + self.rank < length self.global_perm
      → (document : ℕ) × (next_document perm self
          ≡ ok (document, record self { consumed = self.consumed + 1 }))
        × (get_elem? self.global_perm (self.consumed * self.world_size + self.rank) ≡ some document)
  unfolding next_document
  next_document-inside self h =
      let (document, there) = get_elem?-some self.global_perm _ h in
      (document, rw (leb-false (length self.global_perm) _ h, there) refl, there)

  shift : (c n : ℕ) → c + 1 + n ≡ c + suc n
  shift c n = omega arith

  split : (c n w : ℕ) → (c + suc n) * w ≡ c * w + n * w + w
  split c n w = grind arith

  extend :
      (self : SourceWalker) (document : ℕ) (documents : List ℕ) (count : ℕ)
      → get_elem? self.global_perm (self.consumed * self.world_size + self.rank) ≡ some document
      → ((i : ℕ)
          → i < count
          → get_elem? documents i
            ≡ get_elem? self.global_perm (entry (record self { consumed = self.consumed + 1 }) i))
      → (i : ℕ) → i < suc count
      → get_elem? (document ∷ documents) i ≡ get_elem? self.global_perm (entry self i)
  extend self document documents count there found zero lt =
      let same : self.consumed + 0 ≡ self.consumed = omega arith in rw (same, there) refl
  extend self document documents count there found (suc i) lt =
      found i (omega arith)
      ∙ ap (λ (c : ℕ). get_elem? self.global_perm (c * self.world_size + self.rank))
          (shift self.consumed i)

  -- While the last entry lies within the epoch's permutation, drawing `count` documents succeeds, and
  -- the documents are the entries at a distance of `world_size`, from the walker's counter on.
  pub next_documents-stride :
      (count : ℕ) (self : SourceWalker)
      → entry self count < length self.global_perm + self.world_size
      → (documents : List ℕ) × (next_documents perm count self
          ≡ ok (documents, record self { consumed = self.consumed + count }))
        × (length documents ≡ count)
        × ((i : ℕ) → i < count → get_elem? documents i ≡ get_elem? self.global_perm (entry self i))
  unfolding next_documents
  next_documents-stride zero self h =
      let same : self.consumed + 0 ≡ self.consumed = omega arith in
      ([], rw same refl, refl, λ i lt. absurd (omega arith))
  next_documents-stride (suc count) self h =
      let here : self.consumed * self.world_size + self.rank < length self.global_perm =
        omega (arith, split self.consumed count self.world_size) in
      let (document, made, there) = next_document-inside self here in
      let (documents, drawn, size, found) =
        next_documents-stride count (record self { consumed = self.consumed + 1 })
          (rw (shift self.consumed count) h) in
      (
        document ∷ documents,
        rw (made, drawn, shift self.consumed count) refl,
        ap suc size,
        extend self document documents count there found,
      )

  -- A walker at the end of its epoch takes the rank's first entry of the next epoch's permutation,
  -- and is an `IndexError` where that is too short for the rank.
  pub next_document_rollover :
      (self : SourceWalker)
      → length self.global_perm ≤ self.consumed * self.world_size + self.rank
      → next_document perm self ≡ (do
        document ← item (perm (self.epoch + 1)) self.rank
        ok (document, start_walker perm self.rank self.world_size 1 (self.epoch + 1)))
  unfolding next_document start_walker
  next_document_rollover self h = ground arith
