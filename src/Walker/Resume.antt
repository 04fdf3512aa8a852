-- ===== src/Walker/Resume.antt =====
-- A walker of src/pretrain/data/mix_sampler.py is determined by the two counters that are saved.
use open_transformers.Prelude.{
  item, ℕ, zero, suc, ◌+◌, ◌*◌, ◌≡◌, refl, ap, List, [], ◌∷◌, length, leb, Result, ok, >>=-eq-ok,
  Bool-cases, inl, inr,
}
use open_transformers.Walker.{SourceWalker, start_walker, next_document, next_documents}

last-eq {ℓ} :
    {A : Type ℓ} (a b : A) (x y : SourceWalker)
    → ◌≡◌ {A = Result (A × SourceWalker)} (ok (a, x)) (ok (b, y))
    → x ≡ y
last-eq a b x y e = cc

module _ (perm : ℕ → List ℕ) where
  -- The walker holds the permutation of its epoch.
  Current : SourceWalker → Type 0
  Current self = self.global_perm ≡ perm self.epoch

  next_document-Current :
      (self after : SourceWalker) (document : ℕ)
      → Current self
      → next_document perm self ≡ ok (document, after)
      → Current after
  unfolding next_document Current
  next_document-Current self after document same made =
      elim (Bool-cases
        (leb (length self.global_perm) (self.consumed * self.world_size + self.rank))) [
          | inl over ↦
              let (found, there, out) =
                >>=-eq-ok (item (perm (self.epoch + 1)) self.rank) _ (rw over at made) in
              rw (← last-eq found document _ after out) refl
          | inr within ↦
              let (found, there, out) =
                >>=-eq-ok (item self.global_perm (self.consumed * self.world_size + self.rank)) _
                  (rw within at made) in
              rw (← last-eq found document _ after out) same
        ]

  next_documents-Current :
      (count : ℕ) (self last : SourceWalker) (documents : List ℕ)
      → Current self
      → next_documents perm count self ≡ ok (documents, last)
      → Current last
  unfolding next_documents Current
  next_documents-Current zero self last documents same made =
      rw (← last-eq [] documents self last made) same
  next_documents-Current (suc count) self last documents same made =
      let (first, here, drawn) = >>=-eq-ok (next_document perm self) _ made in
      let (rest, there, out) = >>=-eq-ok (next_documents perm count first.1) _ drawn in
      rw (← last-eq (first.0 ∷ rest.0) documents rest.1 last out) (
        next_documents-Current count first.1 rest.1 rest.0
          (next_document-Current self first.1 first.0 same here) there)

  -- A walker that was started anywhere and has drawn any number of documents is the walker that is
  -- started from the two counters that it saves.
  pub next_documents-start_walker :
      (rank world_size consumed epoch count : ℕ) (documents : List ℕ) (last : SourceWalker)
      → next_documents perm count (start_walker perm rank world_size consumed epoch)
        ≡ ok (documents, last)
      → last ≡ start_walker perm last.rank last.world_size last.consumed last.epoch
  unfolding start_walker Current
  next_documents-start_walker rank world_size consumed epoch count documents last made =
      let current =
        next_documents-Current count (start_walker perm rank world_size consumed epoch) last
          documents refl made in
      ap (λ (p : List ℕ). record last { global_perm = p }) current
