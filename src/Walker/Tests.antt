-- ===== src/Walker/Tests.antt =====
-- The theorems on the walkers of src/pretrain/data/mix_sampler.py at a source of five documents.
use open_transformers.Walker.Shuffle.{count, Shuffling, build_global_perm}
use open_transformers.Walker.Documents.{count-build_global_perm}
use open_transformers.Prelude.{
  true, false, All, range, ltb, leb, if◌then◌else◌, ◌≤◌, ◌<◌, ◌∙◌, ◌++◌, length, ℕ, zero, suc, ◌+◌,
  ◌≡◌, refl, List, [], ◌∷◌, ok, arith,
}
use open_transformers.Walker.{SourceWalker, start_walker, next_document, next_documents}

abbrev perm : ℕ → List ℕ
perm zero = 2 ∷ 0 ∷ 4 ∷ 3 ∷ 1 ∷ []
perm (suc epoch) = 4 ∷ 3 ∷ 2 ∷ 1 ∷ 0 ∷ []

-- Rank 1 of 2 at the start, and at the end of epoch 0.
abbrev early : SourceWalker
early = start_walker perm 1 2 0 0

abbrev late : SourceWalker
late = start_walker perm 1 2 2 0

walk_test : next_documents perm 3 early ≡ ok (0 ∷ 3 ∷ 3 ∷ [], start_walker perm 1 2 1 1)
unfolding next_documents next_document start_walker
walk_test = refl

-- Generators that leave the order as it is, and a search from the front.
abbrev leading : List ℕ → ℕ → ℕ
leading [] v = 0
leading (x ∷ xs) v = let rest = leading xs v in if leb x v then suc rest else 0

leading-append :
    (v : ℕ) (xs ys : List ℕ)
    → All (λ x. x ≤ v) xs
    → All (λ y. v < y) ys
    → leading (xs ++ ys) v ≡ length xs
leading-append v [] [] low high = refl
leading-append v [] (y ∷ ys) low high =
    let above : leb y v ≡ false = ground (arith, high.0) in rw above refl
leading-append v (x ∷ xs) ys low high =
    let below : leb x v ≡ true = ground (arith, low.0) in
    rw (below, leading-append v xs ys low.1 high) refl

count-range :
    (start size v : ℕ)
    → count v (range start size)
      ≡ (if leb start v then (if ltb v (start + size) then 1 else 0) else 0)
count-range start zero v = ground arith
count-range start (suc size) v = rw (count-range (suc start) size v) (ground arith)

abbrev ordered : Shuffling
ordered = record {
  sha256 = λ bytes. bytes;
  permutation = λ key n. range 0 n;
  count-permutation = λ key n v. count-range 0 n v ∙ ground arith;
  searchsorted = leading;
  searchsorted-append = leading-append;
}

count-build_global_perm_example :
    (perm : List ℕ) × (build_global_perm ordered 7 (97 ∷ []) (2 ∷ 3 ∷ 1 ∷ []) 0 ≡ ok perm)
    × (count 4 perm ≡ (if ltb 4 6 then 1 else 0))
count-build_global_perm_example =
    count-build_global_perm ordered 7 (97 ∷ []) (2 ∷ 3 ∷ 1 ∷ []) 0 4 (omega arith)
