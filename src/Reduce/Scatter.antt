-- ===== src/Reduce/Scatter.antt =====
-- `DeterministicReduceScatter` of src/pretrain/parallel/deterministic_reduce.py. A buffer is the list
-- of its elements, and `scale` multiplies by 1 / ws.
use open_transformers.Prelude.{
  ℕ, zero, suc, ◌*◌, ◌≡◌, refl, sym, ap, Bool, List, [], ◌∷◌, map, range, take, drop, if◌then◌else◌,
  Result, ok, ◌>>=◌,
}
use open_transformers.Reduce.Norm.{ascending_sum}
use open_transformers.Reduce.PerTensor.{add_vectors}

-- Chunk `d` of a buffer that is laid out as chunks of `k`.
abbrev pub chunk_of {ℓ} : {S : Type ℓ} → ℕ → ℕ → List S → List S
chunk_of k d buffer = take k (drop (d * k) buffer)

module _ {ℓ} {S : Type ℓ} (add : S → S → S) (scale : ℕ → S → S) where
  -- What rank `r` of `ws` receives: of every source the chunk that is destined for it.
  unfoldable pub all_to_all : (ws k : ℕ) → (ℕ → List S) → ℕ → List (List S)
  all_to_all ws k inputs r = map (λ src. chunk_of k r (inputs src)) (range 0 ws)

  -- `acc.mul_(1.0 / ws)`, if the operation is `AVG`.
  abbrev pub averaged : Bool → ℕ → List S → List S
  averaged avg ws acc = if avg then map (scale ws) acc else acc

  -- The output of rank `r`, where rank `src` has the input `inputs src`.
  unfoldable pub reduce_scatter : (avg : Bool) (ws k : ℕ) → (ℕ → List S) → ℕ → Result (List S)
  reduce_scatter avg ws k inputs r = do
    acc ← ascending_sum (add_vectors add) (all_to_all ws k inputs r)
    ok (averaged avg ws acc)

  pub take-add_vectors :
      (k : ℕ) (xs ys : List S)
      → take k (add_vectors add xs ys) ≡ add_vectors add (take k xs) (take k ys)
  unfolding add_vectors
  take-add_vectors zero xs ys = refl
  take-add_vectors (suc k) [] ys = refl
  take-add_vectors (suc k) (x ∷ xs) [] = refl
  take-add_vectors (suc k) (x ∷ xs) (y ∷ ys) = ap (◌∷◌ (add x y)) (take-add_vectors k xs ys)

  add_vectors-nil : (xs : List S) → add_vectors add xs [] ≡ []
  unfolding add_vectors
  add_vectors-nil [] = refl
  add_vectors-nil (x ∷ xs) = refl

  pub drop-add_vectors :
      (n : ℕ) (xs ys : List S)
      → drop n (add_vectors add xs ys) ≡ add_vectors add (drop n xs) (drop n ys)
  unfolding add_vectors
  drop-add_vectors zero xs ys = refl
  drop-add_vectors (suc n) [] ys = refl
  drop-add_vectors (suc n) (x ∷ xs) [] = sym (add_vectors-nil (drop n xs))
  drop-add_vectors (suc n) (x ∷ xs) (y ∷ ys) = drop-add_vectors n xs ys

  pub take-map : (f : S → S) (k : ℕ) (xs : List S) → take k (map f xs) ≡ map f (take k xs)
  take-map f zero xs = refl
  take-map f (suc k) [] = refl
  take-map f (suc k) (x ∷ xs) = ap (◌∷◌ (f x)) (take-map f k xs)

  pub drop-map : (f : S → S) (n : ℕ) (xs : List S) → drop n (map f xs) ≡ map f (drop n xs)
  drop-map f zero xs = refl
  drop-map f (suc n) [] = refl
  drop-map f (suc n) (x ∷ xs) = drop-map f n xs
