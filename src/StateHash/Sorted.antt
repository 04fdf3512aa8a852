-- ===== src/StateHash/Sorted.antt =====
-- `sorted(..., key=name)` of src/pretrain/train/state_hash.py: Python's stable sort, by insertion, on
-- names in ASCII.
use open_transformers.Prelude.{
  ◌≡◌, refl, Bool, true, false, List, [], ◌∷◌, map, All, ltb, if◌then◌else◌, Bool-cases, inl, inr,
}
use open_transformers.StateHash.Tags.{Bytes}

abbrev pub text_le : Bytes → Bytes → Bool
text_le [] other = true
text_le (c ∷ text) [] = false
text_le (c ∷ text) (d ∷ other) =
    let rest = text_le text other in if ltb c d then true else if ltb d c then false else rest

module _ {A : Type 0} (key : A → Bytes) where
  unfoldable pub insert : A → List A → List A
  insert x [] = x ∷ []
  insert x (y ∷ ys) = if text_le (key x) (key y) then x ∷ y ∷ ys else y ∷ insert x ys

  unfoldable pub sorted : List A → List A
  sorted [] = []
  sorted (x ∷ xs) = insert x (sorted xs)

-- What holds of the items holds of the sorted items.
module _ {A : Type 0} (key : A → Bytes) (P : A → Type 0) where
  pub insert-All : (x : A) (xs : List A) → P x → All P xs → All P (insert key x xs)
  unfolding insert
  insert-All x [] h hs = (h, tt)
  insert-All x (y ∷ ys) h hs = elim (Bool-cases (text_le (key x) (key y))) [
    | inl before ↦ rw before (h, hs)
    | inr behind ↦ rw behind (hs.0, insert-All x ys h hs.1)
  ]

  pub sorted-All : (xs : List A) → All P xs → All P (sorted key xs)
  unfolding sorted
  sorted-All [] hs = tt
  sorted-All (x ∷ xs) hs = insert-All x (sorted key xs) hs.0 (sorted-All xs hs.1)

module _ {A B : Type 0} (key : A → Bytes) (key' : B → Bytes) (f : A → B)
    (same : (a : A) → key' (f a) ≡ key a) where
  insert-map : (x : A) (ys : List A) → insert key' (f x) (map f ys) ≡ map f (insert key x ys)
  unfolding insert
  insert-map x [] = refl
  insert-map x (y ∷ ys) =
      rw (same x, same y)
        (elim (Bool-cases (text_le (key x) (key y))) [
          | inl before ↦ rw before refl
          | inr after ↦ rw (after, insert-map x ys) refl
        ])

  -- A map that keeps the keys keeps the order.
  pub sorted-map : (xs : List A) → sorted key' (map f xs) ≡ map f (sorted key xs)
  unfolding sorted
  sorted-map [] = refl
  sorted-map (x ∷ xs) = rw (sorted-map xs) (insert-map x (sorted key xs))
