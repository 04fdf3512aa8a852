-- ===== src/Reduce/Images.antt =====
-- The all-reduce of src/pretrain/parallel/deterministic_reduce.py on the images of the ranks' buffers
-- under a map that keeps sums, such as a slice.
use open_transformers.Prelude.{
  ℕ, zero, suc, ◌+◌, ◌*◌, ◌<◌, ◌≡◌, refl, sym, ap, ap₂, ◌∙◌, List, Option, none, some, ok, arith,
}
use open_transformers.Reduce.Blocks.{Tiles, none_left, block, binary_blocks-Tiles}
use open_transformers.Reduce.Tree.{tree, join, canonical, tree_reduce_sum-Tiles}
use open_transformers.Reduce.AllReduce.{all_reduce_avg, all_reduce_avg-tree_reduce_sum}

ok-some {ℓ} : {A : Type ℓ} (x y : A) → ok (some x) ≡ ok (some y) → x ≡ y
ok-some x y e = cc

-- A map that keeps sums.
module _ {ℓ κ} {A : Type ℓ} {B : Type κ} (add : A → A → A) (add' : B → B → B) (h : A → B)
    (keeps : (x y : A) → h (add x y) ≡ add' (h x) (h y)) where
  abbrev mapped : Option A → Option B
  mapped none = none
  mapped (some x) = some (h x)

  tree-map : (g : ℕ → A) (e j : ℕ) → tree add' (λ i. h (g i)) e j ≡ h (tree add g e j)
  unfolding tree
  tree-map g zero j = refl
  tree-map g (suc e) j =
      ap₂ add' (tree-map g e (2 * j)) (tree-map g e (2 * j + 1))
      ∙ sym (keeps (tree add g e (2 * j)) (tree add g e (2 * j + 1)))

  join-map : (acc : Option A) (x : A) → join add' (mapped acc) (h x) ≡ h (join add acc x)
  unfolding join
  join-map none x = refl
  join-map (some acc) x = sym (keeps acc x)

  canonical-map :
      {bound start stop : ℕ} {blocks : List (ℕ × ℕ)} (g : ℕ → A) (acc : Option A)
      (tiles : Tiles bound start blocks stop)
      → canonical add' (λ i. h (g i)) (mapped acc) tiles ≡ mapped (canonical add g acc tiles)
  unfolding canonical
  canonical-map g acc none_left = refl
  canonical-map g acc (block {start} e k rest) =
      ap (λ (x : B). canonical add' (λ i. h (g i)) (some x) rest)
        (ap (join add' (mapped acc)) (tree-map (λ i. g (start + i)) e 0)
          ∙ join-map acc (tree add (λ i. g (start + i)) e 0))
      ∙ canonical-map g (some (join add acc (tree add (λ i. g (start + i)) e 0))) rest

  image : (o : Option A) (total : A) → ok o ≡ ok (some total) → ok (mapped o) ≡ ok (some (h total))
  image none total e = cc
  image (some x) total e = ap (λ (y : A). ok (some (h y))) (ok-some x total e)

  -- What the ranks reduce of images is the image of what they reduce.
  pub all_reduce_avg-map :
      (comm : (x y : A) → add x y ≡ add y x) (comm' : (x y : B) → add' x y ≡ add' y x)
      (scale : ℕ → A → A) (scale' : ℕ → B → B)
      (scales : (ws : ℕ) (x : A) → h (scale ws x) ≡ scale' ws (h x)) (ws : ℕ) (g : ℕ → A) (r : ℕ)
      → r < ws
      → (total : A) × (all_reduce_avg add scale ws g r ≡ ok total)
        × (all_reduce_avg add' scale' ws (λ i. h (g i)) r ≡ ok (h total))
  all_reduce_avg-map comm comm' scale scale' scales ws g r lt =
      let pos : 0 < ws = omega arith in
      let (blocks, made, tiles) = binary_blocks-Tiles ws pos in
      let (total, summed, reduced) = all_reduce_avg-tree_reduce_sum add comm scale ws g pos in
      let (total', summed', reduced') =
        all_reduce_avg-tree_reduce_sum add' comm' scale' ws (λ i. h (g i)) pos in
      let same : total' ≡ h total = ok-some total' (h total) (
        sym summed'
        ∙ tree_reduce_sum-Tiles add' ws (λ i. h (g i)) tiles pos made
        ∙ ap ok (canonical-map g none tiles)
        ∙ image (canonical add g none tiles) total
            (sym (tree_reduce_sum-Tiles add ws g tiles pos made) ∙ summed)) in
      (
        scale ws total,
        reduced r lt,
        reduced' r lt ∙ ap ok (ap (scale' ws) same ∙ sym (scales ws total)),
      )
