-- ===== src/Reduce/Tree.antt =====
-- `tree_reduce_sum` of src/pretrain/parallel/deterministic_reduce.py: the fold over the binary blocks
-- that the single-device audit replays.
use native.Mathlib.Nat.{add-zero, zero-add, pow-succ'}
use open_transformers.Prelude.{
  ℕ, zero, suc, ◌+◌, ◌-◌, ◌*◌, ◌^◌, ◌≤◌, ◌<◌, ◌≡◌, refl, ap, ◌∙◌, List, [], ◌∷◌, ◌==◌, ltb,
  if◌then◌else◌, Option, none, some, Result, ok, raise, value_error, index_error, ◌>>=◌, ◌>>◌,
  raise_if, length, take, drop, range, length-map, length-range, map, arith, true, false, lt→ltb,
}
use open_transformers.Reduce.Blocks.{
  binary_blocks, Tiles, none_left, block, binary_blocks-Tiles, bit_length, pow-pos,
}

-- The balanced tree over the `2 ^ e` values from `j * 2 ^ e` on, the lower index on the left.
module _ {ℓ} {A : Type ℓ} (add : A → A → A) where
  unfoldable pub tree : (ℕ → A) → ℕ → ℕ → A
  tree g zero j = g j
  tree g (suc e) j = add (tree g e (2 * j)) (tree g e (2 * j + 1))

  -- `acc = x if acc is None else acc + x`.
  unfoldable pub join : Option A → A → A
  join none x = x
  join (some acc) x = add acc x

  -- The value that the blocks stand for: their trees, added from the left.
  unfoldable pub canonical :
      {bound start stop : ℕ} {blocks : List (ℕ × ℕ)} (g : ℕ → A)
      → Option A
      → Tiles bound start blocks stop
      → Option A
  canonical g acc none_left = acc
  canonical g acc (block {start} e k rest) =
      canonical g (some (join acc (tree (λ i. g (start + i)) e 0))) rest

  -- `[level[i] + level[i + 1] for i in range(0, len(level), 2)]`.
  unfoldable pub pair_up : List A → Result (List A)
  pair_up [] = ok []
  pair_up (x ∷ []) = raise index_error
  pair_up (x ∷ y ∷ level) = do rest ← pair_up level; ok (add x y ∷ rest)

  -- `while len(level) > 1`. Each turn leaves half of the level, so its length is fuel enough.
  unfoldable pub reduce_level : ℕ → List A → Result (List A)
  reduce_level zero level = ok level
  reduce_level (suc fuel) level =
      let rest = pair_up level >>= reduce_level fuel in
      if ltb 1 (length level) then rest else ok level

  -- `level[0]`.
  first : List A → Result A
  first [] = raise index_error
  first (x ∷ level) = ok x

  unfoldable pub block_sum : List A → ℕ → ℕ → Result A
  unfolding first
  block_sum parts start size = do
    let level = take size (drop start parts)
    top ← reduce_level (length level) level
    first top

  unfoldable pub fold_blocks : List A → Option A → List (ℕ × ℕ) → Result (Option A)
  fold_blocks parts acc [] = ok acc
  fold_blocks parts acc ((start, size) ∷ blocks) = do
    x ← block_sum parts start size
    fold_blocks parts (some (join acc x)) blocks

  unfoldable pub tree_reduce_sum : List A → Result (Option A)
  tree_reduce_sum parts = do
    let n = length parts
    raise_if (n == 0) value_error
    blocks ← binary_blocks n
    fold_blocks parts none blocks

-- The values of `n` ranks.
module _ {ℓ} {A : Type ℓ} where
  abbrev pub gathered : ℕ → (ℕ → A) → List A
  gathered n g = map g (range 0 n)

  drop-range :
      (g : ℕ → A) (k start n : ℕ)
      → k ≤ n
      → drop k (map g (range start n)) ≡ map g (range (start + k) (n - k))
  drop-range g zero start n h =
      let e : start + 0 ≡ start = omega arith in let e' : n - 0 ≡ n = omega arith in rw (e, e')
  drop-range g (suc k) start zero h = absurd (omega arith)
  drop-range g (suc k) start (suc n) h =
      let e : suc start + k ≡ start + suc k = omega arith in
      let e' : suc n - suc k ≡ n - k = omega arith in
      rw (drop-range g k (suc start) n (omega arith), e, e')

  take-range :
      (g : ℕ → A) (k start n : ℕ) → k ≤ n → take k (map g (range start n)) ≡ map g (range start k)
  take-range g zero start n h = refl
  take-range g (suc k) start zero h = absurd (omega arith)
  take-range g (suc k) start (suc n) h =
      ap (◌∷◌ (g start)) (take-range g k (suc start) n (omega arith))

  map-shift :
      (g : ℕ → A) (start k n : ℕ)
      → map g (range (start + k) n) ≡ map (λ i. g (start + i)) (range k n)
  map-shift g start k zero = refl
  map-shift g start k (suc n) =
      let e : start + suc k ≡ suc (start + k) = omega arith in
      ap (◌∷◌ (g (start + k))) (rw (← e) (map-shift g start (suc k) n))

  -- A slice reads the values behind `start`.
  slice-range :
      (g : ℕ → A) (start size n : ℕ)
      → start + size ≤ n
      → take size (drop start (gathered n g)) ≡ map (λ i. g (start + i)) (range 0 size)
  slice-range g start size n h =
      let e : 0 + start ≡ start + 0 = omega arith in
      ap (take size) (drop-range g start 0 n (omega arith))
      ∙ take-range g size (0 + start) (n - start) (omega arith)
      ∙ ap (λ t. map g (range t size)) e
      ∙ map-shift g start 0 size

module _ {ℓ} {A : Type ℓ} (add : A → A → A) where
  pair_up-range :
      (f : ℕ → A) (start m : ℕ)
      → pair_up add (map f (range (2 * start) (2 * m)))
        ≡ ok (map (λ j. add (f (2 * j)) (f (2 * j + 1))) (range start m))
  unfolding pair_up
  pair_up-range f start zero = refl
  pair_up-range f start (suc m) =
      let e : 2 * suc m ≡ suc (suc (2 * m)) = omega arith in
      let e' : suc (suc (2 * start)) ≡ 2 * suc start = omega arith in
      let e'' : suc (2 * start) ≡ 2 * start + 1 = omega arith in
      rw (e, e', e'', pair_up-range f (suc start) m)

  halve :
      (g : ℕ → A) (j k : ℕ)
      → pair_up add (map (tree add g k) (range 0 (2 ^ suc j)))
        ≡ ok (map (tree add g (suc k)) (range 0 (2 ^ j)))
  unfolding tree
  halve g j k =
      ap (λ t. pair_up add (map (tree add g k) (range 0 t))) (pow-succ' 2 j)
      ∙ pair_up-range (tree add g k) 0 (2 ^ j)

  long : (g : ℕ → A) (j : ℕ) → ltb 1 (length (map g (range 0 (2 ^ suc j)))) ≡ true
  long g j = lt→ltb _ _ (
      rw (length-map (range 0 (2 ^ suc j)) g, length-range 0 (2 ^ suc j), pow-succ' 2 j)
        (omega (arith, pow-pos j)))

  -- With as much fuel as halvings, the levels end in the tree over the whole slice.
  reduce_level-tree :
      (g : ℕ → A) (j k fuel : ℕ)
      → j ≤ fuel
      → reduce_level add fuel (map (tree add g k) (range 0 (2 ^ j)))
        ≡ ok (tree add g (j + k) 0 ∷ [])
  unfolding reduce_level
  reduce_level-tree g zero k zero h = rw zero-add
  reduce_level-tree g zero k (suc fuel) h = rw zero-add
  reduce_level-tree g (suc j) k zero h = absurd (omega arith)
  reduce_level-tree g (suc j) k (suc fuel) h =
      let e : j + suc k ≡ suc j + k = omega arith in
      rw (long (tree add g k) j, halve g j k, ← e)
        (reduce_level-tree g j (suc k) fuel (omega arith))

  lt-pow : (e : ℕ) → e < 2 ^ e
  lt-pow zero = omega arith
  lt-pow (suc e) = rw (pow-succ' 2 e) (omega (arith, lt-pow e, pow-pos e))

  block_sum-tree :
      (g : ℕ → A) (start e n : ℕ)
      → start + 2 ^ e ≤ n
      → block_sum add (gathered n g) start (2 ^ e) ≡ ok (tree add (λ i. g (start + i)) e 0)
  unfolding block_sum tree
  block_sum-tree g start e n h =
      let h' = λ (i : ℕ). g (start + i) in
      let size : length (map h' (range 0 (2 ^ e))) ≡ 2 ^ e =
        length-map (range 0 (2 ^ e)) h' ∙ length-range 0 (2 ^ e) in
      rw (slice-range g start (2 ^ e) n h, size)
        (rw (reduce_level-tree h' e 0 (2 ^ e) (omega (arith, lt-pow e))) (rw add-zero))

  pub Tiles-le :
      {bound start stop : ℕ} {blocks : List (ℕ × ℕ)} → Tiles bound start blocks stop → start ≤ stop
  Tiles-le none_left = omega arith
  Tiles-le (block e k rest) = omega (arith, Tiles-le rest)

  fold_blocks-canonical :
      {bound start stop : ℕ} {blocks : List (ℕ × ℕ)} (g : ℕ → A) (n : ℕ) (acc : Option A)
      (tiles : Tiles bound start blocks stop)
      → stop ≤ n
      → fold_blocks add (gathered n g) acc blocks ≡ ok (canonical add g acc tiles)
  unfolding fold_blocks canonical
  fold_blocks-canonical g n acc none_left h = refl
  fold_blocks-canonical g n acc (block {start} e k rest) h =
      rw (block_sum-tree g start e n (omega (arith, Tiles-le rest)))
        (fold_blocks-canonical g n (some (join add acc (tree add (λ i. g (start + i)) e 0))) rest h)

pub tree_reduce_sum-Tiles {ℓ} :
    {A : Type ℓ} (add : A → A → A) (n : ℕ) (g : ℕ → A) {blocks : List (ℕ × ℕ)}
    (tiles : Tiles (bit_length n) 0 blocks n)
    → 0 < n
    → binary_blocks n ≡ ok blocks
    → tree_reduce_sum add (gathered n g) ≡ ok (canonical add g none tiles)
unfolding tree_reduce_sum
tree_reduce_sum-Tiles add n g tiles pos made =
    let size : length (gathered n g) ≡ n = length-map (range 0 n) g ∙ length-range 0 n in
    let positive : (n == 0) ≡ false = ground arith in
    rw (size, positive, made) (fold_blocks-canonical add g n none tiles (omega arith))

-- The replay's fold never fails on a positive number of parts, and is the sum over the tiling blocks:
-- a balanced tree in each block, the blocks added from the left.
pub tree_reduce_sum-canonical {ℓ} :
    {A : Type ℓ} (add : A → A → A) (n : ℕ) (g : ℕ → A)
    → 0 < n
    → (blocks : List (ℕ × ℕ)) × (tiles : Tiles (bit_length n) 0 blocks n) × (binary_blocks n
        ≡ ok blocks)
      × (tree_reduce_sum add (gathered n g) ≡ ok (canonical add g none tiles))
tree_reduce_sum-canonical add n g pos =
    let (blocks, made, tiles) = binary_blocks-Tiles n pos in
    (blocks, tiles, made, tree_reduce_sum-Tiles add n g tiles pos made)
