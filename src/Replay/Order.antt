-- ===== src/Replay/Order.antt =====
-- The stack of `_DiskTreeFold` (src/pretrain/cli/audit_replay.py) added up is `tree_reduce_sum`.
use native.Mathlib.Nat.{pow-succ'}
use open_transformers.Prelude.{
  ℕ, zero, suc, ◌+◌, ◌^◌, ◌≤◌, ◌<◌, ◌≡◌, refl, ap, ap₂, ◌∙◌, List, Option, none, some, arith,
  length, dec_lt, ok,
}
use open_transformers.Reduce.Blocks.{Tiles, none_left, block, pow-pos, bit_length, bit_length_bound}
use open_transformers.Reduce.Tree.{
  tree, join, canonical, Tiles-le, tree_reduce_sum, gathered, tree_reduce_sum-canonical,
}
use open_transformers.Replay.Carry.{carry_all, total, Stacked, nothing, on_top, carry_all-Stacked}

pow_mono : (a b : ℕ) → a ≤ b → 2 ^ a ≤ 2 ^ b
pow_mono zero b h = omega (arith, pow-pos b)
pow_mono (suc a) zero h = absurd (omega arith)
pow_mono (suc a) (suc b) h = omega (arith, pow-succ' 2 a, pow-succ' 2 b, pow_mono a b (omega arith))

Tiles-lt :
    {bound start stop : ℕ} {blocks : List (ℕ × ℕ)}
    → Tiles bound start blocks stop
    → stop < start + 2 ^ bound
Tiles-lt {bound} none_left = omega (arith, pow-pos bound)
Tiles-lt {bound} (block e k rest) =
    omega (arith, Tiles-lt rest, pow-succ' 2 e, pow_mono (suc e) bound k)

-- The largest power of two that fits.
fits_one : (start stop a b : ℕ) → start + 2 ^ a ≤ stop → stop < start + 2 ^ b + 2 ^ b → a ≤ b
fits_one start stop a b fits less = elim (dec_lt b a) [
  | yes more ↦ absurd (omega (arith, pow_mono (suc b) a more, pow-succ' 2 b, fits, less))
  | no not_more ↦ omega arith
]

module _ {ℓ} {A : Type ℓ} (add : A → A → A) (g : ℕ → A) where
  -- A range has one tiling, so the bounds that two tilings carry do not matter.
  canonical_unique :
      {bound bound' start start' stop : ℕ} {blocks blocks' : List (ℕ × ℕ)} (acc : Option A)
      (tiles : Tiles bound start blocks stop) (tiles' : Tiles bound' start' blocks' stop)
      → start ≡ start'
      → canonical add g acc tiles ≡ canonical add g acc tiles'
  unfolding canonical
  canonical_unique acc none_left none_left h = refl
  canonical_unique acc none_left (block e k rest) h =
      absurd (omega (arith, Tiles-le add rest, pow-pos e))
  canonical_unique acc (block e k rest) none_left h =
      absurd (omega (arith, Tiles-le add rest, pow-pos e))
  canonical_unique acc (block {start} {stop} e k rest) (block {start = start'} e' k' rest') h =
      let up = fits_one start stop e e' (Tiles-le add rest) (omega (arith, Tiles-lt rest')) in
      let down = fits_one start stop e' e (omega (arith, Tiles-le add rest')) (Tiles-lt rest) in
      let same : e ≡ e' = omega arith in
      let value = ap₂ (λ (s d : ℕ). some (join add acc (tree add (λ i. g (s + i)) d 0))) h same in
      let size = ap₂ (λ (s d : ℕ). s + 2 ^ d) h same in
      ap (λ x. canonical add g x rest) value ∙ canonical_unique _ rest rest' size

  Tiles-up :
      {a b start stop : ℕ} {blocks : List (ℕ × ℕ)}
      → Tiles a start blocks stop
      → a ≤ b
      → Tiles b start blocks stop
  Tiles-up none_left h = none_left
  Tiles-up (block e k rest) h = block e (omega arith) rest

  Tiles-up-canonical :
      {a b start stop : ℕ} {blocks : List (ℕ × ℕ)} (acc : Option A)
      (tiles : Tiles a start blocks stop) (h : a ≤ b)
      → canonical add g acc (Tiles-up tiles h) ≡ canonical add g acc tiles
  Tiles-up-canonical acc tiles h = canonical_unique acc (Tiles-up tiles h) tiles refl

  -- The stack's entries are the blocks before `rest`.
  blocks_of_stack :
      {low start stop : ℕ} {stack : List (ℕ × A)} {blocks : List (ℕ × ℕ)}
      → Stacked add g low start stack
      → (rest : Tiles low start blocks stop)
      → (bound : ℕ) × (whole : List (ℕ × ℕ)) × (tiles : Tiles bound 0 whole stop) × (canonical add g
            none tiles
          ≡ canonical add g (total add stack) rest)
  unfolding canonical total
  blocks_of_stack nothing rest = (_, _, rest, refl)
  blocks_of_stack (on_top e k below) rest =
      let (bound, whole, tiles, same) =
        blocks_of_stack below (block e (omega arith) (Tiles-up rest k)) in
      (bound, whole, tiles, same ∙ Tiles-up-canonical _ rest k)

-- The stack behind a positive number of parts adds up to the fold over the binary blocks, in the same
-- order of additions.
pub total-tree_reduce_sum {ℓ} :
    {A : Type ℓ} (add : A → A → A) (n : ℕ) (g : ℕ → A)
    → 0 < n
    → tree_reduce_sum add (gathered n g) ≡ ok (total add (carry_all add g n))
unfolding canonical
total-tree_reduce_sum add n g pos =
    let (blocks, tiles, made, summed) = tree_reduce_sum-canonical add n g pos in
    let (bound, whole, tiles', same) =
      blocks_of_stack add g (carry_all-Stacked add g n) none_left in
    summed ∙ ap ok (canonical_unique add g none tiles tiles' refl ∙ same)

lt_of_pow : (a b : ℕ) → 2 ^ a < 2 ^ b → a < b
lt_of_pow a b h = elim (dec_lt a b) [
  | yes less ↦ less
  | no not_less ↦ absurd (omega (arith, pow_mono b a (omega arith)))
]

-- The levels are distinct and below `k`.
Stacked-length {ℓ} :
    {A : Type ℓ} {add : A → A → A} {g : ℕ → A} {low stop : ℕ} {stack : List (ℕ × A)} (k : ℕ)
    → Stacked add g low stop stack
    → stop < 2 ^ k
    → low ≤ k
    → length stack + low ≤ k
Stacked-length k nothing less h = omega arith
Stacked-length k (on_top {start} e low below) less h =
    let small = lt_of_pow e k (omega arith) in
    omega (arith, Stacked-length k below (omega arith) small)

-- The stack has at most as many entries as the number of parts has binary digits.
pub length-carry_all {ℓ} :
    {A : Type ℓ} (add : A → A → A) (g : ℕ → A) (n : ℕ) → length (carry_all add g n) ≤ bit_length n
length-carry_all add g n = omega (
  arith,
  Stacked-length (bit_length n) (carry_all-Stacked add g n) (bit_length_bound n) (omega arith),
)
