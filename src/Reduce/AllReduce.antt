-- ===== src/Reduce/AllReduce.antt =====
-- `_recursive_doubling_allreduce_avg` and `_binomial_broadcast` of
-- src/pretrain/parallel/deterministic_reduce.py as a whole: phase A, the combination on rank 0, the
-- broadcast and the average, against the fold of `tree_reduce_sum`.
use native.Mathlib.Nat.{pow-succ', mod-eq_of_lt, div-eq_of_lt, zero-div, zero-add}
use mathlib.Core.Option.{some-injective}
use open_transformers.Prelude.{
  ℕ, zero, suc, ◌+◌, ◌-◌, ◌/◌, ◌%◌, ◌^◌, ◌≤◌, ◌<◌, ◌≡◌, refl, sym, ap, ◌∙◌, List, [], ◌∷◌, ◌==◌,
  ltb, if◌then◌else◌, Option, none, some, Result, ok, ◌>>=◌, arith, Bool-cases, inl, inr, dec_lt,
  ltb-false, ==_iff, ◌≢◌,
}
use open_transformers.Reduce.Blocks.{
  binary_blocks, bit_length, Tiles, none_left, block, pow-pos, mod-double,
}
use open_transformers.Reduce.Tree.{
  tree, join, canonical, gathered, tree_reduce_sum, tree_reduce_sum-canonical,
}
use open_transformers.Reduce.Doubling.{my_block, phase_a, phase_a-block}

-- The receive loop `while mask < ws` of rank `r`, from `mask = 2 ^ k` on: the mask with `r & mask` at
-- which it receives, if it does. `mask` reaches `ws` after at most `ws` turns.
unfoldable pub receive_mask : ℕ → ℕ → ℕ → ℕ → Option ℕ
receive_mask zero ws r k = none
receive_mask (suc turns) ws r k =
    let rest = receive_mask turns ws r (suc k) in
    if ltb (2 ^ k) ws then if r / 2 ^ k % 2 == 1 then some (2 ^ k) else rest else none

-- What rank `r` ends with: its own buffer, if it receives none, or else what rank `r - mask` ends
-- with. That is a lower rank, so `r` is fuel enough.
unfoldable pub broadcast {ℓ} : {A : Type ℓ} → ℕ → ℕ → (ℕ → A) → ℕ → A
broadcast zero ws flat r = flat r
broadcast (suc fuel) ws flat r = elim (receive_mask ws ws r 0) [
  | none ↦ flat r
  | some mask ↦ broadcast fuel ws flat (r - mask)
]

module _ {ℓ} {A : Type ℓ} (add : A → A → A) where
  -- Rank 0 in phase B: `for start, _size in blocks[1:]: flat = flat + recv`.
  unfoldable pub combine : (ℕ → A) → A → List (ℕ × ℕ) → A
  combine flat acc [] = acc
  combine flat acc ((start, _) ∷ blocks) = combine flat (add acc (flat start)) blocks

  -- The buffers behind phase B.
  unfoldable pub phase_b : ℕ → List (ℕ × ℕ) → (ℕ → A) → ℕ → A
  phase_b ws [] flat r = flat r
  phase_b ws (_ ∷ []) flat r = flat r
  phase_b ws (_ ∷ second ∷ blocks) flat r =
      broadcast r ws (λ i. if i == 0 then combine flat (flat 0) (second ∷ blocks) else flat i) r

  -- The reduced buffer of rank `r`. `scale ws` is the multiplication by `1.0 / ws`.
  unfoldable pub all_reduce_avg : (ℕ → A → A) → ℕ → (ℕ → A) → ℕ → Result A
  all_reduce_avg scale ws flat r = do
    blocks ← binary_blocks ws
    ok (scale ws (phase_b ws blocks (phase_a add blocks (bit_length ws) flat) r))

clear_below : (r ws k : ℕ) → 0 < r → r < ws → ws ≤ 2 ^ k → r % 2 ^ k ≢ 0
clear_below r ws k pos lt h e =
    let whole : r % 2 ^ k ≡ r = mod-eq_of_lt (omega arith) in omega arith

bit_large : (r p : ℕ) → r / p % 2 ≡ 1 → p ≤ r
bit_large r p h = elim (dec_lt r p) [
  | yes small ↦ let e : r / p ≡ 0 = div-eq_of_lt small in absurd (omega arith)
  | no large ↦ omega arith
]

-- Every rank but 0 finds a set bit below the world size.
receive_mask-some :
    (turns ws r k : ℕ)
    → 0 < r
    → r < ws
    → r % 2 ^ k ≡ 0
    → ws ≤ 2 ^ k + turns
    → (mask : ℕ) × (receive_mask turns ws r k ≡ some mask) × (0 < mask) × (mask ≤ r)
unfolding receive_mask
receive_mask-some zero ws r k pos lt clear h =
    absurd (clear_below r ws k pos lt (omega arith) clear)
receive_mask-some (suc turns) ws r k pos lt clear h = elim (Bool-cases (ltb (2 ^ k) ws)) [
  | inr over ↦ absurd (clear_below r ws k pos lt (ltb-false (2 ^ k) ws over) clear)
  | inl turn ↦ elim (Bool-cases (r / 2 ^ k % 2 == 1)) [
    | inl set ↦
        (2 ^ k, rw (turn, set), pow-pos k, bit_large r (2 ^ k) ((==_iff (r / 2 ^ k % 2) 1).0 set))
    | inr unset ↦
        let bit : r / 2 ^ k % 2 ≡ 0 = ground arith in
        let clear' : r % 2 ^ suc k ≡ 0 =
          rw (pow-succ' 2 k, mod-double r (2 ^ k) (pow-pos k), bit, clear) (omega arith) in
        rw (turn, unset)
          (receive_mask-some turns ws r (suc k) pos lt clear'
            (rw (pow-succ' 2 k) (omega (arith, pow-pos k))))
  ]
]

receive_mask-zero : (turns ws k : ℕ) → receive_mask turns ws 0 k ≡ none
unfolding receive_mask
receive_mask-zero zero ws k = refl
receive_mask-zero (suc turns) ws k =
    let e : 0 / 2 ^ k ≡ 0 = zero-div (2 ^ k) in
    rw e (ground (arith, receive_mask-zero turns ws (suc k)))

-- The broadcast ends with the buffer of rank 0 on every rank of the world.
pub broadcast_lem {ℓ} :
    {A : Type ℓ} (fuel ws r : ℕ) (flat : ℕ → A)
    → r ≤ fuel
    → r < ws
    → broadcast fuel ws flat r ≡ flat 0
unfolding broadcast
broadcast_lem zero ws zero flat h lt = refl
broadcast_lem zero ws (suc r) flat h lt = absurd (omega arith)
broadcast_lem (suc fuel) ws zero flat h lt = rw (receive_mask-zero ws ws 0, broadcast)
broadcast_lem (suc fuel) ws (suc r) flat h lt =
    let (mask, found, pos, le) =
      receive_mask-some ws ws (suc r) 0 (omega arith) lt (omega arith) (omega arith) in
    rw (found, broadcast) (broadcast_lem fuel ws (suc r - mask) flat (omega arith) (omega arith))

my_block-here :
    (start e r : ℕ) (rest : List (ℕ × ℕ))
    → start ≤ r
    → r < start + 2 ^ e
    → my_block ((start, 2 ^ e) ∷ rest) r ≡ some (start, 2 ^ e)
unfolding my_block
my_block-here start e r rest lo hi = ground arith

my_block-past :
    (start e r : ℕ) (rest : List (ℕ × ℕ))
    → start + 2 ^ e ≤ r
    → my_block ((start, 2 ^ e) ∷ rest) r ≡ my_block rest r
unfolding my_block
my_block-past start e r rest lo = ground arith

module _ {ℓ} {A : Type ℓ} (add : A → A → A) (comm : (x y : A) → add x y ≡ add y x) (g : ℕ → A) where
  -- Rank 0 adds up the trees of the blocks, in their order.
  combine-canonical :
      {bound start stop : ℕ} {blocks : List (ℕ × ℕ)} (world : List (ℕ × ℕ)) (rounds : ℕ)
      (tiles : Tiles bound start blocks stop)
      → bound ≤ rounds
      → ((r : ℕ) → start ≤ r → my_block world r ≡ my_block blocks r)
      → (acc : A)
      → canonical add g (some acc) tiles
        ≡ some (combine add (phase_a add world rounds g) acc blocks)
  unfolding canonical combine join
  combine-canonical world rounds none_left h agree acc = refl
  combine-canonical world rounds (block {start} {rest = later} e k rest) h agree acc =
      rw (sum_here) (combine-canonical world rounds rest (omega arith) past _)
    where
      past : (r : ℕ) → start + 2 ^ e ≤ r → my_block world r ≡ my_block later r
      past r lo = agree r (omega arith) ∙ my_block-past start e r later lo

      here : (r : ℕ) → start ≤ r → r < start + 2 ^ e → my_block world r ≡ some (start, 2 ^ e)
      here r lo hi = agree r lo ∙ my_block-here start e r later lo hi

      sum_here : phase_a add world rounds g start ≡ tree add (λ i. g (start + i)) e 0
      sum_here =
          let first : start + 0 ≡ start = omega arith in
          ap (phase_a add world rounds g) (sym first)
          ∙ phase_a-block add comm g world start e here rounds 0 (omega arith) (pow-pos e)

  first_block :
      (e rounds l : ℕ) (later : List (ℕ × ℕ))
      → e ≤ rounds
      → l < 2 ^ e
      → phase_a add ((0, 2 ^ e) ∷ later) rounds g l ≡ tree add (λ i. g (0 + i)) e 0
  first_block e rounds l later h inside =
      ap (phase_a add ((0, 2 ^ e) ∷ later) rounds g) (sym (zero-add l))
      ∙ phase_a-block add comm g ((0, 2 ^ e) ∷ later) 0 e
          (λ r lo hi. my_block-here 0 e r later lo hi) rounds l h inside

  phase_b-rest :
      {bound start stop : ℕ} {later : List (ℕ × ℕ)} (e rounds r : ℕ)
      (rest : Tiles bound start later stop)
      → start ≡ 0 + 2 ^ e
      → e ≤ rounds
      → bound ≤ rounds
      → r < stop
      → canonical add g (some (tree add (λ i. g (0 + i)) e 0)) rest
        ≡ some (phase_b add stop ((0, 2 ^ e) ∷ later) (phase_a add ((0, 2 ^ e) ∷ later) rounds g) r)
  unfolding canonical phase_b
  phase_b-rest e rounds r none_left here h h' lt =
      ap some (sym (first_block e rounds r [] h (omega arith)))
  phase_b-rest {start} {stop} e rounds r (block {rest = last} e' k' rest') here h h' lt =
      rw (broadcast_lem r stop r root (omega arith) lt) (
        rw (first_block e rounds 0 later h (pow-pos e))
          (combine-canonical world rounds (block e' k' rest') h' past _))
    where
      later : List (ℕ × ℕ)
      later = (start, 2 ^ e') ∷ last

      world : List (ℕ × ℕ)
      world = (0, 2 ^ e) ∷ later

      root : ℕ → A
      root i =
          if i == 0
          then combine add (phase_a add world rounds g) (phase_a add world rounds g 0) later
          else phase_a add world rounds g i

      past : (i : ℕ) → start ≤ i → my_block world i ≡ my_block later i
      past i lo = my_block-past 0 e i later (omega arith)

  -- Behind phase B every rank of the world holds the canonical sum.
  phase_b-canonical :
      {bound stop : ℕ} {blocks : List (ℕ × ℕ)} (rounds r : ℕ) (tiles : Tiles bound 0 blocks stop)
      → bound ≤ rounds
      → r < stop
      → canonical add g none tiles ≡ some (phase_b add stop blocks (phase_a add blocks rounds g) r)
  unfolding canonical join
  phase_b-canonical rounds r none_left h lt = elim lt [ ]
  phase_b-canonical rounds r (block e k rest) h lt =
      phase_b-rest e rounds r rest refl (omega arith) (omega arith) lt

-- The cluster and the audit agree: for an addition that commutes (it need not associate), the
-- all-reduce leaves on every rank the average of the very sum that `tree_reduce_sum` makes of the
-- ranks' buffers, for every positive number of ranks, a power of two or not.
pub all_reduce_avg-tree_reduce_sum {ℓ} :
    {A : Type ℓ} (add : A → A → A) (comm : (x y : A) → add x y ≡ add y x) (scale : ℕ → A → A)
    (ws : ℕ) (g : ℕ → A)
    → 0 < ws
    → (total : A) × (tree_reduce_sum add (gathered ws g) ≡ ok (some total))
      × ((r : ℕ) → r < ws → all_reduce_avg add scale ws g r ≡ ok (scale ws total))
unfolding all_reduce_avg
all_reduce_avg-tree_reduce_sum add comm scale ws g pos =
    let (blocks, tiles, made, summed) = tree_reduce_sum-canonical add ws g pos in
    let flat = phase_a add blocks (bit_length ws) g in
    let on = λ (r : ℕ) (lt : r < ws).
      phase_b-canonical add comm g (bit_length ws) r tiles (omega arith) lt in
    (
      phase_b add ws blocks flat 0,
      summed ∙ ap ok (on 0 pos),
      λ r lt. rw made (ap (λ x. ok (scale ws x)) (some-injective _ _ (sym (on r lt) ∙ on 0 pos))),
    )
