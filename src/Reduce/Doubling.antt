-- ===== src/Reduce/Doubling.antt =====
-- `_recursive_doubling_allreduce_avg` of src/pretrain/parallel/deterministic_reduce.py, run on all
-- ranks of the group at once, its phase A: the butterfly inside each block. A buffer is what a rank
-- holds; each exchange reads the buffers as they stood before it, as the paired sends and receives
-- do. `torch.distributed` delivers what was sent, to the rank it was sent to.
use Prim.Native.Nat.{bit_xor}
use native.Mathlib.Nat.{
  pow-suc, pow-succ', div-eq_of_lt-le, div-add-mod', div-one, mod-lt, div-eq_of_lt,
  div-div-eq-div-mul, div-lt_iff_lt-mul,
}
use open_transformers.Prelude.{
  ℕ, zero, suc, ◌+◌, ◌-◌, ◌*◌, ◌/◌, ◌%◌, ◌^◌, ◌≤◌, ◌<◌, ◌≡◌, sym, ap, ◌∙◌, true, false, ◌&&◌, List,
  [], ◌∷◌, ◌==◌, ltb, leb, if◌then◌else◌, Option, none, some, arith, Bool-cases, ℕ_discrete, dec_lt,
  lt→ltb, le→ltb-false, inl, inr,
}
use open_transformers.Prelude.Bits.{flip, bit_xor-pow}
use open_transformers.Reduce.Blocks.{pow-pos}
use open_transformers.Reduce.Tree.{tree}

-- `next((s, sz) for s, sz in blocks if s <= r < s + sz)`.
unfoldable pub my_block : List (ℕ × ℕ) → ℕ → Option (ℕ × ℕ)
my_block [] r = none
my_block ((start, size) ∷ blocks) r =
    if leb start r && ltb r (start + size) then some (start, size) else my_block blocks r

module _ {ℓ} {A : Type ℓ} (add : A → A → A) where
  -- One turn of `while mask < my_size` on rank `r`.
  unfoldable pub exchange : Option (ℕ × ℕ) → ℕ → (ℕ → A) → ℕ → A
  exchange none mask flat r = flat r
  exchange (some (my_start, my_size)) mask flat r =
      if ltb mask my_size
      then add (flat r) (flat (my_start + bit_xor (r - my_start) mask))
      else flat r

  -- The turns with the masks 1, 2, …, `2 ^ (rounds - 1)`; a rank whose loop is over keeps its buffer.
  unfoldable pub phase_a : List (ℕ × ℕ) → ℕ → (ℕ → A) → ℕ → A
  phase_a blocks zero flat = flat
  phase_a blocks (suc rounds) flat =
      λ r. exchange (my_block blocks r) (2 ^ rounds) (phase_a blocks rounds flat) r

-- The position of the partner, in rows of `p`.
flip_row : (l p : ℕ) → 0 < p → flip l p / p ≡ flip (l / p) 1
flip_row l p pos = elim (Bool-cases (l / p % 2 == 0)) [
  | inl even ↦
      rw (even, div-one (l / p), even)
        (div-eq_of_lt-le p (omega (arith, div-add-mod' l p))
          (omega (arith, div-add-mod' l p, mod-lt l pos)))
  | inr odd ↦
      let one : 0 < l / p = ground arith in
      let q = l / p - 1 in
      let e : l / p ≡ q + 1 = omega arith in
      let whole : l ≡ q * p + p + l % p =
        omega (arith, div-add-mod' l p, ap (λ (t : ℕ). t * p) e) in
      rw (odd, div-one (l / p), odd)
        (div-eq_of_lt-le p (omega (arith, whole)) (omega (arith, whole, mod-lt l pos)))
]

flip_half : (q : ℕ) → flip q 1 / 2 ≡ q / 2
flip_half q = rw (div-one q) (ground arith)

-- The partner stands in the same row of `2 * p`.
flip_double_row : (l p : ℕ) → 0 < p → flip l p / (p * 2) ≡ l / (p * 2)
flip_double_row l p pos =
    sym (div-div-eq-div-mul (flip l p) p 2)
    ∙ ap (λ (t : ℕ). t / 2) (flip_row l p pos)
    ∙ flip_half (l / p)
    ∙ div-div-eq-div-mul l p 2

pow_split : (k e : ℕ) → k < e → (m : ℕ) × (2 ^ e ≡ m * (2 ^ k * 2))
pow_split k zero h = elim h [ ]
pow_split k (suc e) h = elim (ℕ_discrete k e) [
  | yes same ↦ (1, rw (pow-succ' 2 e, same) (omega arith))
  | no less ↦
      let (m, split) = pow_split k e (omega arith) in
      (2 * m, rw (pow-succ' 2 e, split) (omega arith))
]

pow-lt : (k e : ℕ) → k < e → 2 ^ k < 2 ^ e
pow-lt k e h = let (m, split) = pow_split k e h in positive m split
  where
    positive : (m : ℕ) → 2 ^ e ≡ m * (2 ^ k * 2) → 2 ^ k < 2 ^ e
    positive zero split = absurd (omega (arith, pow-pos e))
    positive (suc m) split = rw split (omega (arith, pow-pos k))

pow-le : (k e : ℕ) → k ≤ e → 2 ^ k ≤ 2 ^ e
pow-le k e h = elim (ℕ_discrete k e) [
  | yes same ↦ rw same (omega arith)
  | no less ↦ omega (arith, pow-lt k e (omega arith))
]

-- In a block with an exponent above `k` the partner at the mask `2 ^ k` is a rank of the block.
partner_inside : (l k e : ℕ) → k < e → l < 2 ^ e → flip l (2 ^ k) < 2 ^ e
partner_inside l k e h inside =
    let (m, split) = pow_split k e h in
    let pos : 0 < 2 ^ k * 2 = omega (arith, pow-pos k) in
    let row : l / (2 ^ k * 2) < m = (div-lt_iff_lt-mul pos).1 (rw (← split) inside) in
    rw split ((div-lt_iff_lt-mul pos).0 (rw (flip_double_row l (2 ^ k) (pow-pos k)) row))

module _ {ℓ} {A : Type ℓ} (add : A → A → A) (comm : (x y : A) → add x y ≡ add y x) where
  -- Two neighbours of a level add up to their parent, whichever of them adds the other to itself.
  pair :
      (g : ℕ → A) (k q : ℕ)
      → add (tree add g k q) (tree add g k (flip q 1)) ≡ tree add g (suc k) (q / 2)
  unfolding tree
  pair g k q = elim (Bool-cases (q % 2 == 0)) [
    | inl even ↦ let left : 2 * (q / 2) ≡ q = ground arith in rw (div-one q, even, left)
    | inr odd ↦
        let right : 2 * (q / 2) + 1 ≡ q = ground arith in
        let left : 2 * (q / 2) ≡ q - 1 = ground arith in rw (div-one q, odd, right, left) (comm _ _)
  ]

  module _ (g : ℕ → A) (blocks : List (ℕ × ℕ)) (start e : ℕ)
      (found : (r : ℕ)
        → start ≤ r
        → r < start + 2 ^ e
        → my_block blocks r ≡ some (start, 2 ^ e)) where
    abbrev in_block : ℕ → A
    in_block i = g (start + i)

    -- After `k` exchanges each rank holds the tree of its row of `2 ^ k` ranks.
    phase_a-row :
        (k l : ℕ)
        → k ≤ e
        → l < 2 ^ e
        → phase_a add blocks k g (start + l) ≡ tree add in_block k (l / 2 ^ k)
    unfolding phase_a exchange tree
    phase_a-row zero l h inside = rw (div-one l)
    phase_a-row (suc k) l h inside =
        let p = 2 ^ k in
        let on = found (start + l) (omega arith) (omega arith) in
        let runs : ltb p (2 ^ e) ≡ true = lt→ltb p (2 ^ e) (pow-lt k e h) in
        let local : start + l - start ≡ l = omega arith in
        let mine = phase_a-row k l (omega arith) inside in
        let theirs = phase_a-row k (flip l p) (omega arith) (partner_inside l k e h inside) in
        let up : l / p / 2 ≡ l / 2 ^ suc k =
          div-div-eq-div-mul l p 2 ∙ ap (λ (t : ℕ). l / t) (sym (pow-suc 2 k)) in
        rw (on, runs, local, bit_xor-pow l k, mine, theirs, flip_row l p (pow-pos k))
          (pair in_block k (l / p) ∙ ap (tree add in_block (suc k)) up)

    -- Once the masks reach the size of the block, its ranks hold the tree of the whole block.
    pub phase_a-block :
        (rounds l : ℕ)
        → e ≤ rounds
        → l < 2 ^ e
        → phase_a add blocks rounds g (start + l) ≡ tree add in_block e 0
    unfolding phase_a exchange
    phase_a-block zero l h inside =
        let none_left : e ≡ 0 = omega arith in
        let single : 2 ^ e ≡ 1 = rw none_left in
        let first : l ≡ 0 = omega arith in
        phase_a-row 0 l (omega arith) inside ∙ rw (none_left, first)
    phase_a-block (suc rounds) l h inside = elim (dec_lt rounds e) [
      | yes last ↦
          let here : suc rounds ≡ e = omega arith in
          let top : l / 2 ^ suc rounds ≡ 0 = div-eq_of_lt (rw here inside) in
          phase_a-row (suc rounds) l (omega arith) inside ∙ rw (top, here)
      | no over ↦
          let on = found (start + l) (omega arith) (omega arith) in
          let stops : ltb (2 ^ rounds) (2 ^ e) ≡ false =
            le→ltb-false (2 ^ rounds) (2 ^ e) (pow-le e rounds (omega arith)) in
          rw (on, stops) (phase_a-block rounds l (omega arith) inside)
    ]
