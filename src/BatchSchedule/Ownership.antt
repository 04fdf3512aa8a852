-- ===== src/BatchSchedule/Ownership.antt =====
-- Which rank trains which micro-batch: `accum_for_rank`, `microbatch_indices_for_rank` and
-- `owner_rank` of src/pretrain/train/batch_schedule.py agree, and the ranks share each step out.
use mathlib.Core.List.{filter, filter-append, Mem, mem-filter}
use mathlib.Core.Logic.{ite}
use native.Mathlib.Nat.{
  zero-add, div-add-mod', mod-lt, mod-eq_of_lt, div-eq_of_lt, div-eq_of_lt-le, mul_comm,
}
use open_transformers.Prelude.{
  ℕ, zero, suc, ◌+◌, ◌-◌, ◌*◌, ◌/◌, ◌%◌, ◌≤◌, ◌<◌, min, max, ◌≡◌, refl, [], ◌∷◌, ltb, if◌then◌else◌,
  length, length-append, range, ap, sym, ◌∙◌, ◌==◌, range-suc, mem-range, ok, raise, value_error,
  ◌↔◌, arith, ℕ_discrete, Bool-cases, inl, inr, ltb→lt, ltb-false, le→ltb-false,
}
use open_transformers.BatchSchedule.{owner_rank, accum_for_rank, microbatch_indices_for_rank}

-- Every rank takes `total / n` micro-batches, and the lowest `total % n` ranks one more.
pub share : ℕ → ℕ → ℕ → ℕ
share total n rank = total / n + (if ltb rank (total % n) then 1 else 0)

ceil_share :
    (q t n rank : ℕ)
    → rank < n
    → t < n
    → (q * n + t + n - 1 - rank) / n ≡ q + (if ltb rank t then 1 else 0)
ceil_share q t n rank h k = elim (Bool-cases (ltb rank t)) [
  | inl more ↦
      let lt = ltb→lt rank t more in rw more (div-eq_of_lt-le n (omega arith) (omega arith))
  | inr less ↦
      let le = ltb-false rank t less in rw less (div-eq_of_lt-le n (omega arith) (omega arith))
]

share_small : (total n rank : ℕ) → rank < n → total ≤ rank → share total n rank ≡ 0
unfolding share
share_small total n rank h k =
    let e : total % n ≡ total = mod-eq_of_lt (omega arith) in
    let e' : total / n ≡ 0 = div-eq_of_lt (omega arith) in
    rw (e, e', le→ltb-false rank total k) (omega arith)

share_large :
    (total n rank : ℕ) → rank < n → rank < total → (total - rank + n - 1) / n ≡ share total n rank
unfolding share
share_large total n rank h k =
    let whole : total - rank + n - 1 ≡ total / n * n + total % n + n - 1 - rank =
      omega (arith, div-add-mod' total n) in
    rw whole (ceil_share (total / n) (total % n) n rank h (mod-lt total (omega arith)))

pub accum_for_rank-share :
    (total n rank : ℕ) → rank < n → accum_for_rank total n rank ≡ ok (share total n rank)
unfolding accum_for_rank
accum_for_rank-share total n rank h =
    let e : max n 1 ≡ n = omega arith in
    rw e (ground (arith, share_small total n rank h, share_large total n rank h))

share-suc :
    (total n rank : ℕ)
    → rank < n
    → share (suc total) n rank ≡ share total n rank + (if total % n == rank then 1 else 0)
unfolding share
share-suc total n rank h = elim (Bool-cases (ltb (total % n + 1) n)) [
  | inl inside ↦
      let lt = ltb→lt (total % n + 1) n inside in
      let e : suc total / n ≡ total / n =
        div-eq_of_lt-le n (omega (arith, div-add-mod' total n))
          (omega (arith, div-add-mod' total n)) in
      let e' : suc total % n ≡ total % n + 1 =
        omega (arith, div-add-mod' total n, div-add-mod' (suc total) n, ap (λ (t : ℕ). t * n) e) in
      rw (e, e') (ground arith)
  | inr wraps ↦
      let ge = ltb-false (total % n + 1) n wraps in
      let below = mod-lt total {m = n} (omega arith) in
      let e : suc total / n ≡ total / n + 1 =
        div-eq_of_lt-le n (omega (arith, div-add-mod' total n))
          (omega (arith, div-add-mod' total n)) in
      let e' : suc total % n ≡ 0 =
        omega (arith, div-add-mod' total n, div-add-mod' (suc total) n, ap (λ (t : ℕ). t * n) e) in
      rw (e, e') (ground arith)
]

pub owner_rank-mod : (m n : ℕ) → 0 < n → owner_rank m n ≡ m % n
unfolding owner_rank
owner_rank-mod m n h = let e : max n 1 ≡ n = omega arith in rw e

length-ite {ℓ κ} :
    {A : Type ℓ} {P : Type κ} (c : Dec P) (x : A) → length (ite c (x ∷ []) []) ≡ ite c 1 0
length-ite (yes p) x = refl
length-ite (no p) x = refl

length-filter-range {κ} :
    {P : ℕ → Type κ} (d : (m : ℕ) → Dec (P m)) (count : ℕ)
    → length (filter d (range 0 (suc count)))
      ≡ length (filter d (range 0 count)) + ite (d count) 1 0
length-filter-range d count =
    ap (λ l. length (filter d l)) (range-suc 0 count)
    ∙ rw (zero-add, filter-append, length-append)
        (ap (λ (t : ℕ). length (filter d (range 0 count)) + t) (length-ite (d count) count))

-- The indices that the comprehension keeps, counted.
pub length-microbatch_indices :
    (total n rank : ℕ)
    → rank < n
    → length (microbatch_indices_for_rank total n rank) ≡ share total n rank
unfolding microbatch_indices_for_rank
length-microbatch_indices zero n rank h = sym (share_small 0 n rank h (omega arith))
length-microbatch_indices (suc total) n rank h =
    length-filter-range (λ m. ℕ_discrete (owner_rank m n) rank) total
    ∙ ground (arith, length-microbatch_indices total n rank h, share-suc total n rank h, owned)
  where
    owned : owner_rank total n ≡ total % n
    owned = owner_rank-mod total n (omega arith)

-- The sum of `f 0`, …, `f (count - 1)`.
abbrev pub sum_below : ℕ → (ℕ → ℕ) → ℕ
sum_below zero f = 0
sum_below (suc count) f = sum_below count f + f count

sum_below-ext :
    (count : ℕ) (f g : ℕ → ℕ)
    → ((i : ℕ) → i < count → f i ≡ g i)
    → sum_below count f ≡ sum_below count g
sum_below-ext zero f g h = refl
sum_below-ext (suc count) f g h =
    omega (arith, sum_below-ext count f g (λ i k. h i (omega arith)), h count (omega arith))

sum_below-share :
    (total n count : ℕ)
    → sum_below count (share total n) ≡ count * (total / n) + min count (total % n)
unfolding share
sum_below-share total n zero = omega arith
sum_below-share total n (suc count) = ground (arith, sum_below-share total n count)

-- What a rank accumulates in a step is as many micro-batches as it owns; a rank outside the world
-- is a `ValueError`.
pub accum_for_rank-length :
    (total n rank : ℕ)
    → accum_for_rank total n rank ≡ (
        if ltb rank n
        then ok (length (microbatch_indices_for_rank total n rank))
        else raise value_error)
unfolding accum_for_rank
accum_for_rank-length total n rank = elim (Bool-cases (ltb rank n)) [
  | inl inside ↦
      let h : rank < n = ltb→lt rank n inside in
      rw (inside, length-microbatch_indices total n rank h) (accum_for_rank-share total n rank h)
  | inr outside ↦ ground arith
]

-- The ranks together own every micro-batch of a step, and a lower rank owns as many as a higher
-- one or one more.
pub microbatch_indices_balanced :
    (total n : ℕ)
    → 0 < n
    → (sum_below n (λ rank. length (microbatch_indices_for_rank total n rank)) ≡ total)
      × ((low high : ℕ)
          → low ≤ high
          → high < n
          → (length (microbatch_indices_for_rank total n high)
              ≤ length (microbatch_indices_for_rank total n low))
            × (length (microbatch_indices_for_rank total n low)
                ≤ length (microbatch_indices_for_rank total n high) + 1))
microbatch_indices_balanced total n pos = (
  sum_below-ext n _ (share total n) (length-microbatch_indices total n)
      ∙ sum_below-share total n n
      ∙ omega (arith, div-add-mod' total n, mod-lt total pos, mul_comm n (total / n)),
  λ low high le lt.
      rw
        (
          length-microbatch_indices total n low (omega arith),
          length-microbatch_indices total n high lt,
        )
        (share_falls low high le),
)
  where
    share_falls :
        (low high : ℕ)
        → low ≤ high
        → (share total n high ≤ share total n low) × (share total n low ≤ share total n high + 1)
    share_falls low high le = unfold share in ground arith

-- A rank owns exactly the micro-batches of the step whose number is its own modulo the world size.
pub mem-microbatch_indices :
    (total n rank m : ℕ)
    → Mem m (microbatch_indices_for_rank total n rank) ↔ ((m < total) × (owner_rank m n ≡ rank))
unfolding microbatch_indices_for_rank
mem-microbatch_indices total n rank m = (
  λ k.
      let kept = (mem-filter owned).0 k in
      let within = (mem-range 0 total m).0 kept.0 in (omega arith, kept.1),
  λ k. (mem-filter owned).1 ((mem-range 0 total m).1 (omega arith, omega arith), k.1),
)
  where
    owned : (i : ℕ) → Dec (owner_rank i n ≡ rank)
    owned i = ℕ_discrete (owner_rank i n) rank
