-- ===== src/Reduce/Blocks.antt =====
-- `_binary_blocks` of src/pretrain/parallel/deterministic_reduce.py: the ranks in consecutive blocks
-- of a power of two, the largest first.
use native.Mathlib.Nat.{
  pow-suc, mod-lt, div-add-mod', mod-eq_of_lt, mul-add-mod_self_left, pow-succ', zero-add,
}
use open_transformers.Prelude.{
  ℕ, zero, suc, ◌+◌, ◌*◌, ◌/◌, ◌%◌, ◌^◌, ◌≤◌, ◌<◌, ◌≡◌, ap, ◌∙◌, List, [], ◌∷◌, ◌==◌, if◌then◌else◌,
  Result, ok, raise, value_error, arith, Bool-cases, ==_iff, subst, inl, inr,
}

-- `n.bit_length()`: the halvings down to 0. `n` itself is fuel enough.
bit_length_from : ℕ → ℕ → ℕ
bit_length_from zero n = 0
bit_length_from (suc fuel) n =
    let rest = bit_length_from fuel (n / 2) in if n == 0 then 0 else suc rest

unfoldable pub bit_length : ℕ → ℕ
unfolding bit_length_from
bit_length n = bit_length_from n n

-- The loop from `bit = 2 ^ (rounds - 1)` down: `n & bit` tests one bit of `n`, and `bit >>= 1` is the
-- next smaller power of two, after 1 the 0 at which the loop ends.
unfoldable pub blocks_loop : ℕ → ℕ → ℕ → List (ℕ × ℕ)
blocks_loop n zero start = []
blocks_loop n (suc rounds) start =
    let bit = 2 ^ rounds in
    if n / bit % 2 == 1
    then (start, bit) ∷ blocks_loop n rounds (start + bit)
    else blocks_loop n rounds start

-- At 0 the shift count `bit_length() - 1` is negative, a `ValueError`.
unfoldable pub binary_blocks : ℕ → Result (List (ℕ × ℕ))
binary_blocks n = if n == 0 then raise value_error else ok (blocks_loop n (bit_length n) 0)

-- The blocks lie side by side from `start` to `stop`, and each is a power of two in size with an
-- exponent below the one before it, the first below `bound`.
pub data Tiles : ℕ → ℕ → List (ℕ × ℕ) → ℕ → Type 0 where
  none_left : {bound stop : ℕ} → Tiles bound stop [] stop
  block :
      {bound start stop : ℕ} {rest : List (ℕ × ℕ)} (e : ℕ)
      → e < bound
      → Tiles e (start + 2 ^ e) rest stop
      → Tiles bound start ((start, 2 ^ e) ∷ rest) stop

Tiles-mono :
    {a b start stop : ℕ} {blocks : List (ℕ × ℕ)}
    → Tiles a start blocks stop
    → a ≤ b
    → Tiles b start blocks stop
Tiles-mono none_left h = none_left
Tiles-mono (block e k rest) h = block e (omega arith) rest

pub pow-pos : (e : ℕ) → 0 < 2 ^ e
pow-pos zero = omega arith
pow-pos (suc e) = rw pow-suc (omega (arith, pow-pos e))

bit_length_from_bound : (fuel n : ℕ) → n ≤ fuel → n < 2 ^ bit_length_from fuel n
unfolding bit_length_from
bit_length_from_bound zero n h = omega arith
bit_length_from_bound (suc fuel) n h = elim (Bool-cases (n == 0)) [
  | inl e ↦ rw e (ground arith)
  | inr e ↦ rw e (rw pow-suc (ground (arith, bit_length_from_bound fuel (n / 2) (ground arith))))
]

pub bit_length_bound : (n : ℕ) → n < 2 ^ bit_length n
unfolding bit_length
bit_length_bound n = bit_length_from_bound n n (omega arith)

-- A number modulo the next power of two is its upper bit and the rest.
top_small : (s r b : ℕ) → s < 2 → r < b → s * b + r < 2 * b
top_small zero r b h k = omega arith
top_small (suc zero) r b h k = omega arith
top_small (suc (suc s)) r b h k = absurd (omega arith)

pub mod-double : (n b : ℕ) → 0 < b → n % (2 * b) ≡ n / b % 2 * b + n % b
mod-double n b pos =
    let top = n / b % 2 * b + n % b in
    let whole : n ≡ 2 * b * (n / b / 2) + top =
      omega (arith, div-add-mod' n b, ap (λ (t : ℕ). t * b) (div-add-mod' (n / b) 2)) in
    let small : top < 2 * b = top_small (n / b % 2) (n % b) b (omega arith) (mod-lt n pos) in
    ap (λ (t : ℕ). t % (2 * b)) whole
    ∙ mul-add-mod_self_left (2 * b) (n / b / 2) top
    ∙ mod-eq_of_lt small

blocks_loop-Tiles :
    (n rounds start : ℕ) → Tiles rounds start (blocks_loop n rounds start) (start + n % 2 ^ rounds)
unfolding blocks_loop
blocks_loop-Tiles n zero start = let e : start + n % 1 ≡ start = omega arith in rw e none_left
blocks_loop-Tiles n (suc rounds) start =
    let upper : n % 2 ^ suc rounds ≡ n / 2 ^ rounds % 2 * 2 ^ rounds + n % 2 ^ rounds =
      ap (λ (t : ℕ). n % t) (pow-succ' 2 rounds) ∙ mod-double n (2 ^ rounds) (pow-pos rounds) in
    elim (Bool-cases (n / 2 ^ rounds % 2 == 1)) [
      | inl set ↦
          let one : n / 2 ^ rounds % 2 ≡ 1 = (==_iff _ 1).0 set in
          let stop : start + 2 ^ rounds + n % 2 ^ rounds ≡ start + n % 2 ^ suc rounds =
            rw (upper, one) (omega arith) in
          rw (set, ← stop)
            (block rounds (omega arith) (blocks_loop-Tiles n rounds (start + 2 ^ rounds)))
      | inr clear ↦
          let bit : n / 2 ^ rounds % 2 ≡ 0 = ground arith in
          let stop : start + n % 2 ^ rounds ≡ start + n % 2 ^ suc rounds =
            rw (upper, bit) (omega arith) in
          rw (clear, ← stop) (Tiles-mono (blocks_loop-Tiles n rounds start) (omega arith))
    ]

-- The blocks of a positive number of ranks tile them from rank 0 on without a gap; each is a power of
-- two in size, larger than every block behind it.
pub binary_blocks-Tiles :
    (n : ℕ)
    → 0 < n
    → (blocks : List (ℕ × ℕ)) × (binary_blocks n ≡ ok blocks) × Tiles (bit_length n) 0 blocks n
unfolding binary_blocks
binary_blocks-Tiles n pos =
    let e : 0 + n % 2 ^ bit_length n ≡ n = rw (mod-eq_of_lt (bit_length_bound n)) (zero-add n) in
    (
      blocks_loop n (bit_length n) 0,
      ground arith,
      subst (Tiles (bit_length n) 0 _) e (blocks_loop-Tiles n (bit_length n) 0),
    )
