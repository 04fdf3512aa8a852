-- ===== src/Prelude/Bits.antt =====
-- Exclusive or with a power of two: it turns one binary digit over.
use Prim.Native.Nat.{
  ℕ, zero, suc, ◌+◌, ◌-◌, ◌*◌, ◌/◌, ◌%◌, ◌^◌, ◌≤◌, ◌<◌, bit_xor, bit_xor-bitwise, digits, differ,
}
use mathlib.Core.Path.{◌≡◌, refl, ap, sym, ◌∙◌}
use mathlib.Core.Logic.{inl, inr}
use native.Mathlib.Nat.{pow-succ', div-div-eq-div-mul, div-eq_of_lt, zero-div}
use native.Mathlib.Decide.{dec_lt}
use mathlib.Core.Bool.{true, false}
use native.Mathlib.Omega.{arith}
use open_transformers.Prelude.Tests.{◌==◌, if◌then◌else◌, Bool-cases}

abbrev xor_digits : ℕ → ℕ → ℕ → ℕ
xor_digits n a b = digits (λ b. b) differ n a b

differ-zero : (x : ℕ) → differ x 0 ≡ x
differ-zero zero = refl
differ-zero (suc x) = refl

xor_digits-zero : (n a : ℕ) → a ≤ n → xor_digits n a 0 ≡ a
xor_digits-zero zero zero h = refl
xor_digits-zero zero (suc a) h = absurd (omega arith)
xor_digits-zero (suc n) zero h = refl
xor_digits-zero (suc n) (suc a) h =
    omega (arith, xor_digits-zero n (suc a / 2) (omega arith), differ-zero (suc a % 2))

-- The digit of `l` at a power of two, turned over.
abbrev pub flip : ℕ → ℕ → ℕ
flip l mask = if l / mask % 2 == 0 then l + mask else l - mask

differ-one : (x : ℕ) → x < 2 → differ x 1 ≡ 1 - x
differ-one zero h = refl
differ-one (suc zero) h = refl
differ-one (suc (suc x)) h = absurd (omega arith)

zero_flip : (p : ℕ) → flip 0 p ≡ p
zero_flip p = let e : 0 / p ≡ 0 = zero-div p in rw e (omega arith)

half_large : (x p : ℕ) → (x / p % 2 == 0) ≡ false → p ≤ x
half_large x p h = elim (dec_lt x p) [
  | yes small ↦ let e : x / p ≡ 0 = div-eq_of_lt small in cc (ap (λ (t : ℕ). t % 2 == 0) e)
  | no large ↦ omega arith
]

flip-double : (x p : ℕ) → flip (x / 2) p * 2 + x % 2 ≡ flip x (2 * p)
flip-double x p = elim (Bool-cases (x / 2 / p % 2 == 0)) [
  | inl even ↦
      let even' : (x / (2 * p) % 2 == 0) ≡ true = rw (← div-div-eq-div-mul x 2 p) even in
      rw (even, even') (omega arith)
  | inr odd ↦
      let odd' : (x / (2 * p) % 2 == 0) ≡ false = rw (← div-div-eq-div-mul x 2 p) odd in
      let large = half_large (x / 2) p odd in rw (odd, odd') (omega arith)
]

xor_digits-pow : (n a k : ℕ) → a ≤ n → xor_digits n a (2 ^ k) ≡ flip a (2 ^ k)
xor_digits-pow zero zero k h = sym (zero_flip (2 ^ k))
xor_digits-pow zero (suc a) k h = absurd (omega arith)
xor_digits-pow (suc n) zero k h = sym (zero_flip (2 ^ k))
xor_digits-pow (suc n) (suc a) zero h =
    let rest = xor_digits-zero n (suc a / 2) (omega arith) in
    let low = differ-one (suc a % 2) (omega arith) in ground (arith, rest, low)
xor_digits-pow (suc n) (suc a) (suc k) h =
    let half : 2 ^ suc k / 2 ≡ 2 ^ k = omega (arith, pow-succ' 2 k) in
    let even : 2 ^ suc k % 2 ≡ 0 = omega (arith, pow-succ' 2 k) in
    rw (half, even, xor_digits-pow n (suc a / 2) k (omega arith), differ-zero (suc a % 2))
      (flip-double (suc a) (2 ^ k) ∙ ap (flip (suc a)) (sym (pow-succ' 2 k)))

pub bit_xor-pow : (a k : ℕ) → bit_xor a (2 ^ k) ≡ flip a (2 ^ k)
bit_xor-pow a k = bit_xor-bitwise a (2 ^ k) ∙ xor_digits-pow a a k (omega arith)
