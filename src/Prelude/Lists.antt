-- ===== src/Prelude/Lists.antt =====
-- Lists measured and indexed by native numbers, under the library's names.
use Prim.Native.Nat.{ℕ, zero, suc, ◌+◌, ◌-◌, ◌<◌, ◌≤◌, min}
use mathlib.Core.Path.{◌≡◌, refl, ap}
use mathlib.Core.HLevel.{×_prop}
use mathlib.Core.Logic.Or
use mathlib.Core.Logic.{◌↔◌, inl, inr}
use mathlib.Core.List.{
  List, [], ◌∷◌, ◌++◌, map, Mem, not-mem-nil, mem-cons_self, mem-cons_of_mem, eq-or-mem_of_mem-cons,
}
use native.Mathlib.Bridge.{le_prop}
use native.Mathlib.Decide.{ℕ_discrete}
use mathlib.Core.Bool.{Bool}
use mathlib.Core.Option.{Option, none, some}
use native.Mathlib.Omega.{arith}
use open_transformers.Prelude.Tests.{if◌then◌else◌, Bool-cases}

module _ {ℓ} {A : Type ℓ} where
  abbrev pub take : ℕ → List A → List A
  take zero items = []
  take (suc count) [] = []
  take (suc count) (first ∷ rest) = first ∷ take count rest

  abbrev pub drop : ℕ → List A → List A
  drop zero xs = xs
  drop (suc n) [] = []
  drop (suc n) (x ∷ xs) = drop n xs

  abbrev pub length : List A → ℕ
  length [] = 0
  length (first ∷ rest) = suc (length rest)

  abbrev pub replicate : ℕ → A → List A
  replicate zero a = []
  replicate (suc n) a = a ∷ replicate n a

  abbrev pub get_elem? : List A → ℕ → Option A
  get_elem? [] position = none
  get_elem? (first ∷ rest) zero = some first
  get_elem? (first ∷ rest) (suc position) = get_elem? rest position

  pub length-append : (xs ys : List A) → length (xs ++ ys) ≡ length xs + length ys
  length-append [] ys = omega arith
  length-append (x ∷ xs) ys = omega (arith, length-append xs ys)

  pub take-append-drop : (n : ℕ) (xs : List A) → take n xs ++ drop n xs ≡ xs
  take-append-drop zero xs = refl
  take-append-drop (suc n) [] = refl
  take-append-drop (suc n) (x ∷ xs) = rw (take-append-drop n xs)

  pub length-take : (n : ℕ) (xs : List A) → length (take n xs) ≡ min n (length xs)
  length-take zero xs = omega arith
  length-take (suc n) [] = omega arith
  length-take (suc n) (x ∷ xs) = omega (arith, length-take n xs)

  pub length-drop : (n : ℕ) (xs : List A) → length (drop n xs) ≡ length xs - n
  length-drop zero xs = omega arith
  length-drop (suc n) [] = omega arith
  length-drop (suc n) (x ∷ xs) = omega (arith, length-drop n xs)

  pub length-replicate : (n : ℕ) (a : A) → length (replicate n a) ≡ n
  length-replicate zero a = refl
  length-replicate (suc n) a = ap suc (length-replicate n a)

module _ {ℓ} {A : Type ℓ} where
  pub length-map {κ} : {B : Type κ} (xs : List A) (f : A → B) → length (map f xs) ≡ length xs
  length-map [] f = refl
  length-map (x ∷ xs) f = ap suc (length-map xs f)

-- `range(start, start + count)`.
abbrev pub range : ℕ → ℕ → List ℕ
range start zero = []
range start (suc count) = start ∷ range (suc start) count

pub length-range : (start count : ℕ) → length (range start count) ≡ count
length-range start zero = refl
length-range start (suc count) = ap suc (length-range (suc start) count)

-- The range grows at its end.
pub range-suc :
    (start count : ℕ) → range start (suc count) ≡ range start count ++ (start + count) ∷ []
range-suc start zero = let e : start + zero ≡ start = omega arith in rw e
range-suc start (suc count) =
    let e : suc start + count ≡ start + suc count = omega arith in
    ap (◌∷◌ start) (rw (← e) (range-suc (suc start) count))

-- A predicate by recursion computes to tuples.
abbrev pub All {ℓ κ} : {A : Type ℓ} → (A → Type κ) → List A → Type κ
All P [] = Unit
All P (x ∷ xs) = P x × All P xs

mem-range_bounds :
    (start count m : ℕ) → Mem m (range start count) → (start ≤ m) × (m < start + count)
mem-range_bounds start zero m h = absurd (not-mem-nil h)
mem-range_bounds start (suc count) m h =
    Or.elim (×_prop le_prop le_prop) (eq-or-mem_of_mem-cons h) (λ e. omega arith)
      (λ rest. omega (arith, mem-range_bounds (suc start) count m rest))

mem-range_of_bounds :
    (start count m : ℕ) → start ≤ m → m < start + count → Mem m (range start count)
mem-range_of_bounds start zero m lo hi = absurd (omega arith)
mem-range_of_bounds start (suc count) m lo hi = elim (ℕ_discrete m start) [
  | yes e ↦ rw e mem-cons_self
  | no ne ↦
      mem-cons_of_mem start (mem-range_of_bounds (suc start) count m (omega arith) (omega arith))
]

pub mem-range :
    (start count m : ℕ) → Mem m (range start count) ↔ ((start ≤ m) × (m < start + count))
mem-range start count m =
    (mem-range_bounds start count m, λ h. mem-range_of_bounds start count m h.0 h.1)

-- `[x for x in xs if test(x)]`.
abbrev pub keep {ℓ} : {A : Type ℓ} → (A → Bool) → List A → List A
keep test [] = []
keep test (x ∷ xs) = if test x then x ∷ keep test xs else keep test xs

pub keep-append {ℓ} :
    {A : Type ℓ} (test : A → Bool) (xs ys : List A)
    → keep test (xs ++ ys) ≡ keep test xs ++ keep test ys
keep-append test [] ys = refl
keep-append test (x ∷ xs) ys = ground (arith, keep-append test xs ys)

module _ {ℓ κ} {A : Type ℓ} (P : A → Type κ) where
  pub All-append : (xs ys : List A) → All P xs → All P ys → All P (xs ++ ys)
  All-append [] ys hx hy = hy
  All-append (x ∷ xs) ys hx hy = (hx.0, All-append xs ys hx.1 hy)

  pub All-keep : (test : A → Bool) (xs : List A) → All P xs → All P (keep test xs)
  All-keep test [] h = tt
  All-keep test (x ∷ xs) h = elim (Bool-cases (test x)) [
    | inl e ↦ rw e (h.0, All-keep test xs h.1)
    | inr e ↦ rw e (All-keep test xs h.1)
  ]
