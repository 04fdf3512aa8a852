-- ===== src/Prelude/Items.antt =====
-- Python's indexing of a list by an index from 0, and lookups of it.
use Prim.Native.Nat.{ℕ, zero, suc, ◌<◌, ◌+◌}
use mathlib.Core.Path.{◌≡◌, refl}
use mathlib.Core.List.{List, [], ◌∷◌, map}
use mathlib.Core.Option.{Option, none, some}
use native.Mathlib.Omega.{arith}
use open_transformers.Prelude.Lists.{get_elem?, range}
use open_transformers.Prelude.Errors.{Result, ok, raise, index_error}

abbrev pub item_of {ℓ} : {A : Type ℓ} → Option A → Result A
item_of none = raise index_error
item_of (some x) = ok x

abbrev pub item {ℓ} : {A : Type ℓ} → List A → ℕ → Result A
item xs i = item_of (get_elem? xs i)

pub get_elem?-map {ℓ κ} :
    {A : Type ℓ} {B : Type κ} (f : A → B) (xs : List A) (i : ℕ) {x : A}
    → get_elem? xs i ≡ some x
    → get_elem? (map f xs) i ≡ some (f x)
get_elem?-map f [] i e = cc
get_elem?-map f (y ∷ xs) zero e = cc
get_elem?-map f (y ∷ xs) (suc i) e = get_elem?-map f xs i e

pub get_elem?-range :
    (start count i : ℕ) → i < count → get_elem? (range start count) i ≡ some (start + i)
get_elem?-range start zero i h = absurd (omega arith)
get_elem?-range start (suc count) zero h = let e : start + 0 ≡ start = omega arith in rw e refl
get_elem?-range start (suc count) (suc i) h =
    let e : suc start + i ≡ start + suc i = omega arith in
    rw (get_elem?-range (suc start) count i (omega arith), e) refl
