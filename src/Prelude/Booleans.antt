-- ===== src/Prelude/Booleans.antt =====
-- Laws of the Boolean connectives.
use mathlib.Core.Path.{◌≡◌, refl}
use mathlib.Core.Logic.{◌⊎◌, inl, inr}
use mathlib.Core.Bool.{Bool, true, false, ◌&&◌, ◌||◌}
use open_transformers.Prelude.Tests.{if◌then◌else◌}

pub or-true : (a : Bool) → (a || true) ≡ true
or-true true = refl
or-true false = refl

pub or-false : (a : Bool) → (a || false) ≡ a
or-false true = refl
or-false false = refl

pub or-or : (a b c : Bool) → (a || (b || c)) ≡ (b || (a || c))
or-or true true c = refl
or-or true false c = refl
or-or false b c = refl

pub and-eq_true : (a b : Bool) → (a && b) ≡ true → (a ≡ true) × (b ≡ true)
and-eq_true true b e = (refl, e)
and-eq_true false b e = cc

pub or-eq_false : (a b : Bool) → (a || b) ≡ false → (a ≡ false) × (b ≡ false)
or-eq_false true b e = cc
or-eq_false false b e = (refl, e)

-- The branch of a conditional that gave a value.
pub if-cases {ℓ} :
    {A : Type ℓ} (test : Bool) {x y z : A}
    → (if test then x else y) ≡ z
    → ((test ≡ true) × (x ≡ z)) ⊎ ((test ≡ false) × (y ≡ z))
if-cases true e = inl (refl, e)
if-cases false e = inr (refl, e)
