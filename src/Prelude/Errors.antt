-- ===== src/Prelude/Errors.antt =====
-- Python exceptions as values: the classes that the modelled code raises, and the result monad.
use Prim.Native.Nat.{ℕ, ◌/◌}
use mathlib.Core.Path.{◌≡◌, refl}
use mathlib.Core.Logic.{◌⊎◌, inl, inr}
use mathlib.Core.Bool.{Bool, true, false}
use open_transformers.Prelude.Tests.{◌==◌, if◌then◌else◌}

pub data Error : Type 0 where
  value_error index_error zero_division_error runtime_error key_error file_not_found_error : Error
  struct_error type_error spill_corruption : Error

pub data Result {ℓ} (A : Type ℓ) : Type ℓ where
  ok : A → Result A
  raise : Error → Result A

-- An exception skips the statements behind it.
infixl 5 ◌>>=◌
abbrev pub ◌>>=◌ {ℓ κ} : {A : Type ℓ} {B : Type κ} → Result A → (A → Result B) → Result B
raise error >>= rest = raise error
ok value >>= rest = rest value

-- `if bad: raise error`.
abbrev pub raise_if : Bool → Error → Result (Unit {0})
raise_if false error = ok tt
raise_if true error = raise error

infixl 5 ◌>>◌
abbrev pub ◌>>◌ {ℓ} : {B : Type ℓ} → Result (Unit {0}) → Result B → Result B
statement >> rest = statement >>= λ _. rest

-- Python's `a // b` on non-negative integers.
abbrev pub floordiv : ℕ → ℕ → Result ℕ
floordiv a b = if b == 0 then raise zero_division_error else ok (a / b)

-- Inversion of a successful bind.
pub >>=-eq-ok {ℓ κ} :
    {A : Type ℓ} {B : Type κ} (r : Result A) (rest : A → Result B) {out : B}
    → (r >>= rest) ≡ ok out
    → (value : A) × (r ≡ ok value) × (rest value ≡ ok out)
>>=-eq-ok (raise error) rest made = cc
>>=-eq-ok (ok value) rest made = (value, refl, made)

pub Result-cases {ℓ} :
    {A : Type ℓ} (r : Result A) → ((a : A) × (r ≡ ok a)) ⊎ ((e : Error) × (r ≡ raise e))
Result-cases (ok a) = inl (a, refl)
Result-cases (raise e) = inr (e, refl)

pub >>=_assoc {ℓ κ ι} :
    {A : Type ℓ} {B : Type κ} {C : Type ι} (m : Result A) (f : A → Result B) (g : B → Result C)
    → ((m >>= f) >>= g) ≡ (m >>= λ a. f a >>= g)
>>=_assoc (ok a) f g = refl
>>=_assoc (raise e) f g = refl

pub >>=_ok {ℓ} : {A : Type ℓ} (m : Result A) → (m >>= ok) ≡ m
>>=_ok (ok a) = refl
>>=_ok (raise e) = refl
