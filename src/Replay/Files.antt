-- ===== src/Replay/Files.antt =====
-- The files that stand behind a stack of `_DiskTreeFold` (src/pretrain/cli/audit_replay.py), and the
-- gradients over given names that they hold.
use open_transformers.Prelude.{
  ◌≡◌, refl, sym, ◌∙◌, Bool, true, false, List, [], ◌∷◌, map, All, if◌then◌else◌, Bool-cases, inl,
  inr, ok,
}
use open_transformers.StateHash.Tags.{Bytes}
use open_transformers.StateHash.Feed.{Tensor}
use open_transformers.Prelude.Disk.{text_eq, text_eq_refl, text_eq-eq}
use open_transformers.Replay.Fold.{
  Gradient, get_item, add_into, as_payload, gradient_entries, as_gradient,
}

-- The values of all parameters.
abbrev pub Values : Type 0
Values = Bytes → Tensor

abbrev pub dict : List Bytes → Values → Gradient
dict names f = map (λ name. (name, f name)) names

abbrev pub add_values : (Tensor → Tensor → Tensor) → Values → Values → Values
add_values add f h name = add (f name) (h name)

pub All-imp :
    {A : Type 0} {P Q : A → Type 0} (h : (a : A) → P a → Q a) (xs : List A) → All P xs → All Q xs
All-imp h [] hs = tt
All-imp h (x ∷ xs) hs = (h x hs.0, All-imp h xs hs.1)

pub get_item-dict :
    (names : List Bytes) (h : Values)
    → All (λ name. get_item (dict names h) name ≡ ok (h name)) names
unfolding get_item
get_item-dict [] h = tt
get_item-dict (name ∷ names) h = (
  rw (text_eq_refl name) refl,
  All-imp
      (λ other found. elim (Bool-cases (text_eq name other)) [
        | inl same ↦ rw (text_eq-eq name other same, text_eq_refl other) refl
        | inr apart ↦ rw (apart, found) refl
      ])
      names (get_item-dict names h),
)

-- Whether a name is among the names.
abbrev pub has : List Bytes → Bytes → Bool
has [] name = false
has (own ∷ names) name = let rest = has names name in if text_eq own name then true else rest

has-skip :
    (own name : Bytes) (names : List Bytes)
    → text_eq own name ≡ false
    → has (own ∷ names) name ≡ has names name
has-skip own name names apart = rw apart refl

-- The value of a name in a dict over names that has it.
pub get_item-has :
    (names : List Bytes) (f : Values) (name : Bytes)
    → has names name ≡ true
    → get_item (dict names f) name ≡ ok (f name)
unfolding get_item
get_item-has [] f name h = cc
get_item-has (own ∷ names) f name h = elim (Bool-cases (text_eq own name)) [
  | inl same ↦ rw (text_eq-eq own name same, text_eq_refl name) refl
  | inr apart ↦ rw apart (get_item-has names f name (sym (has-skip own name names apart) ∙ h))
]

add_into-part :
    (add : Tensor → Tensor → Tensor) (names : List Bytes) (f h : Values) (part : Gradient)
    → All (λ name. get_item part name ≡ ok (h name)) names
    → add_into add (dict names f) part ≡ ok (dict names (add_values add f h))
unfolding add_into
add_into-part add [] f h part found = refl
add_into-part add (name ∷ names) f h part found =
    rw (found.0, add_into-part add names f h part found.1) refl

-- Gradients over the same names are added name by name, and no name is missing.
pub add_into-dict :
    (add : Tensor → Tensor → Tensor) (names : List Bytes) (f h : Values)
    → add_into add (dict names f) (dict names h) ≡ ok (dict names (add_values add f h))
add_into-dict add names f h = add_into-part add names f h (dict names h) (get_item-dict names h)

pub as_gradient-as_payload : (gradient : Gradient) → as_gradient (as_payload gradient) ≡ ok gradient
unfolding as_gradient gradient_entries
as_gradient-as_payload [] = refl
as_gradient-as_payload ((name, t) ∷ gradient) = rw (as_gradient-as_payload gradient) refl
