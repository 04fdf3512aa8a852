-- ===== src/Prelude/Disk.antt =====
-- A disk as what each name holds, with names in ASCII.
use Prim.Native.Nat.{ℕ}
use mathlib.Core.Path.{◌≡◌, refl, ap₂}
use mathlib.Core.Logic.{◌≢◌, inl, inr}
use mathlib.Core.Bool.{Bool, true, false, ◌&&◌}
use mathlib.Core.Option.{Option, none, some}
use mathlib.Core.List.{List, [], ◌∷◌}
use open_transformers.Prelude.Tests.{◌==◌, if◌then◌else◌, Bool-cases, ==_iff}
use open_transformers.Prelude.Errors.{Result, ok, raise, file_not_found_error}
use open_transformers.Prelude.Booleans.{and-eq_true}

abbrev pub Text : Type 0
Text = List ℕ

abbrev pub text_eq : Text → Text → Bool
text_eq [] [] = true
text_eq [] (d ∷ other) = false
text_eq (c ∷ text) [] = false
text_eq (c ∷ text) (d ∷ other) = let rest = text_eq text other in c == d && rest

pub text_eq_refl : (text : Text) → text_eq text text ≡ true
text_eq_refl [] = refl
text_eq_refl (c ∷ text) = rw ((==_iff c c).1 refl, text_eq_refl text) refl

pub text_eq-eq : (a b : Text) → text_eq a b ≡ true → a ≡ b
text_eq-eq [] [] e = refl
text_eq-eq [] (d ∷ b) e = cc
text_eq-eq (c ∷ a) [] e = cc
text_eq-eq (c ∷ a) (d ∷ b) e =
    let (same, rest) = and-eq_true (c == d) (text_eq a b) e in
    ap₂ (λ x xs. x ∷ xs) ((==_iff c d).0 same) (text_eq-eq a b rest)

abbrev pub Disk : Type 0
Disk = Text → Option Text

-- A write of a file, or its removal.
abbrev pub set_file : Text → Option Text → Disk → Disk
set_file path content disk other = if text_eq other path then content else disk other

-- A written file is read, and the others stay.
pub set_file-same :
    (path : Text) (content : Option Text) (disk : Disk) → set_file path content disk path ≡ content
set_file-same path content disk = rw (text_eq_refl path) refl

pub set_file-other :
    (path other : Text) (content : Option Text) (disk : Disk)
    → other ≢ path
    → set_file path content disk other ≡ disk other
set_file-other path other content disk differs = elim (Bool-cases (text_eq other path)) [
  | inl same ↦ absurd (differs (text_eq-eq other path same))
  | inr apart ↦ rw apart refl
]

abbrev pub read_file : Option Text → Result Text
read_file none = raise file_not_found_error
read_file (some content) = ok content
