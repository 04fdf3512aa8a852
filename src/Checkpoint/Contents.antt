-- ===== src/Checkpoint/Contents.antt =====
-- What a file holds behind a save's writes (src/pretrain/train/checkpoint.py).
use open_transformers.Prelude.{
  ℕ, ◌≡◌, refl, ap, ◌∙◌, false, List, [], ◌∷◌, ◌++◌, Option, none, some, ◌==◌, ==_iff,
  if◌then◌else◌, Bool-cases, inl, inr,
}
use open_transformers.Checkpoint.Files.{File, file}
use open_transformers.Checkpoint.Save.{mkdir, write, write_all}
use open_transformers.Checkpoint.Select.{Root}
use open_transformers.Checkpoint.Absent.{Absent}
use open_transformers.Checkpoint.Writes.{has, some-eq}

module _ {C : Type 0} where
  -- The files of a step, if it has a directory.
  abbrev pub dir_at : ℕ → Root C → Option (List (File × C))
  dir_at step [] = none
  dir_at step (dir ∷ root) =
      let rest = dir_at step root in if dir.0 == step then some dir.1 else rest

  abbrev pub filled : List (File × C) → List (File × C) → List (File × C)
  filled [] dir = dir
  filled (entry ∷ entries) dir = filled entries (entry ∷ dir)

  filled-append : (xs ys dir : List (File × C)) → filled (xs ++ ys) dir ≡ filled ys (filled xs dir)
  filled-append [] ys dir = refl
  filled-append (x ∷ xs) ys dir = filled-append xs ys (x ∷ dir)

  file-filled :
      (name : File) (entries dir : List (File × C))
      → Absent name entries
      → file (filled entries dir) name ≡ file dir name
  file-filled name [] dir absent = refl
  file-filled name (entry ∷ entries) dir absent =
      file-filled name entries (entry ∷ dir) absent.1 ∙ rw (absent.0) refl

  -- The writes give a file that was not there what it holds, if anything.
  abbrev pub Gives : File → Option C → List (File × C) → Type 0
  Gives name held entries =
      (dir : List (File × C)) → file dir name ≡ none → file (filled entries dir) name ≡ held

  pub Absent-Gives :
      (name : File) (entries : List (File × C)) → Absent name entries → Gives name none entries
  Absent-Gives name entries absent dir missing = file-filled name entries dir absent ∙ missing

  pub before-Gives :
      (name : File) (held : Option C) (xs ys : List (File × C))
      → Absent name xs
      → Gives name held ys
      → Gives name held (xs ++ ys)
  before-Gives name held xs ys absent gives dir missing =
      ap (λ (whole : List (File × C)). file whole name) (filled-append xs ys dir)
      ∙ gives (filled xs dir) (file-filled name xs dir absent ∙ missing)

  pub after-Gives :
      (name : File) (held : Option C) (xs ys : List (File × C))
      → Gives name held xs
      → Absent name ys
      → Gives name held (xs ++ ys)
  after-Gives name held xs ys gives absent dir missing =
      ap (λ (whole : List (File × C)). file whole name) (filled-append xs ys dir)
      ∙ file-filled name ys (filled xs dir) absent
      ∙ gives dir missing

  pub dir_at-mkdir :
      (step : ℕ) (root : Root C) → has step root ≡ false → dir_at step (mkdir step root) ≡ some []
  unfolding mkdir
  dir_at-mkdir step [] fresh = rw ((==_iff step step).1 refl) refl
  dir_at-mkdir step (dir ∷ root) fresh = elim (Bool-cases (dir.0 == step)) [
    | inl here ↦ let no = rw here at fresh in cc
    | inr there ↦ rw (there, there) (dir_at-mkdir step root (rw there at fresh))
  ]

  dir_at-write :
      (step : ℕ) (entry : File × C) (root : Root C) (dir : List (File × C))
      → dir_at step root ≡ some dir
      → dir_at step (write step entry root) ≡ some (entry ∷ dir)
  unfolding write
  dir_at-write step entry [] dir found = cc
  dir_at-write step entry (other ∷ root) dir found = elim (Bool-cases (other.0 == step)) [
    | inl here ↦ rw (here, here) (ap some (ap (◌∷◌ entry) (some-eq other.1 dir (rw here at found))))
    | inr there ↦ rw (there, there) (dir_at-write step entry root dir (rw there at found))
  ]

  pub dir_at-write_all :
      (step : ℕ) (entries : List (File × C)) (root : Root C) (dir : List (File × C))
      → dir_at step root ≡ some dir
      → dir_at step (write_all step entries root) ≡ some (filled entries dir)
  unfolding write_all
  dir_at-write_all step [] root dir found = found
  dir_at-write_all step (entry ∷ entries) root dir found =
      dir_at-write_all step entries (write step entry root) (entry ∷ dir)
        (dir_at-write step entry root dir found)
