-- ===== src/Checkpoint/Writes.antt =====
-- What the writes of a save (src/pretrain/train/checkpoint.py) do to the greatest complete step.
use open_transformers.Prelude.{
  ℕ, zero, suc, ◌^◌, ◌<◌, ◌≡◌, refl, sym, ap, ◌∙◌, max, dec_le, Bool, true, false, ◌&&◌, ◌||◌, List,
  [], ◌∷◌, ◌++◌, Option, none, some, take, ◌==◌, ==_iff, Bool-cases, Option-cases, inl, inr, arith,
}
use open_transformers.Prelude.Booleans.{or-true}
use open_transformers.Checkpoint.Files.{File, complete_sentinel, same_file, is_complete}
use open_transformers.Checkpoint.Save.{mkdir, write, write_all}
use open_transformers.Checkpoint.Absent.{Absent}
use open_transformers.Checkpoint.Select.{Root}
use open_transformers.Checkpoint.Newest.{later, later-later, complete_step, newest, Nine}

pub some-eq {ℓ} : {A : Type ℓ} (a b : A) → some a ≡ some b → a ≡ b
some-eq a b e = cc

later-same :
    (step : ℕ) (b : Option ℕ) → later (some step) (later (some step) b) ≡ later (some step) b
later-same step none = ap some (omega arith)
later-same step (some b) = ap some (omega arith)

module _ {C : Type 0} where
  completed :
      (dir : ℕ × List (File × C)) (b : Option ℕ)
      → later (some dir.0) b ≡ later (some dir.0) (later (complete_step dir) b)
  completed dir b = elim (Bool-cases (is_complete dir.1)) [
    | inl yes_complete ↦ rw yes_complete (sym (later-same dir.0 b))
    | inr not_complete ↦ rw not_complete refl
  ]

  -- Whether a step has a complete directory.
  abbrev pub complete_at : ℕ → Root C → Bool
  complete_at step [] = false
  complete_at step (dir ∷ root) = (dir.0 == step) && is_complete dir.1 || complete_at step root

  abbrev pub Plain : List (File × C) → Type 0
  Plain = Absent complete_sentinel

  pub take-Plain : (k : ℕ) (entries : List (File × C)) → Plain entries → Plain (take k entries)
  take-Plain zero entries plain = tt
  take-Plain (suc k) [] plain = tt
  take-Plain (suc k) (entry ∷ entries) plain = (plain.0, take-Plain k entries plain.1)

  pub newest-mkdir : (step : ℕ) (root : Root C) → newest (mkdir step root) ≡ newest root
  unfolding newest mkdir
  newest-mkdir step [] = refl
  newest-mkdir step (dir ∷ root) = elim (Bool-cases (dir.0 == step)) [
    | inl here ↦ rw here refl
    | inr there ↦ rw there (ap (later (complete_step dir)) (newest-mkdir step root))
  ]

  newest-write :
      (step : ℕ) (entry : File × C) (root : Root C)
      → same_file entry.0 complete_sentinel ≡ false
      → newest (write step entry root) ≡ newest root
  unfolding newest write
  newest-write step entry [] plain = refl
  newest-write step entry (dir ∷ root) plain = elim (Bool-cases (dir.0 == step)) [
    | inl here ↦ rw (here, plain) refl
    | inr there ↦ rw there (ap (later (complete_step dir)) (newest-write step entry root plain))
  ]

  pub newest-write_all :
      (step : ℕ) (entries : List (File × C)) (root : Root C)
      → Plain entries
      → newest (write_all step entries root) ≡ newest root
  unfolding write_all
  newest-write_all step [] root plain = refl
  newest-write_all step (entry ∷ entries) root plain =
      newest-write_all step entries (write step entry root) plain.1
      ∙ newest-write step entry root plain.0

  pub mkdir-Nine : (step : ℕ) (root : Root C) → step < 10 ^ 9 → Nine root → Nine (mkdir step root)
  unfolding mkdir
  mkdir-Nine step [] small nine = (small, tt)
  mkdir-Nine step (dir ∷ root) small nine = elim (Bool-cases (dir.0 == step)) [
    | inl here ↦ rw here nine
    | inr there ↦ rw there (nine.0, mkdir-Nine step root small nine.1)
  ]

  write-Nine :
      (step : ℕ) (entry : File × C) (root : Root C) → Nine root → Nine (write step entry root)
  unfolding write
  write-Nine step entry [] nine = tt
  write-Nine step entry (dir ∷ root) nine = elim (Bool-cases (dir.0 == step)) [
    | inl here ↦ rw here (nine.0, nine.1)
    | inr there ↦ rw there (nine.0, write-Nine step entry root nine.1)
  ]

  pub write_all-Nine :
      (step : ℕ) (entries : List (File × C)) (root : Root C)
      → Nine root
      → Nine (write_all step entries root)
  unfolding write_all
  write_all-Nine step [] root nine = nine
  write_all-Nine step (entry ∷ entries) root nine =
      write_all-Nine step entries (write step entry root) (write-Nine step entry root nine)

  hit :
      (step : ℕ) (dir : ℕ × List (File × C)) (rest : Bool)
      → dir.0 ≡ step
      → is_complete dir.1 ≡ true
      → ((dir.0 == step) && is_complete dir.1 || rest) ≡ true
  hit step dir rest here yes_complete = rw ((==_iff dir.0 step).1 here, yes_complete) refl

  -- The greatest complete step is complete.
  pub newest-complete_at :
      (step : ℕ) (root : Root C) → newest root ≡ some step → complete_at step root ≡ true
  unfolding newest
  newest-complete_at step [] found = cc
  newest-complete_at step (dir ∷ root) found = elim (Option-cases (newest root)) [
    | inl no_more ↦ elim (Bool-cases (is_complete dir.1)) [
      | inl yes_complete ↦
          hit step dir (complete_at step root)
            (some-eq dir.0 step (rw (no_more, yes_complete) at found)) yes_complete
      | inr not_complete ↦ let no = rw (no_more, not_complete) at found in cc
    ]
    | inr (other, more) ↦ elim (Bool-cases (is_complete dir.1)) [
      | inl yes_complete ↦
          let e = some-eq (max dir.0 other) step (rw (more, yes_complete) at found) in
          elim (dec_le other dir.0) [
            | yes le ↦ hit step dir (complete_at step root) (omega (arith, le, e)) yes_complete
            | no more_than ↦
                let same : other ≡ step = omega (arith, e) in
                rw (newest-complete_at step root (more ∙ ap some same))
                  (or-true ((dir.0 == step) && is_complete dir.1))
          ]
      | inr not_complete ↦
          let same = rw (more, not_complete) at found in
          rw (newest-complete_at step root (more ∙ same))
            (or-true ((dir.0 == step) && is_complete dir.1))
    ]
  ]

  abbrev pub has : ℕ → Root C → Bool
  has step [] = false
  has step (dir ∷ root) = (dir.0 == step) || has step root

  pub mkdir-has : (step : ℕ) (root : Root C) → has step (mkdir step root) ≡ true
  unfolding mkdir
  mkdir-has step [] = rw ((==_iff step step).1 refl) refl
  mkdir-has step (dir ∷ root) = elim (Bool-cases (dir.0 == step)) [
    | inl here ↦ rw (here, here) refl
    | inr there ↦ rw (there, there) (mkdir-has step root)
  ]

  write-has :
      (step : ℕ) (entry : File × C) (root : Root C)
      → has step (write step entry root) ≡ has step root
  unfolding write
  write-has step entry [] = refl
  write-has step entry (dir ∷ root) = elim (Bool-cases (dir.0 == step)) [
    | inl here ↦ rw (here, here) refl
    | inr there ↦ rw (there, there) (write-has step entry root)
  ]

  pub write_all-has :
      (step : ℕ) (entries : List (File × C)) (root : Root C)
      → has step (write_all step entries root) ≡ has step root
  unfolding write_all
  write_all-has step [] root = refl
  write_all-has step (entry ∷ entries) root =
      write_all-has step entries (write step entry root) ∙ write-has step entry root

  pub write_all-append :
      (step : ℕ) (xs ys : List (File × C)) (root : Root C)
      → write_all step (xs ++ ys) root ≡ write_all step ys (write_all step xs root)
  unfolding write_all
  write_all-append step [] ys root = refl
  write_all-append step (x ∷ xs) ys root = write_all-append step xs ys (write step x root)

  pub newest-sentinel :
      (step : ℕ) (content : C) (root : Root C)
      → has step root ≡ true
      → newest (write step (complete_sentinel, content) root) ≡ later (some step) (newest root)
  unfolding newest write
  newest-sentinel step content [] found = cc
  newest-sentinel step content (dir ∷ root) found = elim (Bool-cases (dir.0 == step)) [
    | inl here ↦ rw here (
        completed dir (newest root)
        ∙ ap (λ (n : ℕ). later (some n) (later (complete_step dir) (newest root)))
            ((==_iff dir.0 step).0 here))
    | inr there ↦ rw there (
        ap (later (complete_step dir)) (newest-sentinel step content root (rw there at found))
        ∙ later-later (complete_step dir) (some step) (newest root))
  ]
