-- ===== src/Checkpoint/Newest.antt =====
-- `Checkpointer.latest` of src/pretrain/train/checkpoint.py against the greatest step of a complete
-- directory.
use open_transformers.Prelude.{
  ℕ, ◌^◌, ◌<◌, ◌≤◌, ◌≡◌, refl, sym, ap, ◌∙◌, max, false, List, [], ◌∷◌, ◌++◌, All, Option, none,
  some, leb, leb→le, if◌then◌else◌, Bool-cases, Option-cases, inl, inr, arith,
}
use open_transformers.StateHash.Sorted.{text_le, insert, sorted, insert-All, sorted-All}
use open_transformers.Checkpoint.Names.{Text, dir_name}
use open_transformers.Checkpoint.NameOrder.{text_le-dir_name}
use open_transformers.Checkpoint.Files.{File, is_complete}
use open_transformers.Checkpoint.Select.{Root, by_name, reversed, first_complete, latest}

-- The later of two steps, where one may be missing.
abbrev pub later : Option ℕ → Option ℕ → Option ℕ
later none b = b
later (some a) none = some a
later (some a) (some b) = some (max a b)

pub later-later : (a b c : Option ℕ) → later a (later b c) ≡ later b (later a c)
later-later none b c = refl
later-later (some a) none c = refl
later-later (some a) (some b) none = ap some (omega arith)
later-later (some a) (some b) (some c) = ap some (omega arith)

leb-false : (a b : ℕ) → leb a b ≡ false → b ≤ a
leb-false a b e = ground arith

later-none : (a : Option ℕ) → later a none ≡ a
later-none none = refl
later-none (some a) = refl

some-eq : (a b : ℕ) → some a ≡ some b → a ≡ b
some-eq a b e = cc

abbrev first_or : Option ℕ → Option ℕ → Option ℕ
first_or none b = b
first_or (some a) b = some a

module _ {C : Type 0} where
  abbrev pub complete_step : ℕ × List (File × C) → Option ℕ
  complete_step dir = if is_complete dir.1 then some dir.0 else none

  -- The greatest step of a complete directory.
  unfoldable pub newest : Root C → Option ℕ
  newest [] = none
  newest (dir ∷ root) = later (complete_step dir) (newest root)

  abbrev pub name_of : ℕ × List (File × C) → Text
  name_of dir = dir_name dir.0

  abbrev pub Nine : Root C → Type 0
  Nine root = All (λ (dir : ℕ × List (File × C)). dir.0 < 10 ^ 9) root

  abbrev pub AtLeast : ℕ → Root C → Type 0
  AtLeast step root = All (λ (dir : ℕ × List (File × C)). step ≤ dir.0) root

  abbrev pub Ordered : Root C → Type 0
  Ordered [] = Unit
  Ordered (dir ∷ root) = AtLeast dir.0 root × Ordered root

  newest-insert :
      (x : ℕ × List (File × C)) (root : Root C)
      → newest (insert name_of x root) ≡ later (complete_step x) (newest root)
  unfolding insert newest
  newest-insert x [] = refl
  newest-insert x (dir ∷ root) = elim (Bool-cases (text_le (name_of x) (name_of dir))) [
    | inl before ↦ rw before refl
    | inr behind ↦
        rw (behind, newest-insert x root)
          (later-later (complete_step dir) (complete_step x) (newest root))
  ]

  newest-sorted : (root : Root C) → newest (by_name root) ≡ newest root
  unfolding sorted newest
  newest-sorted [] = refl
  newest-sorted (dir ∷ root) =
      newest-insert dir (by_name root) ∙ ap (later (complete_step dir)) (newest-sorted root)

  AtLeast-trans : (a b : ℕ) (root : Root C) → a ≤ b → AtLeast b root → AtLeast a root
  AtLeast-trans a b [] h hs = tt
  AtLeast-trans a b (dir ∷ root) h hs = (omega (arith, h, hs.0), AtLeast-trans a b root h hs.1)

  insert-Ordered :
      (x : ℕ × List (File × C)) (root : Root C)
      → x.0 < 10 ^ 9
      → Nine root
      → Ordered root
      → Ordered (insert name_of x root)
  unfolding insert
  insert-Ordered x [] h small ordered = (tt, tt)
  insert-Ordered x (dir ∷ root) h small ordered =
      elim (Bool-cases (text_le (name_of x) (name_of dir))) [
        | inl before ↦
            let le : x.0 ≤ dir.0 =
              leb→le x.0 dir.0 (sym (text_le-dir_name x.0 dir.0 h small.0) ∙ before) in
            rw before ((le, AtLeast-trans x.0 dir.0 root le ordered.0), ordered)
        | inr behind ↦
            let ge : dir.0 ≤ x.0 =
              leb-false x.0 dir.0 (sym (text_le-dir_name x.0 dir.0 h small.0) ∙ behind) in
            rw behind (
              insert-All name_of (λ (other : ℕ × List (File × C)). dir.0 ≤ other.0) x root ge
                  ordered.0,
              insert-Ordered x root h small.1 ordered.1,
            )
      ]

  sorted-Nine : (root : Root C) → Nine root → Nine (by_name root)
  sorted-Nine = sorted-All name_of (λ (dir : ℕ × List (File × C)). dir.0 < 10 ^ 9)

  pub sorted-Ordered : (root : Root C) → Nine root → Ordered (by_name root)
  unfolding sorted
  sorted-Ordered [] small = tt
  sorted-Ordered (dir ∷ root) small =
      insert-Ordered dir (by_name root) small.0 (sorted-Nine root small.1)
        (sorted-Ordered root small.1)

  first_complete-append :
      (root : Root C) (dir : ℕ × List (File × C))
      → first_complete (root ++ dir ∷ []) ≡ first_or (first_complete root) (complete_step dir)
  unfolding first_complete
  first_complete-append [] dir = elim (Bool-cases (is_complete dir.1)) [
    | inl yes_complete ↦ rw yes_complete refl
    | inr not_complete ↦ rw not_complete refl
  ]
  first_complete-append (other ∷ root) dir = elim (Bool-cases (is_complete other.1)) [
    | inl yes_complete ↦ rw yes_complete refl
    | inr not_complete ↦ rw (not_complete, first_complete-append root dir) refl
  ]

  pub later-from :
      (dir : ℕ × List (File × C)) (later_step : ℕ)
      → dir.0 ≤ later_step
      → later (complete_step dir) (some later_step) ≡ some later_step
  later-from dir later_step le = elim (Bool-cases (is_complete dir.1)) [
    | inl yes_complete ↦ rw yes_complete (ap some (omega (arith, le)))
    | inr not_complete ↦ rw not_complete refl
  ]

  newest-AtLeast :
      (low : ℕ) (root : Root C) (step : ℕ) → AtLeast low root → newest root ≡ some step → low ≤ step
  unfolding newest
  newest-AtLeast low [] step low_enough found = cc
  newest-AtLeast low (dir ∷ root) step low_enough found = elim (Option-cases (newest root)) [
    | inl no_more ↦ elim (Bool-cases (is_complete dir.1)) [
      | inl yes_complete ↦
          let e = some-eq dir.0 step (rw (no_more, yes_complete) at found) in
          omega (arith, low_enough.0, e)
      | inr not_complete ↦ let no = rw (no_more, not_complete) at found in cc
    ]
    | inr (other, more) ↦
        let rest = newest-AtLeast low root other low_enough.1 more in
        elim (Bool-cases (is_complete dir.1)) [
          | inl yes_complete ↦
              let e = some-eq (max dir.0 other) step (rw (more, yes_complete) at found) in
              omega (arith, rest, e)
          | inr not_complete ↦
              let e = some-eq other step (rw (more, not_complete) at found) in
              omega (arith, rest, e)
        ]
  ]

  first_complete-reversed :
      (root : Root C) → Ordered root → first_complete (reversed root) ≡ newest root
  unfolding first_complete newest
  first_complete-reversed [] ordered = refl
  first_complete-reversed (dir ∷ root) ordered =
      first_complete-append (reversed root) dir
      ∙ ap (λ (found : Option ℕ). first_or found (complete_step dir))
          (first_complete-reversed root ordered.1)
      ∙ elim (Option-cases (newest root)) [
        | inl no_more ↦ rw no_more (sym (later-none (complete_step dir)))
        | inr (step, more) ↦
            rw more (sym (later-from dir step (newest-AtLeast dir.0 root step ordered.0 more)))
      ]

  -- Where every step has at most nine digits, the checkpoint that is picked for resuming is the
  -- complete one with the greatest step, whatever the order in which the directories are found; none
  -- is picked just where none is complete.
  pub latest-newest : (root : Root C) → Nine root → latest root ≡ newest root
  unfolding latest
  latest-newest root small =
      first_complete-reversed (by_name root) (sorted-Ordered root small) ∙ newest-sorted root
