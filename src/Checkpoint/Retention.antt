-- ===== src/Checkpoint/Retention.antt =====
-- What `Checkpointer.garbage_collect` of src/pretrain/train/checkpoint.py leaves.
use open_transformers.Prelude.{
  ℕ, zero, suc, ◌-◌, ◌%◌, ◌^◌, ◌<◌, ◌≤◌, ◌≡◌, refl, sym, ap, ◌∙◌, max, Bool, true, false, ◌&&◌,
  ◌||◌, List, [], ◌∷◌, ◌++◌, All, All-keep, keep, some, length, drop, leb, ◌==◌, ==_iff, ok,
  Bool-cases, Option-cases, inl, inr, arith,
}
use open_transformers.Prelude.Booleans.{or-true, or-false, or-or, and-eq_true, or-eq_false}
use open_transformers.StateHash.Sorted.{insert, sorted, sorted-All, text_le}
use open_transformers.Checkpoint.Files.{File, is_complete}
use open_transformers.Checkpoint.Select.{
  Root, by_name, latest, last_of, multiples, steps_of, is_in, garbage_collect,
}
use open_transformers.Checkpoint.Newest.{
  later-from, newest, name_of, Nine, Ordered, sorted-Ordered, latest-newest,
}
use open_transformers.Checkpoint.Writes.{complete_at, has, some-eq}

not-leb : (a b : ℕ) → leb a b ≡ false → b < a
not-leb a b e = ground arith

is_in-append_left :
    (step : ℕ) (xs ys : List ℕ) → is_in step xs ≡ true → is_in step (xs ++ ys) ≡ true
is_in-append_left step [] ys found = cc
is_in-append_left step (x ∷ xs) ys found = elim (Bool-cases (step == x)) [
  | inl here ↦ rw here refl
  | inr there ↦ rw there (is_in-append_left step xs ys (rw there at found))
]

is_in-append_right :
    (step : ℕ) (xs ys : List ℕ) → is_in step ys ≡ true → is_in step (xs ++ ys) ≡ true
is_in-append_right step [] ys found = found
is_in-append_right step (x ∷ xs) ys found =
    rw (is_in-append_right step xs ys found) (or-true (step == x))

module _ {C : Type 0} where
  abbrev pub AtMost : ℕ → Root C → Type 0
  AtMost step root = All (λ (dir : ℕ × List (File × C)). dir.0 ≤ step) root

  newest-AtMost :
      (step : ℕ) (root : Root C) (found : ℕ)
      → AtMost step root
      → newest root ≡ some found
      → found ≤ step
  unfolding newest
  newest-AtMost step [] found below e = cc
  newest-AtMost step (dir ∷ root) found below e = elim (Option-cases (newest root)) [
    | inl no_more ↦ elim (Bool-cases (is_complete dir.1)) [
      | inl yes_complete ↦
          let same = some-eq dir.0 found (rw (no_more, yes_complete) at e) in
          omega (arith, below.0, same)
      | inr not_complete ↦ let no = rw (no_more, not_complete) at e in cc
    ]
    | inr (other, more) ↦
        let rest = newest-AtMost step root other below.1 more in
        elim (Bool-cases (is_complete dir.1)) [
          | inl yes_complete ↦
              let same = some-eq (max dir.0 other) found (rw (more, yes_complete) at e) in
              omega (arith, below.0, rest, same)
          | inr not_complete ↦
              let same = some-eq other found (rw (more, not_complete) at e) in
              omega (arith, rest, same)
        ]
  ]

  -- A complete directory with the greatest step is the newest.
  newest_of_greatest :
      (step : ℕ) (root : Root C)
      → AtMost step root
      → complete_at step root ≡ true
      → newest root ≡ some step
  unfolding newest
  newest_of_greatest step [] below complete = cc
  newest_of_greatest step (dir ∷ root) below complete = elim (Bool-cases (complete_at step root)) [
    | inl more ↦ rw (newest_of_greatest step root below.1 more) (later-from dir step below.0)
    | inr no_more ↦
        let (here, yes_complete) =
          and-eq_true (dir.0 == step) (is_complete dir.1) (rw (no_more, or-false) at complete) in
        let same = (==_iff dir.0 step).0 here in
        elim (Option-cases (newest root)) [
          | inl nothing ↦ rw (yes_complete, nothing) (ap some same)
          | inr (other, found) ↦
              let low = newest-AtMost step root other below.1 found in
              rw (yes_complete, found) (ap some (omega (arith, low, same)))
        ]
  ]

  complete_at-keep :
      (step : ℕ) (kept : List ℕ) (root : Root C)
      → is_in step kept ≡ true
      → complete_at step (keep (λ dir. is_in dir.0 kept) root) ≡ complete_at step root
  complete_at-keep step kept [] member = refl
  complete_at-keep step kept (dir ∷ root) member = elim (Bool-cases (is_in dir.0 kept)) [
    | inl stays ↦ rw (stays, complete_at-keep step kept root member) refl
    | inr goes ↦ elim (Bool-cases (dir.0 == step)) [
      | inl here ↦
          let same = (==_iff dir.0 step).0 here in
          let no = sym goes ∙ ap (λ n. is_in n kept) same ∙ member in cc
      | inr there ↦ rw (goes, there) (complete_at-keep step kept root member)
    ]
  ]

  incomplete-keep :
      (step : ℕ) (kept : List ℕ) (root : Root C)
      → complete_at step root ≡ false
      → complete_at step (keep (λ dir. is_in dir.0 kept) root) ≡ false
  incomplete-keep step kept root none_complete = incomplete step kept root none_complete
    where
      incomplete :
          (step : ℕ) (kept : List ℕ) (root : Root C)
          → complete_at step root ≡ false
          → complete_at step (keep (λ dir. is_in dir.0 kept) root) ≡ false
      incomplete step kept [] none_complete = refl
      incomplete step kept (dir ∷ root) none_complete =
          let (not_here, rest) =
            or-eq_false ((dir.0 == step) && is_complete dir.1) (complete_at step root)
              none_complete in
          elim (Bool-cases (is_in dir.0 kept)) [
            | inl stays ↦ rw (stays, not_here) (incomplete step kept root rest)
            | inr goes ↦ rw goes (incomplete step kept root rest)
          ]

  complete_at-has : (step : ℕ) (root : Root C) → complete_at step root ≡ true → has step root ≡ true
  complete_at-has step [] complete = cc
  complete_at-has step (dir ∷ root) complete = elim (Bool-cases (dir.0 == step)) [
    | inl here ↦ rw here refl
    | inr there ↦ rw there (complete_at-has step root (rw there at complete))
  ]

  has-insert :
      (step : ℕ) (dir : ℕ × List (File × C)) (root : Root C)
      → has step (insert name_of dir root) ≡ has step (dir ∷ root)
  unfolding insert
  has-insert step dir [] = refl
  has-insert step dir (other ∷ root) = elim (Bool-cases (text_le (name_of dir) (name_of other))) [
    | inl before ↦ rw before refl
    | inr behind ↦
        rw (behind, has-insert step dir root)
          (or-or (other.0 == step) (dir.0 == step) (has step root))
  ]

  has-sorted : (step : ℕ) (root : Root C) → has step (by_name root) ≡ has step root
  unfolding sorted
  has-sorted step [] = refl
  has-sorted step (dir ∷ root) =
      has-insert step dir (by_name root)
      ∙ ap (λ (found : Bool). (dir.0 == step) || found) (has-sorted step root)

  is_in-has : (step : ℕ) (root : Root C) → has step root ≡ true → is_in step (steps_of root) ≡ true
  is_in-has step [] found = cc
  is_in-has step (dir ∷ root) found = elim (Bool-cases (dir.0 == step)) [
    | inl here ↦ rw ((==_iff step dir.0).1 (sym ((==_iff dir.0 step).0 here))) refl
    | inr there ↦ rw (is_in-has step root (rw there at found)) (or-true (step == dir.0))
  ]

  -- The last ones of an ordered list have the greatest step.
  has-drop :
      (step n : ℕ) (root : Root C)
      → Ordered root
      → AtMost step root
      → has step root ≡ true
      → n < length root
      → has step (drop n root) ≡ true
  has-drop step zero root ordered below found inside = found
  has-drop step (suc n) [] ordered below found inside = absurd (omega arith)
  has-drop step (suc n) (dir ∷ []) ordered below found inside = absurd (omega (arith, inside))
  has-drop step (suc n) (dir ∷ other ∷ root) ordered below found inside =
      elim (Bool-cases (dir.0 == step)) [
        | inl here ↦
            let same : other.0 ≡ step =
              omega (arith, ordered.0.0, below.1.0, (==_iff dir.0 step).0 here) in
            has-drop step n (other ∷ root) ordered.1 below.1
              (rw ((==_iff other.0 step).1 same) refl) (omega (arith, inside))
        | inr there ↦
            has-drop step n (other ∷ root) ordered.1 below.1 (rw there at found)
              (omega (arith, inside))
      ]

  multiples_found :
      (every : ℕ) (ckpts : Root C)
      → 0 < every
      → (steps : List ℕ) × (multiples every ckpts ≡ ok steps)
        × ((step : ℕ) → step % every ≡ 0 → has step ckpts ≡ true → is_in step steps ≡ true)
  unfolding multiples
  multiples_found every [] positive = ([], refl, λ step divides found. cc)
  multiples_found every (dir ∷ ckpts) positive =
      let (steps, made, member) = multiples_found every ckpts positive in
      let nonzero : (every == 0) ≡ false = ground arith in
      elim (Bool-cases (dir.0 % every == 0)) [
        | inl multiple ↦ (
          dir.0 ∷ steps,
          rw (nonzero, made, multiple) refl,
          λ step divides found. elim (Bool-cases (dir.0 == step)) [
            | inl here ↦ rw ((==_iff step dir.0).1 (sym ((==_iff dir.0 step).0 here))) refl
            | inr there ↦ rw (member step divides (rw there at found)) (or-true (step == dir.0))
          ],
        )
        | inr other ↦ (
          steps,
          rw (nonzero, made, other) refl,
          λ step divides found. elim (Bool-cases (dir.0 == step)) [
            | inl here ↦
                let same = (==_iff dir.0 step).0 here in
                let no : (dir.0 % every == 0) ≡ true =
                  (==_iff (dir.0 % every) 0).1 (rw same divides) in
                let clash = sym other ∙ no in cc
            | inr there ↦ member step divides (rw there at found)
          ],
        )
      ]

  picked :
      (step : ℕ) (root : Root C)
      → Nine root
      → AtMost step root
      → complete_at step root ≡ true
      → latest root ≡ some step
  picked step root nine below complete =
      latest-newest root nine ∙ newest_of_greatest step root below complete

  last_kept :
      (count step : ℕ) (root : Root C)
      → Nine root
      → AtMost step root
      → complete_at step root ≡ true
      → leb (length (by_name root)) (suc count) ≡ false
      → is_in step (steps_of (last_of (suc count) (by_name root))) ≡ true
  last_kept count step root nine below complete many =
      let size = length (by_name root) in
      let more : suc count < size = not-leb size (suc count) many in
      is_in-has step (drop (size - suc count) (by_name root)) (
        has-drop step (size - suc count) (by_name root) (sorted-Ordered root nine)
          (sorted-All name_of (λ (dir : ℕ × List (File × C)). dir.0 ≤ step) root below)
          (has-sorted step root ∙ complete_at-has step root complete) (omega (arith, more)))

  -- With positive arguments, where the greatest step has a complete directory and all steps have at
  -- most nine digits, the removal does not fail, the checkpoint that is picked for resuming stays the
  -- same, and every step that is a multiple of `keep_every` has a complete directory just if it had
  -- one.
  pub latest-garbage_collect :
      (keep_last keep_every step multiple : ℕ) (root : Root C)
      → 0 < keep_last
      → 0 < keep_every
      → Nine root
      → AtMost step root
      → complete_at step root ≡ true
      → multiple % keep_every ≡ 0
      → (left : Root C) × (garbage_collect keep_last keep_every root ≡ ok left)
        × (latest left ≡ some step)
        × (latest root ≡ some step)
        × (complete_at multiple left ≡ complete_at multiple root)
  unfolding garbage_collect
  latest-garbage_collect zero keep_every step multiple root some_last positive nine below complete
        divides =
      absurd (omega (arith, some_last))
  latest-garbage_collect (suc count) keep_every step multiple root some_last positive nine below
        complete divides =
      let newest_here = picked step root nine below complete in
      elim (Bool-cases (leb (length (by_name root)) (suc count))) [
        | inl few ↦ (root, rw few refl, newest_here, newest_here, refl)
        | inr many ↦
            let (every, made, member) = multiples_found keep_every (by_name root) positive in
            let last_steps = steps_of (last_of (suc count) (by_name root)) in
            let kept = last_steps ++ every in
            let last_stays =
              is_in-append_left step last_steps every
                (last_kept count step root nine below complete many) in
            let left = keep (λ (dir : ℕ × List (File × C)). is_in dir.0 kept) root in
            (
              left,
              rw (many, made) refl,
              picked step left
                  (All-keep (λ (dir : ℕ × List (File × C)). dir.0 < 10 ^ 9)
                    (λ dir. is_in dir.0 kept) root nine)
                  (All-keep (λ (dir : ℕ × List (File × C)). dir.0 ≤ step) (λ dir. is_in dir.0 kept)
                    root below)
                  (complete_at-keep step kept root last_stays ∙ complete),
              newest_here,
              elim (Bool-cases (complete_at multiple root)) [
                | inl was ↦
                    let found = has-sorted multiple root ∙ complete_at-has multiple root was in
                    complete_at-keep multiple kept root
                      (is_in-append_right multiple last_steps every (member multiple divides found))
                | inr was_not ↦ incomplete-keep multiple kept root was_not ∙ sym was_not
              ],
            )
      ]
