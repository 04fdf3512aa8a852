-- ===== src/Replay/Simulation.antt =====
-- `_DiskTreeFold` (src/pretrain/cli/audit_replay.py) goes through the stacks of the carry fold, with its
-- entries in memory or on the disk.
use open_transformers.Prelude.{
  ℕ, suc, ◌≤◌, ◌<◌, ◌≡◌, refl, ap, ◌∙◌, List, [], ◌∷◌, Option, ◌==◌, Bool-cases, inl, inr, ok,
  >>=-eq-ok, arith, length,
}
use open_transformers.StateHash.Tags.{Bytes}
use open_transformers.StateHash.Feed.{Hashing, Tensor}
use open_transformers.Prelude.Disk.{Disk, read_file}
use open_transformers.Replay.Paths.{fold_path, digest_path}
use open_transformers.Replay.Spill.{Storage, load_verified, unlink_verified}
use open_transformers.Replay.Carry.{carry}
use open_transformers.Replay.Fold.{Entry, in_ram, on_disk, as_payload, fetch, carry_loop}
use open_transformers.Replay.Files.{Values, dict, add_values, add_into-dict, as_gradient-as_payload}
use open_transformers.Replay.Removed.{
  removed, remove_entry, remove_entries, Agree, Fresh, Agree-removed, Fresh-removed,
}

module _ (hashing : Hashing) (storage : Storage) (env : Option Bytes) (names : List Bytes) where
  -- The file of number `i` is loaded as the values.
  abbrev pub Loads : Disk → ℕ → Values → Type 0
  Loads disk i f =
      load_verified hashing storage env (fold_path i) disk ≡ ok (as_payload (dict names f))

  -- The stack holds the values: its files have falling numbers below `limit`.
  pub data Spilled (disk : Disk) : ℕ → List (ℕ × Entry) → List (ℕ × Values) → Type 0 where
    bare : {limit : ℕ} → Spilled disk limit [] []
    ram :
        {limit : ℕ} {stack : List (ℕ × Entry)} {values : List (ℕ × Values)} (level : ℕ) (f : Values)
        → Spilled disk limit stack values
        → Spilled disk limit ((level, in_ram (dict names f)) ∷ stack) ((level, f) ∷ values)
    file :
        {limit : ℕ} {stack : List (ℕ × Entry)} {values : List (ℕ × Values)} (level i : ℕ)
        (f : Values)
        → i < limit
        → Loads disk i f
        → Spilled disk i stack values
        → Spilled disk limit ((level, on_disk (fold_path i)) ∷ stack) ((level, f) ∷ values)

  Spilled-limit :
      {disk : Disk} {a b : ℕ} {stack : List (ℕ × Entry)} {values : List (ℕ × Values)}
      → Spilled disk a stack values
      → a ≤ b
      → Spilled disk b stack values
  Spilled-limit bare h = bare
  Spilled-limit (ram level f rest) h = ram level f (Spilled-limit rest h)
  Spilled-limit (file level i f less loads rest) h = file level i f (omega arith) loads rest

  pub length-Spilled :
      {disk : Disk} {limit : ℕ} (stack : List (ℕ × Entry)) {values : List (ℕ × Values)}
      → Spilled disk limit stack values
      → length stack ≡ length values
  length-Spilled [] bare = refl
  length-Spilled (_ ∷ stack) (ram level f rest) = ap suc (length-Spilled stack rest)
  length-Spilled (_ ∷ stack) (file level i f less loads rest) = ap suc (length-Spilled stack rest)

  pub load_verified-agree :
      (path : Bytes) (disk other : Disk)
      → other path ≡ disk path
      → other (digest_path path) ≡ disk (digest_path path)
      → load_verified hashing storage env path other ≡ load_verified hashing storage env path disk
  unfolding load_verified
  load_verified-agree path disk other own digest = rw (own, digest) refl

  pub Spilled-agree :
      {disk other : Disk} {limit : ℕ} {stack : List (ℕ × Entry)} {values : List (ℕ × Values)}
      → Spilled disk limit stack values
      → Agree limit disk other
      → Spilled other limit stack values
  Spilled-agree bare h = bare
  Spilled-agree (ram level f rest) h = ram level f (Spilled-agree rest h)
  Spilled-agree {disk} {other} (file level i f less loads rest) h =
      let (own, digest) = h i less in
      file level i f less (load_verified-agree (fold_path i) disk other own digest ∙ loads)
        (Spilled-agree rest (λ j k. h j (omega arith)))

  -- A file that is loaded is there to be removed.
  unlink-loaded :
      (i : ℕ) (f : Values) (disk : Disk)
      → Loads disk i f
      → unlink_verified (fold_path i) disk ≡ ok (removed (fold_path i) disk)
  unfolding load_verified unlink_verified
  unlink-loaded i f disk loads =
      let (content, found, _) = >>=-eq-ok (read_file (disk (fold_path i))) _ loads in rw found refl

  pub fetch-file :
      (i : ℕ) (f : Values) (disk : Disk)
      → Loads disk i f
      → fetch hashing storage env (on_disk (fold_path i)) disk
        ≡ ok (dict names f, removed (fold_path i) disk)
  unfolding fetch
  fetch-file i f disk loads =
      rw (loads, as_gradient-as_payload (dict names f), unlink-loaded i f disk loads) refl

  module _ (add : Tensor → Tensor → Tensor) where
    -- What the loop of `push` leaves, in step with the carry fold.
    pub record Carried (level : ℕ) (f : Values) (stack : List (ℕ × Entry))
        (values : List (ℕ × Values)) (limit : ℕ) (disk : Disk) : Type 0 where
      pub up : ℕ
      pub sum : Values
      pub left : List (ℕ × Entry)
      pub left_values : List (ℕ × Values)
      pub after : Disk
      pub runs :
          carry_loop hashing storage env add level (dict names f) stack disk
          ≡ ok (up, dict names sum, left, after)
      pub carries : carry (add_values add) level f values ≡ (up, sum) ∷ left_values
      pub held : Spilled after limit left left_values
      pub cleaned : remove_entries left after ≡ remove_entries stack disk
      pub fresh : (q : ℕ) → limit ≤ q → Fresh q disk → Fresh q after

    pub carry_loop-Carried :
        (stack : List (ℕ × Entry)) {values : List (ℕ × Values)} {limit : ℕ} {disk : Disk}
        (level : ℕ) (f : Values)
        → Spilled disk limit stack values
        → Carried level f stack values limit disk
    unfolding carry_loop carry remove_entries remove_entry fetch
    carry_loop-Carried [] {disk} level f bare = record {
      up = level;
      sum = f;
      left = [];
      left_values = [];
      after = disk;
      runs = refl;
      carries = refl;
      held = bare;
      cleaned = refl;
      fresh = λ q le h. h;
    }
    carry_loop-Carried (_ ∷ stack) {disk} level f (ram {values} top g rest) =
        elim (Bool-cases (top == level)) [
          | inl same ↦
              let next = carry_loop-Carried stack (suc level) (add_values add g f) rest in
              record {
                up = next.up;
                sum = next.sum;
                left = next.left;
                left_values = next.left_values;
                after = next.after;
                runs = rw (same, add_into-dict add names g f) next.runs;
                carries = rw same next.carries;
                held = next.held;
                cleaned = next.cleaned;
                fresh = next.fresh;
              }
          | inr other ↦ record {
            up = level;
            sum = f;
            left = (top, in_ram (dict names g)) ∷ stack;
            left_values = (top, g) ∷ values;
            after = disk;
            runs = rw other refl;
            carries = rw other refl;
            held = ram top g rest;
            cleaned = refl;
            fresh = λ q le h. h;
          }
        ]
    carry_loop-Carried (_ ∷ stack) {limit} {disk} level f (file {values} top i g less loads rest) =
        elim (Bool-cases (top == level)) [
          | inl same ↦
              let gone = Spilled-agree rest (Agree-removed i disk) in
              let next = carry_loop-Carried stack (suc level) (add_values add g f) gone in
              record {
                up = next.up;
                sum = next.sum;
                left = next.left;
                left_values = next.left_values;
                after = next.after;
                runs = rw (same, fetch-file i g disk loads, add_into-dict add names g f) next.runs;
                carries = rw same next.carries;
                held = Spilled-limit next.held (omega arith);
                cleaned = next.cleaned;
                fresh =
                    λ q le h. next.fresh q (omega arith) (Fresh-removed q i disk (omega arith) h);
              }
          | inr other ↦ record {
            up = level;
            sum = f;
            left = (top, on_disk (fold_path i)) ∷ stack;
            left_values = (top, g) ∷ values;
            after = disk;
            runs = rw other refl;
            carries = rw other refl;
            held = file top i g less loads rest;
            cleaned = refl;
            fresh = λ q le h. h;
          }
        ]
