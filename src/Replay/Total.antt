-- ===== src/Replay/Total.antt =====
-- `_DiskTreeFold.result` (src/pretrain/cli/audit_replay.py) adds up the stack and removes its files.
use mathlib.Core.Option.{some-injective}
use open_transformers.Prelude.{
  ℕ, zero, suc, ◌+◌, ◌≤◌, ◌≡◌, refl, sym, ap, ap₂, ◌∙◌, List, [], ◌∷◌, Option, none, some, map,
  range, ok, arith,
}
use open_transformers.StateHash.Tags.{Bytes}
use open_transformers.StateHash.Feed.{Hashing, Tensor}
use open_transformers.Reduce.Tree.{join}
use open_transformers.Prelude.Disk.{Disk}
use open_transformers.Replay.Paths.{fold_path, digest_path}
use open_transformers.Replay.Spill.{Storage}
use open_transformers.Replay.Carry.{carry_all, total}
use open_transformers.Replay.Fold.{
  Entry, in_ram, on_disk, fetch, fold_up, DiskTreeFold, push_all, add_entries, result,
}
use open_transformers.Replay.Files.{Values, dict, add_values, add_into-dict}
use open_transformers.Replay.Removed.{
  removed, remove_entry, remove_entries, touch-other, remove_entries_comm,
}
use open_transformers.Replay.Simulation.{
  Loads, Spilled, bare, ram, file, load_verified-agree, fetch-file,
}
use open_transformers.Replay.Pushes.{Folded, push-Folded}

module _ (hashing : Hashing) (storage : Storage) (env : Option Bytes) (names : List Bytes) where
  -- Removing a stack's files leaves those with larger numbers.
  remove_entries-above :
      {disk : Disk} {limit : ℕ} (stack : List (ℕ × Entry)) {values : List (ℕ × Values)} (d : Disk)
      (j : ℕ)
      → Spilled hashing storage env names disk limit stack values
      → limit ≤ j
      → (remove_entries stack d (fold_path j) ≡ d (fold_path j))
        × (remove_entries stack d (digest_path (fold_path j)) ≡ d (digest_path (fold_path j)))
  unfolding remove_entries remove_entry
  remove_entries-above [] d j bare h = (refl, refl)
  remove_entries-above (_ ∷ stack) d j (ram level f rest) h = remove_entries-above stack d j rest h
  remove_entries-above (_ ∷ stack) d j (file level i f less loads rest) h =
      let (own, digest) = touch-other i j none none d (λ e. omega arith) in
      let (more, more_digest) =
        remove_entries-above stack (removed (fold_path i) d) j rest (omega arith) in
      (more ∙ own, more_digest ∙ digest)

  -- A file is fetched behind those below it in the stack.
  fetch-spilled :
      {disk : Disk} (stack : List (ℕ × Entry)) {values : List (ℕ × Values)} (i : ℕ) (f : Values)
      → Spilled hashing storage env names disk i stack values
      → Loads hashing storage env names disk i f
      → fetch hashing storage env (on_disk (fold_path i)) (remove_entries stack disk)
        ≡ ok (dict names f, removed (fold_path i) (remove_entries stack disk))
  fetch-spilled {disk} stack i f rest loads =
      let left = remove_entries stack disk in
      let (own, digest) = remove_entries-above stack disk i rest (omega arith) in
      fetch-file hashing storage env names i f left
        (load_verified-agree hashing storage env names (fold_path i) disk left own digest ∙ loads)

  module _ (add : Tensor → Tensor → Tensor) where
    -- The entries from the bottom on, where the stack below holds values: the sum, and the disk
    -- without the files.
    fold_up-Spilled :
        {disk : Disk} {limit : ℕ} (stack : List (ℕ × Entry)) {values : List (ℕ × Values)}
        (entry : Entry) (f : Values)
        → Spilled hashing storage env names disk limit stack values
        → fetch hashing storage env entry (remove_entries stack disk)
          ≡ ok (dict names f, remove_entry entry (remove_entries stack disk))
        → fold_up hashing storage env add entry stack disk
          ≡ ok (
            dict names (join (add_values add) (total (add_values add) values) f),
            remove_entry entry (remove_entries stack disk),
          )
    unfolding fold_up total remove_entries join remove_entry fetch
    fold_up-Spilled [] entry f bare fetched = fetched
    fold_up-Spilled (_ ∷ stack) entry f (ram level g rest) fetched =
        rw
          (
            fold_up-Spilled stack (in_ram (dict names g)) g rest refl,
            fetched,
            add_into-dict add names,
          )
          refl
    fold_up-Spilled {disk} (_ ∷ stack) entry f (file level i g less loads rest) fetched =
        let order = remove_entries_comm stack (on_disk (fold_path i)) disk in
        rw
          (
            fold_up-Spilled stack (on_disk (fold_path i)) g rest
                (fetch-spilled stack i g rest loads),
            ← order,
            fetched,
            add_into-dict add names,
          )
          refl

    add_entries-Spilled :
        {disk : Disk} {limit : ℕ} (stack : List (ℕ × Entry)) {values : List (ℕ × Values)}
        (sum : Values)
        → Spilled hashing storage env names disk limit stack values
        → total (add_values add) values ≡ some sum
        → add_entries hashing storage env add stack disk
          ≡ ok (dict names sum, remove_entries stack disk)
    unfolding add_entries total remove_entries remove_entry fetch
    add_entries-Spilled [] sum bare e = cc
    add_entries-Spilled {disk} (_ ∷ stack) sum (ram level f rest) e =
        fold_up-Spilled stack (in_ram (dict names f)) f rest refl
        ∙ ap (λ v. ok (dict names v, remove_entries stack disk)) (some-injective _ _ e)
    add_entries-Spilled {disk} (_ ∷ stack) sum (file level i f less loads rest) e =
        fold_up-Spilled stack (on_disk (fold_path i)) f rest (fetch-spilled stack i f rest loads)
        ∙ ap₂ (λ v d. ok (dict names v, d)) (some-injective _ _ e)
            (sym (remove_entries_comm stack (on_disk (fold_path i)) disk))

    pub result-Folded :
        {values : List (ℕ × Values)} (clean : Disk) (self : DiskTreeFold) (disk : Disk)
        (sum : Values)
        → Folded hashing storage env names add values clean self disk
        → total (add_values add) values ≡ some sum
        → result hashing storage env add self disk ≡ ok (dict names sum, clean)
    unfolding result
    result-Folded clean self disk sum h e =
        add_entries-Spilled self.stack sum h.held e ∙ ap (λ d. ok (dict names sum, d)) h.cleaned

    -- Pushing the parts from `start` on.
    pub push_all-Folded :
        (g : ℕ → Values) (start count : ℕ) (clean : Disk) (self : DiskTreeFold) (disk : Disk)
        → Folded hashing storage env names add (carry_all (add_values add) g start) clean self disk
        → (next : DiskTreeFold) × (after : Disk) × (push_all hashing storage env add
              (map (λ i. dict names (g i)) (range start count))
              self
              disk
            ≡ ok (next, after))
          × Folded hashing storage env names add
              (carry_all (add_values add) g (start + count))
              clean
              next
              after
    unfolding push_all carry_all
    push_all-Folded g start zero clean self disk h =
        let none_more : start + 0 ≡ start = omega arith in (self, disk, refl, rw none_more h)
    push_all-Folded g start (suc count) clean self disk h =
        let one_more : start + suc count ≡ suc start + count = omega arith in
        let (next, after, pushed, held) =
          push-Folded hashing storage env names add (g start) clean self disk h in
        let (last, left, rest, all) = push_all-Folded g (suc start) count clean next after held in
        (last, left, rw (pushed, rest) refl, rw one_more all)
