-- ===== src/Replay/Removed.antt =====
-- The disk without the spilled files of a stack (src/pretrain/cli/audit_replay.py).
use open_transformers.Prelude.{
  ℕ, suc, ◌≤◌, ◌<◌, ◌≡◌, ◌≢◌, refl, sym, ap, ◌∙◌, Bool, true, false, List, [], ◌∷◌, Option, none,
  if◌then◌else◌, Bool-cases, inl, inr, arith, fun_ext,
}
use open_transformers.StateHash.Tags.{Bytes}
use open_transformers.StateHash.Feed.{Hashing}
use open_transformers.Prelude.Disk.{text_eq, text_eq-eq, Disk, set_file, set_file-other}
use open_transformers.Replay.Paths.{
  fold_path, digest_path, fold_path-injective, fold_path-digest_path, digest_path-injective,
}
use open_transformers.Replay.Spill.{Storage, save_verified, spill_verify_enabled}
use open_transformers.Replay.Fold.{Gradient, Entry, in_ram, on_disk, as_payload}

-- A file and its digest removed.
abbrev pub removed : Bytes → Disk → Disk
removed path disk = set_file (digest_path path) none (set_file path none disk)

unfoldable pub remove_entry : Entry → Disk → Disk
remove_entry (in_ram gradient) disk = disk
remove_entry (on_disk path) disk = removed path disk

-- The disk without the files of a stack.
unfoldable pub remove_entries : List (ℕ × Entry) → Disk → Disk
unfolding remove_entry
remove_entries [] disk = disk
remove_entries ((level, entry) ∷ stack) disk = remove_entries stack (remove_entry entry disk)

-- The disks agree on the spilled files with numbers below `limit`.
abbrev pub Agree : ℕ → Disk → Disk → Type 0
Agree limit disk other =
    (j : ℕ)
    → j < limit
    → (other (fold_path j) ≡ disk (fold_path j))
      × (other (digest_path (fold_path j)) ≡ disk (digest_path (fold_path j)))

-- No spilled file has a number from `limit` on.
abbrev pub Fresh : ℕ → Disk → Type 0
Fresh limit disk =
    (j : ℕ) → limit ≤ j → (disk (fold_path j) ≡ none) × (disk (digest_path (fold_path j)) ≡ none)

-- A write of the files of number `i` leaves those of other numbers.
pub touch-other :
    (i j : ℕ) (content digest : Option Bytes) (disk : Disk)
    → j ≢ i
    → (set_file
          (digest_path (fold_path i))
          digest
          (set_file (fold_path i) content disk)
          (fold_path j)
        ≡ disk (fold_path j))
      × (set_file
            (digest_path (fold_path i))
            digest
            (set_file (fold_path i) content disk)
            (digest_path (fold_path j))
          ≡ disk (digest_path (fold_path j)))
touch-other i j content digest disk differs =
    let one = set_file (fold_path i) content disk in
    (
      set_file-other (digest_path (fold_path i)) (fold_path j) digest one
            (fold_path-digest_path j i)
          ∙ set_file-other (fold_path i) (fold_path j) content disk
              (λ e. differs (fold_path-injective j i e)),
      set_file-other (digest_path (fold_path i)) (digest_path (fold_path j)) digest one
            (λ e. differs (digest_path-injective j i e))
          ∙ set_file-other (fold_path i) (digest_path (fold_path j)) content disk
              (λ e. fold_path-digest_path i j (sym e)),
    )

pub Agree-removed : (i : ℕ) (disk : Disk) → Agree i disk (removed (fold_path i) disk)
Agree-removed i disk j less = touch-other i j none none disk (λ e. omega arith)

pub Fresh-removed :
    (limit i : ℕ) (disk : Disk)
    → i < limit
    → Fresh limit disk
    → Fresh limit (removed (fold_path i) disk)
Fresh-removed limit i disk less fresh j above =
    let (file, digest) = touch-other i j none none disk (λ e. omega arith) in
    let (no_file, no_digest) = fresh j above in (file ∙ no_file, digest ∙ no_digest)

if-same : (b : Bool) (x : Option Bytes) → (if b then x else x) ≡ x
if-same true x = refl
if-same false x = refl

-- Removals may change places.
none-none :
    (a b : Bool) (x : Option Bytes)
    → (if a then none else if b then none else x) ≡ (if b then none else if a then none else x)
none-none true b x = sym (if-same b none)
none-none false b x = refl

set_file_comm :
    (p q : Bytes) (disk : Disk)
    → set_file p none (set_file q none disk) ≡ set_file q none (set_file p none disk)
set_file_comm p q disk =
    fun_ext (λ other. none-none (text_eq other p) (text_eq other q) (disk other))

remove_entry_comm :
    (a b : Entry) (disk : Disk)
    → remove_entry a (remove_entry b disk) ≡ remove_entry b (remove_entry a disk)
unfolding remove_entry
remove_entry_comm (in_ram f) b disk = refl
remove_entry_comm (on_disk p) (in_ram f) disk = refl
remove_entry_comm (on_disk p) (on_disk q) disk =
    let p' = digest_path p in
    let q' = digest_path q in
    ap (set_file p' none) (set_file_comm p q' (set_file q none disk))
    ∙ set_file_comm p' q' (set_file p none (set_file q none disk))
    ∙ ap (λ d. set_file q' none (set_file p' none d)) (set_file_comm p q disk)
    ∙ ap (set_file q' none) (set_file_comm p' q (set_file p none disk))

pub remove_entries_comm :
    (stack : List (ℕ × Entry)) (entry : Entry) (disk : Disk)
    → remove_entries stack (remove_entry entry disk)
      ≡ remove_entry entry (remove_entries stack disk)
unfolding remove_entries
remove_entries_comm [] entry disk = refl
remove_entries_comm ((level, own) ∷ stack) entry disk =
    ap (remove_entries stack) (remove_entry_comm own entry disk)
    ∙ remove_entries_comm stack entry (remove_entry own disk)

-- What a removal leaves of two writes.
overwritten :
    (a b : Bool) (x y z : Option Bytes)
    → (a ≡ true → z ≡ none)
    → (b ≡ true → z ≡ none)
    → (if a then none else if b then none else if a then x else if b then y else z) ≡ z
overwritten true b x y z ha hb = sym (ha refl)
overwritten false true x y z ha hb = sym (hb refl)
overwritten false false x y z ha hb = refl

overwritten_once :
    (a b : Bool) (y z : Option Bytes)
    → (a ≡ true → z ≡ none)
    → (b ≡ true → z ≡ none)
    → (if a then none else if b then none else if b then y else z) ≡ z
overwritten_once true b y z ha hb = sym (ha refl)
overwritten_once false true y z ha hb = sym (hb refl)
overwritten_once false false y z ha hb = refl

module _ (hashing : Hashing) (storage : Storage) (env : Option Bytes) where
  -- The disk after `_save_verified` of the files of number `i`.
  abbrev pub saved : ℕ → Gradient → Disk → Disk
  saved i gradient disk = save_verified hashing storage env (as_payload gradient) (fold_path i) disk

  saved-other :
      (i j : ℕ) (gradient : Gradient) (disk : Disk)
      → j ≢ i
      → (saved i gradient disk (fold_path j) ≡ disk (fold_path j))
        × (saved i gradient disk (digest_path (fold_path j)) ≡ disk (digest_path (fold_path j)))
  unfolding save_verified
  saved-other i j gradient disk differs = elim (Bool-cases (spill_verify_enabled env)) [
    | inl on ↦ rw on (touch-other i j _ _ disk differs)
    | inr off ↦ rw off (
      set_file-other (fold_path i) (fold_path j) _ disk (λ e. differs (fold_path-injective j i e)),
      set_file-other (fold_path i) (digest_path (fold_path j)) _ disk
          (λ e. fold_path-digest_path i j (sym e)),
    )
  ]

  pub Agree-saved :
      (i : ℕ) (gradient : Gradient) (disk : Disk) → Agree i disk (saved i gradient disk)
  Agree-saved i gradient disk j less = saved-other i j gradient disk (λ e. omega arith)

  pub Fresh-saved :
      (i : ℕ) (gradient : Gradient) (disk : Disk)
      → Fresh i disk
      → Fresh (suc i) (saved i gradient disk)
  Fresh-saved i gradient disk fresh j above =
      let (file, digest) = saved-other i j gradient disk (λ e. omega arith) in
      let (no_file, no_digest) = fresh j (omega arith) in (file ∙ no_file, digest ∙ no_digest)

  -- A file that is saved and removed leaves no trace.
  pub removed-saved :
      (i : ℕ) (gradient : Gradient) (disk : Disk)
      → Fresh i disk
      → removed (fold_path i) (saved i gradient disk) ≡ disk
  unfolding save_verified
  removed-saved i gradient disk fresh =
      let path = fold_path i in
      let (no_file, no_digest) = fresh i (omega arith) in
      let at = λ (p other : Bytes) (e : text_eq other p ≡ true) (gone : disk p ≡ none).
        ap disk (text_eq-eq other p e) ∙ gone in
      elim (Bool-cases (spill_verify_enabled env)) [
        | inl on ↦ rw on (
            fun_ext (λ other.
              overwritten (text_eq other (digest_path path)) (text_eq other path) _ _ (disk other)
                (λ e. at (digest_path path) other e no_digest) (λ e. at path other e no_file)))
        | inr off ↦ rw off (
            fun_ext (λ other.
              overwritten_once (text_eq other (digest_path path)) (text_eq other path) _
                (disk other) (λ e. at (digest_path path) other e no_digest)
                (λ e. at path other e no_file)))
      ]
