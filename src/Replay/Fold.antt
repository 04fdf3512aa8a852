-- ===== src/Replay/Fold.antt =====
-- `_tree_push` and `_DiskTreeFold` (src/pretrain/cli/audit_replay.py): gradients are folded in a
-- binary-carry stack whose waiting entries may stand on the disk. A stack is held with its top first.
use open_transformers.Prelude.{
  ℕ, suc, Bool, List, [], ◌∷◌, map, Option, none, some, ◌==◌, if◌then◌else◌, Result, ok, raise,
  key_error, type_error, runtime_error, ◌>>=◌,
}
use open_transformers.StateHash.Tags.{Bytes}
use open_transformers.StateHash.Feed.{Hashing, Tensor}
use open_transformers.Prelude.Disk.{text_eq, Disk}
use open_transformers.Replay.Paths.{fold_path}
use open_transformers.Replay.Spill.{
  Payload, tensor, mapping, Storage, save_verified, load_verified, unlink_verified,
}

-- A dict from parameter names to tensors, in the order of insertion.
abbrev pub Gradient : Type 0
Gradient = List (Bytes × Tensor)

unfoldable pub get_item : Gradient → Bytes → Result Tensor
get_item [] name = raise key_error
get_item ((own, t) ∷ gradient) name =
    let rest = get_item gradient name in if text_eq own name then ok t else rest

module _ (add : Tensor → Tensor → Tensor) where
  -- `for name in lower: lower[name].add_(part[name])`.
  unfoldable pub add_into : Gradient → Gradient → Result Gradient
  add_into [] part = ok []
  add_into ((name, t) ∷ lower) part = do
    other ← get_item part name
    rest ← add_into lower part
    ok ((name, add t other) ∷ rest)

  unfoldable pub push_from : ℕ → Gradient → List (ℕ × Gradient) → Result (List (ℕ × Gradient))
  push_from level part [] = ok ((level, part) ∷ [])
  push_from level part ((top, lower) ∷ stack) =
      let rest = (do merged ← add_into lower part; push_from (suc level) merged stack) in
      if top == level then rest else ok ((level, part) ∷ (top, lower) ∷ stack)

  unfoldable pub tree_push : List (ℕ × Gradient) → Gradient → Result (List (ℕ × Gradient))
  unfolding push_from
  tree_push stack part = push_from 0 part stack

-- A waiting entry: in memory, or a file.
pub data Entry : Type 0 where
  in_ram : Gradient → Entry
  on_disk : Bytes → Entry

-- `spills` is `spill_dir is not None`.
pub record DiskTreeFold : Type 0 where
  pub spills : Bool
  pub stack : List (ℕ × Entry)
  pub seq : ℕ

abbrev pub as_payload : Gradient → Payload
as_payload gradient = mapping (map (λ entry. (entry.0, some entry.1)) gradient)

-- A payload used as a gradient: `None` and a tensor have no `add_` or no items.
unfoldable pub gradient_entries : List (Bytes × Option Tensor) → Result Gradient
gradient_entries [] = ok []
gradient_entries ((name, none) ∷ entries) = raise type_error
gradient_entries ((name, some t) ∷ entries) = do
  rest ← gradient_entries entries
  ok ((name, t) ∷ rest)

unfoldable pub as_gradient : Payload → Result Gradient
as_gradient (tensor t) = raise type_error
as_gradient (mapping entries) = gradient_entries entries

abbrev pub new_fold : Bool → DiskTreeFold
new_fold spills = record { spills = spills; stack = []; seq = 0 }

module _ (hashing : Hashing) (storage : Storage) (env : Option Bytes) where
  -- `_store`: the entry, the next number and the disk.
  unfoldable pub store : Bool → ℕ → Gradient → Disk → Entry × ℕ × Disk
  store spills seq gradient disk =
      if spills
      then (
        on_disk (fold_path seq),
        suc seq,
        save_verified hashing storage env (as_payload gradient) (fold_path seq) disk,
      )
      else (in_ram gradient, seq, disk)

  unfoldable pub fetch : Entry → Disk → Result (Gradient × Disk)
  fetch (in_ram gradient) disk = ok (gradient, disk)
  fetch (on_disk path) disk = do
    payload ← load_verified hashing storage env path disk
    gradient ← as_gradient payload
    after ← unlink_verified path disk
    ok (gradient, after)

module _ (hashing : Hashing) (storage : Storage) (env : Option Bytes)
    (add : Tensor → Tensor → Tensor) where
  -- The loop of `push`: what is left of the stack, the level and the sum.
  unfoldable pub carry_loop :
      ℕ → Gradient → List (ℕ × Entry) → Disk → Result (ℕ × Gradient × List (ℕ × Entry) × Disk)
  carry_loop level part [] disk = ok (level, part, [], disk)
  carry_loop level part ((top, entry) ∷ stack) disk =
      let rest = (do
        (lower, after) ← fetch hashing storage env entry disk
        merged ← add_into add lower part
        carry_loop (suc level) merged stack after) in
      if top == level then rest else ok (level, part, (top, entry) ∷ stack, disk)

  unfoldable pub push : Gradient → DiskTreeFold → Disk → Result (DiskTreeFold × Disk)
  unfolding carry_loop
  push part self disk = do
    (level, merged, stack, after) ← carry_loop 0 part self.stack disk
    let (entry, seq, stored) = store hashing storage env self.spills self.seq merged after
    ok (record { spills = self.spills; stack = (level, entry) ∷ stack; seq = seq }, stored)

  unfoldable pub push_all : List Gradient → DiskTreeFold → Disk → Result (DiskTreeFold × Disk)
  push_all [] self disk = ok (self, disk)
  push_all (part ∷ parts) self disk = do
    (next, after) ← push part self disk
    push_all parts next after

  -- The entries from the bottom of the stack on, added up.
  unfoldable pub fold_up : Entry → List (ℕ × Entry) → Disk → Result (Gradient × Disk)
  fold_up bottom [] disk = fetch hashing storage env bottom disk
  fold_up top ((level, entry) ∷ below) disk = do
    (acc, after) ← fold_up entry below disk
    (part, left) ← fetch hashing storage env top after
    merged ← add_into add acc part
    ok (merged, left)

  unfoldable pub add_entries : List (ℕ × Entry) → Disk → Result (Gradient × Disk)
  add_entries [] disk = raise runtime_error
  add_entries ((level, entry) ∷ below) disk = fold_up entry below disk

  unfoldable pub result : DiskTreeFold → Disk → Result (Gradient × Disk)
  unfolding add_entries
  result self disk = add_entries self.stack disk

  -- The parts of all replicates pushed in their order, and the result.
  unfoldable pub fold_parts : Bool → List Gradient → Disk → Result (Gradient × Disk)
  fold_parts spills parts disk = do
    (self, after) ← push_all parts (new_fold spills) disk
    result self after

-- A stack in memory.
abbrev pub all_in_ram : List (ℕ × Gradient) → List (ℕ × Entry)
all_in_ram stack = map (λ entry. (entry.0, in_ram entry.1)) stack
