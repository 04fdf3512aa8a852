-- ===== src/Replay/Spill.antt =====
-- The spill files of the replay, with a digest beside each (src/pretrain/cli/audit_replay.py).
use open_transformers.Prelude.{
  ◌≡◌, Bool, true, ◌&&◌, ◌||◌, not, List, [], ◌∷◌, ◌++◌, Option, none, some, map, leb, ◌+◌,
  if◌then◌else◌, Result, ok, raise_if, spill_corruption, ◌>>=◌, ◌>>◌, ℕ,
}
use open_transformers.StateHash.Tags.{Bytes}
use open_transformers.StateHash.Feed.{Hashing, Tensor, feed_tensor}
use open_transformers.StateHash.Sorted.{sorted}
use open_transformers.StateHash.Hex.{hex, is_space}
use open_transformers.Prelude.Disk.{text_eq, Disk, set_file, read_file}
use open_transformers.Replay.Paths.{digest_path}

-- A tensor, or a dict from names to tensors or `None`.
pub data Payload : Type 0 where
  tensor : Tensor → Payload
  mapping : List (Bytes × Option Tensor) → Payload

-- `torch.save` and `torch.load`: a file that was saved is loaded byte for byte.
pub record Storage : Type 0 where
  pub save : Payload → Bytes
  pub load : Bytes → Result Payload
  pub load-save : (payload : Payload) → load (save payload) ≡ ok payload

-- `str.lower` on ASCII.
abbrev pub lower_char : ℕ → ℕ
lower_char c = if leb 65 c && leb c 90 then c + 32 else c

abbrev pub lower : Bytes → Bytes
lower text = map lower_char text

-- The environment variable, 1 where it is not set, is none of `0`, `false`, `no` and the empty text.
unfoldable pub spill_verify_enabled : Option Bytes → Bool
spill_verify_enabled none = true
spill_verify_enabled (some value) =
    let text = lower value in
    not (
      text_eq text (48 ∷ [])
      || (text_eq text (102 ∷ 97 ∷ 108 ∷ 115 ∷ 101 ∷ [])
          || (text_eq text (110 ∷ 111 ∷ []) || text_eq text [])))

-- `str.strip`: the white space at both ends goes.
unfoldable pub rstrip : Bytes → Bytes
rstrip [] = []
rstrip (c ∷ text) = let rest = rstrip text in if is_space c && text_eq rest [] then [] else c ∷ rest

unfoldable pub lstrip : Bytes → Bytes
lstrip [] = []
lstrip (c ∷ text) = let rest = lstrip text in if is_space c then rest else c ∷ text

unfoldable pub strip : Bytes → Bytes
unfolding lstrip rstrip
strip text = lstrip (rstrip text)

module _ (hashing : Hashing) where
  -- `feed`: a tensor under its name, or the mark of an absent one.
  unfoldable pub feed_entry : Bytes → Bytes × Option Tensor → Bytes
  feed_entry h (name, none) = h ++ (name ++ 0 ∷ 110 ∷ 111 ∷ 110 ∷ 101 ∷ 0 ∷ [])
  feed_entry h (name, some t) = feed_tensor hashing h (name ++ 0 ∷ []) t

  unfoldable pub feed_entries : Bytes → List (Bytes × Option Tensor) → Bytes
  feed_entries h [] = h
  feed_entries h (entry ∷ entries) = feed_entries (feed_entry h entry) entries

  unfoldable pub feed_payload : Payload → Bytes
  feed_payload (tensor t) = feed_entry [] ([], some t)
  feed_payload (mapping entries) = feed_entries [] (sorted (λ entry. entry.0) entries)

  unfoldable pub digest_payload : Payload → Bytes
  digest_payload payload = hex (hashing.blake2b (feed_payload payload))

-- `env` is the environment variable PRETRAIN_AUDIT_SPILL_VERIFY.
module _ (hashing : Hashing) (storage : Storage) (env : Option Bytes) where
  unfoldable pub save_verified : Payload → Bytes → Disk → Disk
  save_verified payload path disk =
      let saved = set_file path (some (storage.save payload)) disk in
      if spill_verify_enabled env
      then set_file (digest_path path) (some (digest_payload hashing payload)) saved
      else saved

  -- `if got != want`, where there is a sidecar to compare with.
  unfoldable pub check_digest : Option Bytes → Payload → Result (Unit {0})
  check_digest none payload = ok tt
  check_digest (some want) payload =
      raise_if
        (spill_verify_enabled env && not (text_eq (digest_payload hashing payload) (strip want)))
        spill_corruption

  unfoldable pub load_verified : Bytes → Disk → Result Payload
  load_verified path disk = do
    content ← read_file (disk path)
    payload ← storage.load content
    check_digest (disk (digest_path path)) payload
    ok payload

-- `path.unlink()` fails on a missing file, the sidecar's does not.
unfoldable pub unlink_verified : Bytes → Disk → Result Disk
unlink_verified path disk = do
  content ← read_file (disk path)
  ok (set_file (digest_path path) none (set_file path none disk))
