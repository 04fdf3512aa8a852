-- ===== src/Fetch/Shards.antt =====
-- The files of one source in src/pretrain/data/fetch_interval.py: `_fetch_manifest_and_indices`,
-- `_fetch_bins` and `_stub_untouched_bins`. A disk is the source's local directory.
use open_transformers.Prelude.{
  ℕ, suc, ◌+◌, Bool, true, false, ◌&&◌, not, List, [], ◌∷◌, ◌++◌, Option, none, some, length,
  replicate, item, if◌then◌else◌, Result, ok, raise_if, runtime_error, ◌>>=◌, ◌>>◌, ◌==◌,
}
use open_transformers.Prelude.Disk.{Text, text_eq, Disk, set_file, read_file}
use open_transformers.StateHash.Sorted.{sorted}

-- An empty digest was not recorded.
pub record ShardInfo : Type 0 where
  pub prefix : Text
  pub bin_blake2b : Text
  pub idx_blake2b : Text

abbrev pub recorded : Text → Bool
recorded digest = not (text_eq digest [])

-- `Path(prefix).name`: the last part between slashes that is not empty.
unfoldable pub name_from : Text → Text → Text → Text
name_from last part [] = if text_eq part [] then last else part
name_from last part (c ∷ text) =
    let inside = name_from last (part ++ c ∷ []) text in
    let next = name_from (if text_eq part [] then last else part) [] text in
    if c == 47 then next else inside

abbrev pub path_name : Text → Text
path_name prefix = name_from [] [] prefix

-- `f"{stem}.idx"`, `f"{stem}.bin"` and `manifest.yaml`.
abbrev pub idx_path : Text → Text
idx_path stem = stem ++ 46 ∷ 105 ∷ 100 ∷ 120 ∷ []

abbrev pub bin_path : Text → Text
bin_path stem = stem ++ 46 ∷ 98 ∷ 105 ∷ 110 ∷ []

abbrev pub manifest_path : Text
manifest_path = 109 ∷ 97 ∷ 110 ∷ 105 ∷ 102 ∷ 101 ∷ 115 ∷ 116 ∷ 46 ∷ 121 ∷ 97 ∷ 109 ∷ 108 ∷ []

-- `f"{basename}/{name}"`.
abbrev pub object_name : Text → Text → Text
object_name basename name = basename ++ 47 ∷ name

-- `blake2b_file` is a function of a file's bytes, and the mirror of an object's name.
module _ (blake2b : Text → Text) (mirror : Text → Result Text) (basename : Text) where
  -- `if verify and digest` with a digest that the bytes do not have.
  abbrev pub mismatch : Bool → Text → Text → Bool
  mismatch verify digest content =
      (verify && recorded digest) && not (text_eq (blake2b content) digest)

  -- `mirror.download`: the whole object under the name.
  unfoldable pub download : Text → Disk → Result Disk
  download name disk = do
    content ← mirror (object_name basename name)
    ok (set_file name (some content) disk)

  unfoldable pub check_file : Bool → Text → Text → Disk → Result (Unit {0})
  check_file verify digest name disk = do
    content ← read_file (disk name)
    raise_if (mismatch verify digest content) runtime_error

  unfoldable pub fetch_index : Bool → ShardInfo → Disk → Result (ShardInfo × Disk)
  fetch_index verify shard disk = do
    let stem = path_name shard.prefix
    let name = idx_path stem
    after ← elim (disk name) [ none ↦ download name disk | some content ↦ ok disk ]
    check_file verify shard.idx_blake2b name after
    ok (record shard { prefix = stem }, after)

  unfoldable pub fetch_indices : Bool → List ShardInfo → Disk → Result (List ShardInfo × Disk)
  fetch_indices verify [] disk = ok ([], disk)
  fetch_indices verify (shard ∷ shards) disk = do
    (renamed, after) ← fetch_index verify shard disk
    (more, left) ← fetch_indices verify shards after
    ok (renamed ∷ more, left)

  -- `load` and `dump` are those of the manifest's class.
  unfoldable pub fetch_manifest_and_indices :
      (Text → Result (List ShardInfo))
      → (List ShardInfo → Text)
      → Bool
      → Disk
      → Result (List ShardInfo × Disk)
  fetch_manifest_and_indices load dump verify disk = do
    first ← download manifest_path disk
    content ← read_file (first manifest_path)
    shards ← load content
    (renamed, after) ← fetch_indices verify shards first
    ok (renamed, set_file manifest_path (some (dump renamed)) after)

  -- A download of a payload: its size, if the manifest's digest is met.
  unfoldable pub download_bin : Bool → ShardInfo → Disk → Result (ℕ × Disk)
  download_bin verify shard disk = do
    let name = bin_path shard.prefix
    after ← download name disk
    content ← read_file (after name)
    raise_if (mismatch verify shard.bin_blake2b content) runtime_error
    ok (length content, after)

  -- A payload that is there is kept, unless its digest is known to be another.
  unfoldable pub keep_or_download : Bool → ShardInfo → Disk → Option Text → Result (ℕ × Disk)
  keep_or_download verify shard disk none = download_bin verify shard disk
  keep_or_download verify shard disk (some content) =
      if mismatch verify shard.bin_blake2b content
      then download_bin verify shard (set_file (bin_path shard.prefix) none disk)
      else ok (0, disk)

  unfoldable pub fetch_bin : Bool → ShardInfo → Disk → Result (ℕ × Disk)
  fetch_bin verify shard disk = keep_or_download verify shard disk (disk (bin_path shard.prefix))

  unfoldable pub fetch_each : Bool → List ShardInfo → List ℕ → Disk → Result (ℕ × Disk)
  fetch_each verify shards [] disk = ok (0, disk)
  fetch_each verify shards (sid ∷ ids) disk = do
    shard ← item shards sid
    (size, after) ← fetch_bin verify shard disk
    (more, left) ← fetch_each verify shards ids after
    ok (size + more, left)

  -- The shards in the order of their numbers.
  unfoldable pub fetch_bins : Bool → List ShardInfo → List ℕ → Disk → Result (ℕ × Disk)
  fetch_bins verify shards ids disk = fetch_each verify shards (sorted (λ sid. sid ∷ []) ids) disk

abbrev pub is_in : ℕ → List ℕ → Bool
is_in sid [] = false
is_in sid (other ∷ ids) = let rest = is_in sid ids in if sid == other then true else rest

-- `payload_size` is the size that an index file gives its payload.
module _ (payload_size : Text → Result ℕ) where
  unfoldable pub keep_or_stub : ShardInfo → Disk → Option Text → Result (ℕ × Disk)
  keep_or_stub shard disk (some content) = ok (0, disk)
  keep_or_stub shard disk none = do
    index ← read_file (disk (idx_path shard.prefix))
    size ← payload_size index
    ok (1, set_file (bin_path shard.prefix) (some (replicate size 0)) disk)

  unfoldable pub stub_bin : ShardInfo → Disk → Result (ℕ × Disk)
  stub_bin shard disk = keep_or_stub shard disk (disk (bin_path shard.prefix))

  -- The shards from number `sid` on.
  unfoldable pub stub_from : List ShardInfo → ℕ → List ℕ → Disk → Result (ℕ × Disk)
  stub_from [] sid touched disk = ok (0, disk)
  stub_from (shard ∷ shards) sid touched disk = do
    (created, after) ← (if is_in sid touched then ok (0, disk) else stub_bin shard disk)
    (more, left) ← stub_from shards (suc sid) touched after
    ok (created + more, left)

  unfoldable pub stub_untouched_bins : List ShardInfo → List ℕ → Disk → Result (ℕ × Disk)
  stub_untouched_bins shards touched disk = stub_from shards 0 touched disk
