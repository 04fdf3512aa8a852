-- ===== src/Walker/Shuffle.antt =====
-- `_stable_name_hash`, `_build_global_perm` and the resolution of a document to its shard in
-- src/pretrain/data/mix_sampler.py. The process-wide cache of permutations is left out.
use open_transformers.Prelude.{
  ℕ, ◌+◌, ◌-◌, ◌*◌, ◌≡◌, ◌≤◌, ◌<◌, List, [], ◌∷◌, ◌++◌, All, map, length, take, ltb, ◌==◌,
  if◌then◌else◌, item, Result, ok, raise_if, value_error, ◌>>=◌, ◌>>◌,
}
use open_transformers.Dataset.Offsets.{sums}

-- How often a number stands in a list.
abbrev pub count : ℕ → List ℕ → ℕ
count v [] = 0
count v (x ∷ xs) = (if v == x then 1 else 0) + count v xs

-- `np.random.default_rng(key).permutation(n)`, `np.searchsorted(..., side="right")` and
-- `hashlib.sha256`. A permutation of `n` has each number below `n` once and no other.
pub record Shuffling : Type 0 where
  pub sha256 : List ℕ → List ℕ
  pub permutation : (key : List ℕ) (n : ℕ) → List ℕ
  pub count-permutation :
      (key : List ℕ) (n v : ℕ) → count v (permutation key n) ≡ (if ltb v n then 1 else 0)
  pub searchsorted : List ℕ → ℕ → ℕ
  pub searchsorted-append :
      (v : ℕ) (xs ys : List ℕ)
      → All (λ x. x ≤ v) xs
      → All (λ y. v < y) ys
      → searchsorted (xs ++ ys) v ≡ length xs

-- `int.from_bytes(bytes, "big")`, behind the digits that were read.
abbrev pub from_big_endian : ℕ → List ℕ → ℕ
from_big_endian high [] = high
from_big_endian high (byte ∷ bytes) = from_big_endian (high * 256 + byte) bytes

-- `self._cum_docs`.
abbrev pub cum_docs : List ℕ → List ℕ
cum_docs counts = sums 0 counts

module _ (shuffling : Shuffling) where
  unfoldable pub stable_name_hash : List ℕ → ℕ
  stable_name_hash name = from_big_endian 0 (take 4 (shuffling.sha256 name))

  -- The loop over `shard_order`, and `np.concatenate`.
  unfoldable pub concat_shards :
      (seed hash epoch : ℕ) (counts shard_order : List ℕ) → Result (List ℕ)
  concat_shards seed hash epoch counts [] = ok []
  concat_shards seed hash epoch counts (shard_id ∷ shard_order) = do
    n ← item counts shard_id
    offset ← item (cum_docs counts) shard_id
    rest ← concat_shards seed hash epoch counts shard_order
    ok (
        map (λ d. d + offset) (shuffling.permutation (seed ∷ hash ∷ epoch ∷ shard_id ∷ []) n)
        ++ rest)

  -- An empty list is what `np.concatenate` refuses.
  unfoldable pub build_global_perm :
      (seed : ℕ) (name : List ℕ) (counts : List ℕ) (epoch : ℕ) → Result (List ℕ)
  build_global_perm seed name counts epoch = do
    let hash = stable_name_hash name
    let shard_order = shuffling.permutation (seed ∷ hash ∷ epoch ∷ []) (length counts)
    raise_if (length counts == 0) value_error
    concat_shards seed hash epoch counts shard_order

  -- The shard of a document, and the document's place in it. The first of `cum_docs` is 0, so the search
  -- gives at least 1.
  unfoldable pub resolve_doc : (counts : List ℕ) (global_doc : ℕ) → Result (ℕ × ℕ)
  resolve_doc counts global_doc = do
    let shard_id = shuffling.searchsorted (cum_docs counts) global_doc - 1
    offset ← item (cum_docs counts) shard_id
    ok (shard_id, global_doc - offset)
