-- ===== src/Fetch/Honest.antt =====
-- With a mirror that has the manifest's payloads, `_fetch_bins` of src/pretrain/data/fetch_interval.py
-- does not fail; with one that has not, it does.
use open_transformers.Prelude.{
  ℕ, ◌+◌, ◌≡◌, ◌≢◌, refl, ◌∙◌, Bool, true, false, ◌&&◌, List, [], ◌∷◌, Option, none, some, Result,
  ok, raise, runtime_error, Bool-cases, inl, inr, get_elem?, All, length,
}
use open_transformers.Prelude.Disk.{Text, text_eq_refl, Disk, set_file}
use open_transformers.StateHash.Sorted.{sorted, sorted-All}
use open_transformers.Fetch.Shards.{
  ShardInfo, recorded, bin_path, object_name, mismatch, download_bin, keep_or_download, fetch_bin,
  fetch_each, fetch_bins,
}
use open_transformers.Fetch.Payloads.{download_bin-run, match}

module _ (blake2b : Text → Text) (mirror : Text → Result Text) (basename : Text) where
  -- The mirror has a payload of the shard with the manifest's digest.
  abbrev pub Honest : List ShardInfo → ℕ → Type 0
  Honest shards sid =
      (s : ShardInfo) × (content : Text) × (get_elem? shards sid ≡ some s)
      × (mirror (object_name basename (bin_path s.prefix)) ≡ ok content)
      × (blake2b content ≡ s.bin_blake2b)

  and-false : (a : Bool) → (a && false) ≡ false
  and-false true = refl
  and-false false = refl

  mismatch-own :
      (verify : Bool) (digest content : Text)
      → blake2b content ≡ digest
      → mismatch blake2b mirror basename verify digest content ≡ false
  mismatch-own verify digest content same =
      rw (same, text_eq_refl digest) (and-false (verify && recorded digest))

  download_bin-Honest :
      (verify : Bool) (s : ShardInfo) (disk : Disk) (content : Text)
      → mirror (object_name basename (bin_path s.prefix)) ≡ ok content
      → blake2b content ≡ s.bin_blake2b
      → (n : ℕ) × (after : Disk) × (download_bin blake2b mirror basename verify s disk
          ≡ ok (n, after))
  download_bin-Honest verify s disk content has same = (
    length content,
    set_file (bin_path s.prefix) (some content) disk,
    download_bin-run blake2b mirror basename verify s disk content has
        ∙ rw (mismatch-own verify s.bin_blake2b content same) refl,
  )

  keep_or_download-Honest :
      (verify : Bool) (s : ShardInfo) (disk : Disk) (found : Option Text) (content : Text)
      → mirror (object_name basename (bin_path s.prefix)) ≡ ok content
      → blake2b content ≡ s.bin_blake2b
      → (n : ℕ) × (after : Disk) × (keep_or_download blake2b mirror basename verify s disk found
          ≡ ok (n, after))
  unfolding keep_or_download
  keep_or_download-Honest verify s disk none content has same =
      download_bin-Honest verify s disk content has same
  keep_or_download-Honest verify s disk (some old) content has same =
      elim (Bool-cases (mismatch blake2b mirror basename verify s.bin_blake2b old)) [
        | inl bad ↦ rw bad (download_bin-Honest verify s _ content has same)
        | inr fine ↦ rw fine (0, disk, refl)
      ]

  fetch_each-Honest :
      (verify : Bool) (shards : List ShardInfo) (ids : List ℕ) (disk : Disk)
      → All (Honest shards) ids
      → (n : ℕ) × (after : Disk) × (fetch_each blake2b mirror basename verify shards ids disk
          ≡ ok (n, after))
  unfolding fetch_each fetch_bin
  fetch_each-Honest verify shards [] disk all = (0, disk, refl)
  fetch_each-Honest verify shards (sid ∷ ids) disk all =
      let (s, content, at, has, same) = all.0 in
      let (size, mid, fetched) =
        keep_or_download-Honest verify s disk (disk (bin_path s.prefix)) content has same in
      let (more, after, rest) = fetch_each-Honest verify shards ids mid all.1 in
      (size + more, after, rw (at, fetched, rest) refl)

  -- Where the mirror has a payload with the manifest's digest for each touched shard, the fetch does
  -- not fail, with the verification on or off, whatever stands on the disk.
  pub fetch_bins-Honest :
      (verify : Bool) (shards : List ShardInfo) (ids : List ℕ) (disk : Disk)
      → All (Honest shards) ids
      → (n : ℕ) × (after : Disk) × (fetch_bins blake2b mirror basename verify shards ids disk
          ≡ ok (n, after))
  unfolding fetch_bins
  fetch_bins-Honest verify shards ids disk all =
      fetch_each-Honest verify shards (sorted (λ sid. sid ∷ []) ids) disk
        (sorted-All (λ sid. sid ∷ []) (Honest shards) ids all)

  mismatch-other :
      (digest content : Text)
      → recorded digest ≡ true
      → blake2b content ≢ digest
      → mismatch blake2b mirror basename true digest content ≡ true
  mismatch-other digest content known other =
      elim (Bool-cases (mismatch blake2b mirror basename true digest content)) [
        | inl bad ↦ bad
        | inr fine ↦ absurd (other (match blake2b mirror basename digest content known fine))
      ]

  -- With the verification on, a shard whose recorded digest neither the file on the disk, if there is
  -- one, nor the mirror's payload has is a RuntimeError.
  pub fetch_bin-refuses :
      (s : ShardInfo) (disk : Disk) (found : Option Text) (content : Text)
      → recorded s.bin_blake2b ≡ true
      → disk (bin_path s.prefix) ≡ found
      → ((old : Text) → found ≡ some old → blake2b old ≢ s.bin_blake2b)
      → mirror (object_name basename (bin_path s.prefix)) ≡ ok content
      → blake2b content ≢ s.bin_blake2b
      → fetch_bin blake2b mirror basename true s disk ≡ raise runtime_error
  unfolding fetch_bin keep_or_download
  fetch_bin-refuses s disk none content known here stale has other = rw here (
      download_bin-run blake2b mirror basename true s disk content has
      ∙ rw (mismatch-other s.bin_blake2b content known other) refl)
  fetch_bin-refuses s disk (some old) content known here stale has other =
      rw (here, mismatch-other s.bin_blake2b old known (stale old refl))
        (download_bin-run blake2b mirror basename true s _ content has
          ∙ rw (mismatch-other s.bin_blake2b content known other) refl)
