-- ===== src/Checkpoint/Absent.antt =====
-- Which files a save (src/pretrain/train/checkpoint.py) does not write.
use open_transformers.Prelude.{
  ℕ, ◌+◌, ◌<◌, ◌≤◌, ◌≡◌, false, List, [], ◌∷◌, All, All-append, Option, none, some, length, arith,
}
use open_transformers.Checkpoint.Files.{
  File, sampler_json, rng_pt, batch_hasher_bin, same_file, Content, rng_state,
}
use open_transformers.Checkpoint.Save.{
  Blob, sampler_write, hasher_write, write_one_rank_files, write_rank_files,
}

abbrev pub Absent : {C : Type 0} → File → List (File × C) → Type 0
Absent name = All (λ entry. same_file entry.0 name ≡ false)

-- A file that is none of rank `i`'s.
abbrev pub Elsewhere : File → ℕ → Type 0
Elsewhere name i =
    (same_file (sampler_json i) name ≡ false)
    × (same_file (rng_pt i) name ≡ false)
    × (same_file (batch_hasher_bin i) name ≡ false)

module _ (D R S M K : Type 0) (name : File) where
  sampler-Absent :
      (r : ℕ) (state : Option S)
      → same_file (sampler_json r) name ≡ false
      → Absent name (sampler_write {D = D} {R = R} {M = M} {K = K} r state)
  sampler-Absent r none other = tt
  sampler-Absent r (some state) other = (other, tt)

  hasher-Absent :
      (r : ℕ) (digest : Option (List ℕ))
      → same_file (batch_hasher_bin r) name ≡ false
      → Absent name (hasher_write {D = D} {R = R} {S = S} {M = M} {K = K} r digest)
  hasher-Absent r none other = tt
  hasher-Absent r (some digest) other = (other, tt)

  pub one_rank-Absent :
      (r : ℕ) (blob : Blob R S)
      → Elsewhere name r
      → Absent name (write_one_rank_files {D = D} {M = M} {K = K} r blob)
  unfolding write_one_rank_files
  one_rank-Absent r blob elsewhere =
      All-append (λ (entry : File × Content D R S M K). same_file entry.0 name ≡ false)
        (sampler_write r blob.sampler_state)
        ((rng_pt r, rng_state blob.rng) ∷ hasher_write r blob.batch_hasher_digest)
        (sampler-Absent r blob.sampler_state elsewhere.0)
        (elsewhere.1, hasher-Absent r blob.batch_hasher_digest elsewhere.2)

  pub rank_files-Absent :
      (r : ℕ) (blobs : List (Blob R S))
      → ((i : ℕ) → r ≤ i → i < r + length blobs → Elsewhere name i)
      → Absent name (write_rank_files {D = D} {M = M} {K = K} r blobs)
  unfolding write_rank_files
  rank_files-Absent r [] elsewhere = tt
  rank_files-Absent r (blob ∷ blobs) elsewhere =
      All-append (λ (entry : File × Content D R S M K). same_file entry.0 name ≡ false)
        (write_one_rank_files r blob) (write_rank_files (r + 1) blobs)
        (one_rank-Absent r blob (elsewhere r (omega arith) (omega arith)))
        (rank_files-Absent (r + 1) blobs
          (λ i lo hi. elsewhere i (omega (arith, lo)) (omega (arith, hi))))
