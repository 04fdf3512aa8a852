-- ===== src/Checkpoint/RankFiles.antt =====
-- What a rank's files hold behind a save (src/pretrain/train/checkpoint.py).
use open_transformers.Prelude.{
  ℕ, ◌+◌, ◌<◌, ◌≡◌, refl, true, false, List, [], ◌∷◌, ◌++◌, Option, none, some, length, ◌==◌,
  ==_iff, ◌⊎◌, inl, inr, arith,
}
use open_transformers.Checkpoint.Files.{
  File, sampler_json, rng_pt, batch_hasher_bin, Content, bytes, rng_state, position, spike,
}
use open_transformers.Checkpoint.Save.{
  Blob, sampler_write, hasher_write, write_one_rank_files, write_rank_files,
}
use open_transformers.Checkpoint.Absent.{Absent, Elsewhere, one_rank-Absent, rank_files-Absent}
use open_transformers.Checkpoint.Contents.{Gives, before-Gives, after-Gives}

pub apart : (i r : ℕ) → (i < r) ⊎ (r < i) → (i == r) ≡ false
apart i r sides = elim sides [ inl before ↦ ground arith | inr behind ↦ ground arith ]

pub same_rank : (r : ℕ) → (r == r) ≡ true
same_rank r = (==_iff r r).1 refl

module _ (D R S M K : Type 0) where
  abbrev pub Held : Type 0
  Held = Content D R S M K

  abbrev pub held_position : Option S → Option Held
  held_position none = none
  held_position (some state) = some (position state)

  abbrev pub held_bytes : Option (List ℕ) → Option Held
  held_bytes none = none
  held_bytes (some digest) = some (bytes digest)

  abbrev pub held_spike : Option K → Option Held
  held_spike none = none
  held_spike (some state) = some (spike state)

  abbrev pub one_rank : ℕ → Blob R S → List (File × Held)
  one_rank r blob = write_one_rank_files {D = D} {M = M} {K = K} r blob

  -- What one rank's writes give.
  pub sampler_json-Gives :
      (r : ℕ) (blob : Blob R S)
      → Gives (sampler_json r) (held_position blob.sampler_state) (one_rank r blob)
  unfolding write_one_rank_files
  sampler_json-Gives r blob =
      after-Gives (sampler_json r) (held_position blob.sampler_state)
        (sampler_write r blob.sampler_state)
        ((rng_pt r, rng_state blob.rng) ∷ hasher_write r blob.batch_hasher_digest)
        (sampled blob.sampler_state) (refl, hashed blob.batch_hasher_digest)
    where
      sampled :
          (state : Option S)
          → Gives
              (sampler_json r)
              (held_position state)
              (sampler_write {D = D} {R = R} {M = M} {K = K} r state)
      sampled none dir missing = missing
      sampled (some state) dir missing = rw (same_rank r) refl

      hashed :
          (digest : Option (List ℕ))
          → Absent (sampler_json r) (hasher_write {D = D} {R = R} {S = S} {M = M} {K = K} r digest)
      hashed none = tt
      hashed (some digest) = (refl, tt)

  pub rng_pt-Gives :
      (r : ℕ) (blob : Blob R S) → Gives (rng_pt r) (some (rng_state blob.rng)) (one_rank r blob)
  unfolding write_one_rank_files
  rng_pt-Gives r blob =
      before-Gives (rng_pt r) (some (rng_state blob.rng)) (sampler_write r blob.sampler_state)
        ((rng_pt r, rng_state blob.rng) ∷ hasher_write r blob.batch_hasher_digest)
        (sampled blob.sampler_state) (hashed blob.batch_hasher_digest)
    where
      sampled :
          (state : Option S)
          → Absent (rng_pt r) (sampler_write {D = D} {R = R} {M = M} {K = K} r state)
      sampled none = tt
      sampled (some state) = (refl, tt)

      hashed :
          (digest : Option (List ℕ))
          → Gives (rng_pt r) (some (rng_state blob.rng)) (
              (rng_pt r, rng_state blob.rng)
              ∷ hasher_write {D = D} {R = R} {S = S} {M = M} {K = K} r digest)
      hashed none dir missing = rw (same_rank r) refl
      hashed (some digest) dir missing = rw (same_rank r) refl

  pub batch_hasher_bin-Gives :
      (r : ℕ) (blob : Blob R S)
      → Gives (batch_hasher_bin r) (held_bytes blob.batch_hasher_digest) (one_rank r blob)
  unfolding write_one_rank_files
  batch_hasher_bin-Gives r blob =
      before-Gives (batch_hasher_bin r) (held_bytes blob.batch_hasher_digest)
        (sampler_write r blob.sampler_state)
        ((rng_pt r, rng_state blob.rng) ∷ hasher_write r blob.batch_hasher_digest)
        (sampled blob.sampler_state) (hashed blob.batch_hasher_digest)
    where
      sampled :
          (state : Option S)
          → Absent (batch_hasher_bin r) (sampler_write {D = D} {R = R} {M = M} {K = K} r state)
      sampled none = tt
      sampled (some state) = (refl, tt)

      hashed :
          (digest : Option (List ℕ))
          → Gives (batch_hasher_bin r) (held_bytes digest) (
              (rng_pt r, rng_state blob.rng)
              ∷ hasher_write {D = D} {R = R} {S = S} {M = M} {K = K} r digest)
      hashed none dir missing = missing
      hashed (some digest) dir missing = rw (same_rank r) refl

  -- What a rank's file holds behind all ranks' writes is what the rank's own writes give it.
  pub rank_files-Gives :
      (name : File) (held : Option Held) (r start : ℕ) (before : List (Blob R S)) (blob : Blob R S)
      (after : List (Blob R S))
      → r ≡ start + length before
      → ((i : ℕ) → (i < r) ⊎ (r < i) → Elsewhere name i)
      → Gives name held (one_rank r blob)
      → Gives name held (write_rank_files start (before ++ blob ∷ after))
  unfolding write_rank_files
  rank_files-Gives name held r start [] blob after place elsewhere gives =
      let here : start ≡ r = omega (arith, place) in
      after-Gives name held (one_rank start blob) (write_rank_files (start + 1) after)
        (rw here gives)
        (rank_files-Absent D R S M K name (start + 1) after
          (λ i lo hi. elsewhere i (inr (omega (arith, here, lo)))))
  rank_files-Gives name held r start (first ∷ before) blob after place elsewhere gives =
      before-Gives name held (one_rank start first)
        (write_rank_files (start + 1) (before ++ blob ∷ after))
        (one_rank-Absent D R S M K name start first (elsewhere start (inl (omega (arith, place)))))
        (rank_files-Gives name held r (start + 1) before blob after (omega (arith, place)) elsewhere
          gives)
