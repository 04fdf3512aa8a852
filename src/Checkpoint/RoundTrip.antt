-- ===== src/Checkpoint/RoundTrip.antt =====
-- What `Checkpointer.load` reads is what `Checkpointer.save` was given
-- (src/pretrain/train/checkpoint.py).
use open_transformers.Prelude.{
  ℕ, ◌<◌, ◌≡◌, refl, ap, ◌∙◌, false, List, [], ◌∷◌, ◌++◌, All-append, Option, none, some, length,
  Result, ok, raise, file_not_found_error, ◌>>=◌, ◌⊎◌, arith,
}
use open_transformers.Checkpoint.Names.{Text}
use open_transformers.Checkpoint.Files.{
  File, state_hash_txt, dcp, meta_json, spike_protocol_json, global_stream_json, complete_sentinel,
  sampler_json, rng_pt, batch_hasher_bin, same_file, file, text, shards, rng_state, meta,
}
use open_transformers.Checkpoint.Save.{
  Blob, Extras, spike_write, stream_write, write_rank_files, write_rank0_extras, content_writes,
  save_writes, mkdir, write_all,
}
use open_transformers.Checkpoint.Load.{
  StreamState, global_stream, mix_sampler, bytes_of, spike_of, load_rng, load_loop_extras,
  load_stream, present, position_of, stream_from,
}
use open_transformers.Checkpoint.Select.{Root}
use open_transformers.Checkpoint.Absent.{Absent, Elsewhere, rank_files-Absent}
use open_transformers.Checkpoint.Contents.{
  dir_at, filled, Gives, before-Gives, after-Gives, dir_at-mkdir, dir_at-write_all,
}
use open_transformers.Checkpoint.Writes.{has}
use open_transformers.Checkpoint.RankFiles.{
  apart, Held, held_position, held_bytes, held_spike, one_rank, sampler_json-Gives, rng_pt-Gives,
  batch_hasher_bin-Gives, rank_files-Gives,
}

-- The state that a load finds: the global stream's, or else the rank's sampler's.
abbrev pub stream_of : {S : Type 0} → Option S → Option S → Result (StreamState S)
stream_of (some state) sampler = ok (global_stream state)
stream_of none (some state) = ok (mix_sampler state)
stream_of none none = raise file_not_found_error

module _ (D R S M K : Type 0) where
  bytes_of-held : (digest : Option (List ℕ)) → bytes_of (held_bytes D R S M K digest) ≡ ok digest
  bytes_of-held none = refl
  bytes_of-held (some digest) = refl

  spike_of-held : (state : Option K) → spike_of (held_spike D R S M K state) ≡ ok state
  spike_of-held none = refl
  spike_of-held (some state) = refl

  load_stream-held :
      (rank : ℕ) (dir : List (File × Held D R S M K)) (stream sampler : Option S)
      → file dir global_stream_json ≡ held_position D R S M K stream
      → file dir (sampler_json rank) ≡ held_position D R S M K sampler
      → load_stream rank dir ≡ stream_of stream sampler
  unfolding load_stream
  load_stream-held rank dir (some state) sampler global own = ap (stream_from rank dir) global
  load_stream-held rank dir none (some state) global own =
      ap (stream_from rank dir) global
      ∙ ap (λ found. present found >>= λ c. position_of c >>= λ state. ok (mix_sampler state)) own
  load_stream-held rank dir none none global own =
      ap (stream_from rank dir) global
      ∙ ap (λ found. present found >>= λ c. position_of c >>= λ state. ok (mix_sampler state)) own

  abbrev of_extras : Extras S M K → List (File × Held D R S M K)
  of_extras extras = write_rank0_extras {D = D} {R = R} extras

  spike-Absent :
      (name : File) (state : Option K)
      → same_file spike_protocol_json name ≡ false
      → Absent name (spike_write {D = D} {R = R} {S = S} {M = M} state)
  spike-Absent name none other = tt
  spike-Absent name (some state) other = (other, tt)

  stream-Absent :
      (name : File) (state : Option S)
      → same_file global_stream_json name ≡ false
      → Absent name (stream_write {D = D} {R = R} {M = M} {K = K} state)
  stream-Absent name none other = tt
  stream-Absent name (some state) other = (other, tt)

  extras-Absent :
      (name : File) (extras : Extras S M K)
      → same_file meta_json name ≡ false
      → same_file spike_protocol_json name ≡ false
      → same_file global_stream_json name ≡ false
      → Absent name (of_extras extras)
  unfolding write_rank0_extras
  extras-Absent name extras no_meta no_spike no_stream = (
    no_meta,
    All-append (λ (entry : File × Held D R S M K). same_file entry.0 name ≡ false)
        (spike_write extras.spike_state) (stream_write extras.global_stream_state)
        (spike-Absent name extras.spike_state no_spike)
        (stream-Absent name extras.global_stream_state no_stream),
  )

  spike_protocol_json-Gives :
      (extras : Extras S M K)
      → Gives spike_protocol_json (held_spike D R S M K extras.spike_state) (of_extras extras)
  unfolding write_rank0_extras
  spike_protocol_json-Gives extras dir missing =
      after-Gives spike_protocol_json (held_spike D R S M K extras.spike_state)
        (spike_write extras.spike_state) (stream_write extras.global_stream_state)
        (spiked extras.spike_state)
        (stream-Absent spike_protocol_json extras.global_stream_state refl)
        ((meta_json, meta extras.meta_data) ∷ dir) missing
    where
      spiked :
          (state : Option K)
          → Gives spike_protocol_json
              (held_spike D R S M K state)
              (spike_write {D = D} {R = R} {S = S} {M = M} state)
      spiked none dir missing = missing
      spiked (some state) dir missing = refl

  global_stream_json-Gives :
      (extras : Extras S M K)
      → Gives global_stream_json
          (held_position D R S M K extras.global_stream_state)
          (of_extras extras)
  unfolding write_rank0_extras
  global_stream_json-Gives extras dir missing =
      before-Gives global_stream_json (held_position D R S M K extras.global_stream_state)
        (spike_write extras.spike_state) (stream_write extras.global_stream_state)
        (spike-Absent global_stream_json extras.spike_state refl)
        (streamed extras.global_stream_state) ((meta_json, meta extras.meta_data) ∷ dir) missing
    where
      streamed :
          (state : Option S)
          → Gives global_stream_json
              (held_position D R S M K state)
              (stream_write {D = D} {R = R} {M = M} {K = K} state)
      streamed none dir missing = missing
      streamed (some state) dir missing = refl

  module _ (state_hash : Text) (state : D) (blobs : List (Blob R S)) (extras : Extras S M K) where
    abbrev writes : List (File × Held D R S M K)
    writes = save_writes state_hash state blobs extras

    -- The files that come before the ranks' and the sentinel behind them are others.
    framed :
        (name : File) (held : Option (Held D R S M K))
        → same_file state_hash_txt name ≡ false
        → same_file dcp name ≡ false
        → same_file complete_sentinel name ≡ false
        → Gives name held (write_rank_files 0 blobs ++ of_extras extras)
        → Gives name held writes
    unfolding save_writes content_writes
    framed name held no_hash no_dcp no_sentinel gives =
        after-Gives name held (content_writes state_hash state blobs extras)
          ((complete_sentinel, text []) ∷ [])
          (before-Gives name held
            ((state_hash_txt, text (state_hash ++ 10 ∷ [])) ∷ (dcp, shards state) ∷ [])
            (write_rank_files 0 blobs ++ of_extras extras) (no_hash, (no_dcp, tt)) gives)
          (no_sentinel, tt)

  -- The files of one rank among the ranks'.
  module _ (state_hash : Text) (state : D) (before : List (Blob R S)) (blob : Blob R S)
      (after : List (Blob R S)) (extras : Extras S M K) where
    abbrev all : List (File × Held D R S M K)
    all = save_writes state_hash state (before ++ blob ∷ after) extras

    abbrev rank : ℕ
    rank = length before

    of_rank :
        (name : File) (held : Option (Held D R S M K))
        → same_file state_hash_txt name ≡ false
        → same_file dcp name ≡ false
        → same_file meta_json name ≡ false
        → same_file spike_protocol_json name ≡ false
        → same_file global_stream_json name ≡ false
        → same_file complete_sentinel name ≡ false
        → ((i : ℕ) → (i < rank) ⊎ (rank < i) → Elsewhere name i)
        → Gives name held (one_rank D R S M K rank blob)
        → file (filled all []) name ≡ held
    of_rank name held no_hash no_dcp no_meta no_spike no_stream no_sentinel elsewhere gives =
        framed state_hash state (before ++ blob ∷ after) extras name held no_hash no_dcp no_sentinel
          (after-Gives name held (write_rank_files 0 (before ++ blob ∷ after)) (of_extras extras)
            (rank_files-Gives D R S M K name held rank 0 before blob after (omega arith) elsewhere
              gives)
            (extras-Absent name extras no_meta no_spike no_stream))
          [] refl

    of_rank0 :
        (name : File) (held : Option (Held D R S M K))
        → same_file state_hash_txt name ≡ false
        → same_file dcp name ≡ false
        → same_file complete_sentinel name ≡ false
        → ((i : ℕ) → Elsewhere name i)
        → Gives name held (of_extras extras)
        → file (filled all []) name ≡ held
    of_rank0 name held no_hash no_dcp no_sentinel elsewhere gives =
        framed state_hash state (before ++ blob ∷ after) extras name held no_hash no_dcp no_sentinel
          (before-Gives name held (write_rank_files 0 (before ++ blob ∷ after)) (of_extras extras)
            (rank_files-Absent D R S M K name 0 (before ++ blob ∷ after) (λ i lo hi. elsewhere i))
            gives)
          [] refl

    abbrev Loads : List (File × Held D R S M K) → Type 0
    Loads dir =
        (load_rng rank dir ≡ ok blob.rng)
        × (load_loop_extras rank dir ≡ ok (blob.batch_hasher_digest, extras.spike_state))
        × (load_stream rank dir ≡ stream_of extras.global_stream_state blob.sampler_state)

    Loads-filled : Loads (filled all [])
    unfolding load_rng load_loop_extras
    Loads-filled =
        let rng =
          of_rank (rng_pt rank) (some (rng_state blob.rng)) refl refl refl refl refl refl
            (λ i sides. (refl, apart i rank sides, refl)) (rng_pt-Gives D R S M K rank blob) in
        let hasher =
          of_rank (batch_hasher_bin rank) (held_bytes D R S M K blob.batch_hasher_digest) refl refl
            refl refl refl refl (λ i sides. (refl, refl, apart i rank sides))
            (batch_hasher_bin-Gives D R S M K rank blob) in
        let sampler =
          of_rank (sampler_json rank) (held_position D R S M K blob.sampler_state) refl refl refl
            refl refl refl (λ i sides. (apart i rank sides, refl, refl))
            (sampler_json-Gives D R S M K rank blob) in
        let protocol =
          of_rank0 spike_protocol_json (held_spike D R S M K extras.spike_state) refl refl refl
            (λ i. (refl, refl, refl)) (spike_protocol_json-Gives extras) in
        let stream =
          of_rank0 global_stream_json (held_position D R S M K extras.global_stream_state) refl refl
            refl (λ i. (refl, refl, refl)) (global_stream_json-Gives extras) in
        (
          rw rng refl,
          rw
              (
                hasher,
                protocol,
                bytes_of-held blob.batch_hasher_digest,
                spike_of-held extras.spike_state,
              )
              refl,
          load_stream-held rank (filled all []) extras.global_stream_state blob.sampler_state stream
              sampler,
        )

    -- In a directory that a save made, each rank loads its own random generators and its own batch
    -- hasher's digest, the spike protocol's state, and the global stream's position or, where the save had
    -- none, its own sampler's; where the rank had no sampler either, that is a FileNotFoundError. The
    -- rank is the number of the blobs before its own.
    pub load-save_writes :
        (step : ℕ) (root : Root (Held D R S M K))
        → has step root ≡ false
        → (dir : List (File × Held D R S M K)) × (dir_at step (write_all step all (mkdir step root))
            ≡ some dir)
          × (load_rng rank dir ≡ ok blob.rng)
          × (load_loop_extras rank dir ≡ ok (blob.batch_hasher_digest, extras.spike_state))
          × (load_stream rank dir ≡ stream_of extras.global_stream_state blob.sampler_state)
    load-save_writes step root fresh = (
      filled all [],
      dir_at-write_all step all (mkdir step root) [] (dir_at-mkdir step root fresh),
      Loads-filled.0,
      Loads-filled.1,
      Loads-filled.2,
    )
