-- ===== src/Checkpoint/Crash.antt =====
-- A save that stops after some of its writes (src/pretrain/train/checkpoint.py).
use open_transformers.Prelude.{
  ℕ, ◌^◌, ◌<◌, ◌≡◌, refl, sym, ap, ◌∙◌, ◌≢◌, false, List, [], ◌∷◌, ◌++◌, All-append, Option, none,
  some, length, length-append, take, arith,
}
use open_transformers.Prelude.Slices.{take-append_le}
use open_transformers.Checkpoint.Names.{Text}
use open_transformers.Checkpoint.Files.{File, complete_sentinel, same_file, Content, text}
use open_transformers.Checkpoint.Save.{
  Blob, Extras, spike_write, stream_write, write_rank_files, write_rank0_extras, content_writes,
  save_writes, mkdir, write_all,
}
use open_transformers.Checkpoint.Select.{Root, latest}
use open_transformers.Checkpoint.Newest.{later, newest, Nine, latest-newest}
use open_transformers.Checkpoint.Absent.{rank_files-Absent}
use open_transformers.Checkpoint.Writes.{
  complete_at, Plain, take-Plain, newest-mkdir, newest-write_all, mkdir-Nine, write_all-Nine,
  newest-complete_at, mkdir-has, write_all-has, write_all-append, newest-sentinel,
}

module _ (D R S M K : Type 0) where
  extras-Plain : (extras : Extras S M K) → Plain (write_rank0_extras {D = D} {R = R} extras)
  unfolding write_rank0_extras
  extras-Plain extras = (
    refl,
    All-append (λ (entry : File × Content D R S M K). same_file entry.0 complete_sentinel ≡ false)
        (spike_write extras.spike_state) _ (spiked extras.spike_state)
        (streamed extras.global_stream_state),
  )
    where
      spiked : (state : Option K) → Plain (spike_write {D = D} {R = R} {S = S} {M = M} state)
      spiked none = tt
      spiked (some state) = (refl, tt)

      streamed : (state : Option S) → Plain (stream_write {D = D} {R = R} {M = M} {K = K} state)
      streamed none = tt
      streamed (some state) = (refl, tt)

  content_writes-Plain :
      (state_hash : Text) (state : D) (blobs : List (Blob R S)) (extras : Extras S M K)
      → Plain (content_writes state_hash state blobs extras)
  unfolding content_writes
  content_writes-Plain state_hash state blobs extras = (
    refl,
    (
      refl,
      All-append (λ (entry : File × Content D R S M K). same_file entry.0 complete_sentinel ≡ false)
          (write_rank_files 0 blobs) (write_rank0_extras extras)
          (rank_files-Absent D R S M K complete_sentinel 0 blobs (λ i lo hi. (refl, refl, refl)))
          (extras-Plain extras),
    ),
  )

  taken :
      (k : ℕ) (state_hash : Text) (state : D) (blobs : List (Blob R S)) (extras : Extras S M K)
      → k < length (save_writes state_hash state blobs extras)
      → take k (save_writes state_hash state blobs extras)
        ≡ take k (content_writes state_hash state blobs extras)
  unfolding save_writes
  taken k state_hash state blobs extras stops =
      let writes = content_writes state_hash state blobs extras in
      take-append_le k writes ((complete_sentinel, text []) ∷ [])
        (omega (arith, stops, length-append writes ((complete_sentinel, text []) ∷ [])))

  -- A save that stops behind fewer than all of its writes, for a step without a complete directory,
  -- leaves the checkpoint that is picked for resuming as it was, and that is never the one it was
  -- writing; all steps have at most nine digits.
  pub latest-save_writes :
      (step k : ℕ) (root : Root (Content D R S M K)) (state_hash : Text) (state : D)
      (blobs : List (Blob R S)) (extras : Extras S M K)
      → step < 10 ^ 9
      → Nine root
      → complete_at step root ≡ false
      → k < length (save_writes state_hash state blobs extras)
      → (latest
            (write_all step (take k (save_writes state_hash state blobs extras)) (mkdir step root))
          ≡ latest root)
        × (latest (
              write_all step (take k (save_writes state_hash state blobs extras)) (mkdir step root))
            ≢ some step)
  latest-save_writes step k root state_hash state blobs extras small nine partial stops =
      let writes = content_writes state_hash state blobs extras in
      let before : take k (save_writes state_hash state blobs extras) ≡ take k writes =
        taken k state_hash state blobs extras stops in
      let same : latest (write_all step (take k writes) (mkdir step root)) ≡ newest root =
        latest-newest (write_all step (take k writes) (mkdir step root))
          (write_all-Nine step (take k writes) (mkdir step root) (mkdir-Nine step root small nine))
        ∙ newest-write_all step (take k writes) (mkdir step root)
            (take-Plain k writes (content_writes-Plain state_hash state blobs extras))
        ∙ newest-mkdir step root in
      rw before (
        same ∙ sym (latest-newest root nine),
        λ picked.
            let complete = newest-complete_at step root (sym same ∙ picked) in
            let no = sym partial ∙ complete in cc,
      )

  -- Behind all of its writes, the save is picked for resuming, unless a complete directory has a greater
  -- step; all steps have at most nine digits.
  pub latest_saved :
      (step : ℕ) (root : Root (Content D R S M K)) (state_hash : Text) (state : D)
      (blobs : List (Blob R S)) (extras : Extras S M K)
      → step < 10 ^ 9
      → Nine root
      → latest (write_all step (save_writes state_hash state blobs extras) (mkdir step root))
        ≡ later (some step) (latest root)
  unfolding save_writes write_all
  latest_saved step root state_hash state blobs extras small nine =
      let writes = content_writes state_hash state blobs extras in
      let all_writes = writes ++ (complete_sentinel, text []) ∷ [] in
      let root1 = mkdir step root in
      let root2 = write_all step writes root1 in
      latest-newest (write_all step all_writes root1)
        (write_all-Nine step all_writes root1 (mkdir-Nine step root small nine))
      ∙ ap newest (write_all-append step writes ((complete_sentinel, text []) ∷ []) root1)
      ∙ newest-sentinel step (text []) root2 (write_all-has step writes root1 ∙ mkdir-has step root)
      ∙ ap (later (some step)) (
          newest-write_all step writes root1 (content_writes-Plain state_hash state blobs extras)
          ∙ newest-mkdir step root
          ∙ sym (latest-newest root nine))
