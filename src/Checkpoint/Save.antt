-- ===== src/Checkpoint/Save.antt =====
-- `Checkpointer.save` of src/pretrain/train/checkpoint.py: the writes in their order. `state_hash` is
-- what the loop passes in or `compute_state_hash` made; the gather to rank 0 gives it the ranks' blobs.
use open_transformers.Prelude.{ℕ, ◌+◌, List, [], ◌∷◌, ◌++◌, Option, none, some, ◌==◌, if◌then◌else◌}
use open_transformers.Checkpoint.Names.{Text}
use open_transformers.Checkpoint.Files.{
  File, state_hash_txt, dcp, meta_json, spike_protocol_json, global_stream_json, complete_sentinel,
  sampler_json, rng_pt, batch_hasher_bin, Content, text, bytes, shards, rng_state, position, meta,
  spike,
}

-- What a rank contributes: `local_blob`.
pub record Blob (R S : Type 0) : Type 0 where
  pub sampler_state : Option S
  pub rng : R
  pub batch_hasher_digest : Option (List ℕ)

-- What rank 0 has beside the ranks' blobs.
pub record Extras (S M K : Type 0) : Type 0 where
  pub meta_data : M
  pub spike_state : Option K
  pub global_stream_state : Option S

module _ {D R S M K : Type 0} where
  abbrev pub sampler_write : ℕ → Option S → List (File × Content D R S M K)
  sampler_write rank none = []
  sampler_write rank (some state) = (sampler_json rank, position state) ∷ []

  abbrev pub hasher_write : ℕ → Option (List ℕ) → List (File × Content D R S M K)
  hasher_write rank none = []
  hasher_write rank (some digest) = (batch_hasher_bin rank, bytes digest) ∷ []

  unfoldable pub write_one_rank_files : ℕ → Blob R S → List (File × Content D R S M K)
  write_one_rank_files rank blob =
      sampler_write rank blob.sampler_state
      ++ ((rng_pt rank, rng_state blob.rng) ∷ [] ++ hasher_write rank blob.batch_hasher_digest)

  -- `for r, blob in enumerate(gathered)`, from rank `r` on.
  unfoldable pub write_rank_files : ℕ → List (Blob R S) → List (File × Content D R S M K)
  write_rank_files r [] = []
  write_rank_files r (blob ∷ blobs) = write_one_rank_files r blob ++ write_rank_files (r + 1) blobs

  abbrev pub spike_write : Option K → List (File × Content D R S M K)
  spike_write none = []
  spike_write (some state) = (spike_protocol_json, spike state) ∷ []

  abbrev pub stream_write : Option S → List (File × Content D R S M K)
  stream_write none = []
  stream_write (some state) = (global_stream_json, position state) ∷ []

  unfoldable pub write_rank0_extras : Extras S M K → List (File × Content D R S M K)
  write_rank0_extras extras =
      (meta_json, meta extras.meta_data) ∷ []
      ++ (spike_write extras.spike_state ++ stream_write extras.global_stream_state)

  -- All the writes of a save but the sentinel's, in their order.
  unfoldable pub content_writes :
      Text → D → List (Blob R S) → Extras S M K → List (File × Content D R S M K)
  content_writes state_hash state blobs extras =
      (state_hash_txt, text (state_hash ++ 10 ∷ []))
        ∷ (dcp, shards state)
        ∷ write_rank_files 0 blobs
      ++ write_rank0_extras extras

  unfoldable pub save_writes :
      Text → D → List (Blob R S) → Extras S M K → List (File × Content D R S M K)
  save_writes state_hash state blobs extras =
      content_writes state_hash state blobs extras ++ (complete_sentinel, text []) ∷ []

-- The directories of the checkpointer's root, each with its step.
module _ {C : Type 0} where
  -- `ckpt_dir.mkdir(parents=True, exist_ok=True)`.
  unfoldable pub mkdir : ℕ → List (ℕ × List (File × C)) → List (ℕ × List (File × C))
  mkdir step [] = (step, []) ∷ []
  mkdir step ((other, dir) ∷ root) =
      let rest = mkdir step root in
      if other == step then (other, dir) ∷ root else (other, dir) ∷ rest

  unfoldable pub write : ℕ → File × C → List (ℕ × List (File × C)) → List (ℕ × List (File × C))
  write step entry [] = []
  write step entry ((other, dir) ∷ root) =
      let rest = write step entry root in
      if other == step then (other, entry ∷ dir) ∷ root else (other, dir) ∷ rest

  unfoldable pub write_all :
      ℕ → List (File × C) → List (ℕ × List (File × C)) → List (ℕ × List (File × C))
  write_all step [] root = root
  write_all step (entry ∷ entries) root = write_all step entries (write step entry root)
