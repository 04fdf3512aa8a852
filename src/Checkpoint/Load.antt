-- ===== src/Checkpoint/Load.antt =====
-- What `Checkpointer.load` of src/pretrain/train/checkpoint.py reads of a directory beside the tensors
-- and the meta data, and `_load_loop_extras`. A file that holds something else than what `save` writes
-- to it fails in `torch.load` or in `json.loads`.
use open_transformers.Prelude.{
  ℕ, List, Option, none, some, Result, ok, raise, runtime_error, value_error, file_not_found_error,
  ◌>>=◌,
}
use open_transformers.Checkpoint.Files.{
  File, spike_protocol_json, global_stream_json, sampler_json, rng_pt, batch_hasher_bin, Content,
  bytes, rng_state, position, spike, file,
}

-- `MixSamplerState | GlobalStreamState`.
pub data StreamState (S : Type 0) : Type 0 where
  global_stream mix_sampler : S → StreamState S

module _ {D R S M K : Type 0} where
  -- The contents of a file of the kind that is asked for.
  abbrev pub rng_of : Content D R S M K → Result R
  rng_of (rng_state rng) = ok rng
  rng_of other = raise runtime_error

  abbrev pub position_of : Content D R S M K → Result S
  position_of (position state) = ok state
  position_of other = raise value_error

  abbrev pub bytes_of : Option (Content D R S M K) → Result (Option (List ℕ))
  bytes_of none = ok none
  bytes_of (some (bytes digest)) = ok (some digest)
  bytes_of (some other) = raise value_error

  abbrev pub spike_of : Option (Content D R S M K) → Result (Option K)
  spike_of none = ok none
  spike_of (some (spike state)) = ok (some state)
  spike_of (some other) = raise value_error

  -- The random generators of rank `rank`.
  abbrev pub present : Option (Content D R S M K) → Result (Content D R S M K)
  present none = raise file_not_found_error
  present (some content) = ok content

  unfoldable pub load_rng : ℕ → List (File × Content D R S M K) → Result R
  load_rng rank dir = do content ← present (file dir (rng_pt rank)); rng_of content

  -- The batch hasher's digest and the spike protocol's state.
  unfoldable pub load_loop_extras :
      ℕ → List (File × Content D R S M K) → Result (Option (List ℕ) × Option K)
  load_loop_extras rank dir = do
    digest ← bytes_of (file dir (batch_hasher_bin rank))
    state ← spike_of (file dir spike_protocol_json)
    ok (digest, state)

  abbrev pub load_sampler : ℕ → List (File × Content D R S M K) → Result (StreamState S)
  load_sampler rank dir = do
    content ← present (file dir (sampler_json rank))
    state ← position_of content
    ok (mix_sampler state)

  -- What is loaded where `global_stream.json` holds `content`, if it exists.
  abbrev pub stream_from :
      ℕ → List (File × Content D R S M K) → Option (Content D R S M K) → Result (StreamState S)
  stream_from rank dir none = load_sampler rank dir
  stream_from rank dir (some content) = do state ← position_of content; ok (global_stream state)

  unfoldable pub load_stream : ℕ → List (File × Content D R S M K) → Result (StreamState S)
  load_stream rank dir = stream_from rank dir (file dir global_stream_json)
