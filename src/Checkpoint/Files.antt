-- ===== src/Checkpoint/Files.antt =====
-- A checkpoint directory (src/pretrain/train/checkpoint.py): its files and what they hold. A JSON file
-- holds the value that was dumped, and `torch.save` and `dcp.save` what they were given: `D` is the
-- shards, `R` the state of the random generators, `S` a dict of the sampler or of the stream, `M` the
-- meta data, `K` the spike protocol's dict.
use open_transformers.Prelude.{
  ℕ, Bool, true, false, ◌&&◌, List, [], ◌∷◌, Option, none, some, ◌==◌, if◌then◌else◌,
}
use open_transformers.Checkpoint.Names.{Text}

-- `sampler.rank_{rank}.json`, `rng.rank_{rank}.pt`, `batch_hasher.rank_{rank}.bin` and the others.
pub data File : Type 0 where
  state_hash_txt dcp meta_json spike_protocol_json global_stream_json complete_sentinel : File
  sampler_json rng_pt batch_hasher_bin : (rank : ℕ) → File

pub data Content (D R S M K : Type 0) : Type 0 where
  text : Text → Content D R S M K
  bytes : List ℕ → Content D R S M K
  shards : D → Content D R S M K
  rng_state : R → Content D R S M K
  position : S → Content D R S M K
  meta : M → Content D R S M K
  spike : K → Content D R S M K

-- The number of a file's kind.
abbrev pub file_kind : File → ℕ
file_kind state_hash_txt = 0
file_kind dcp = 1
file_kind meta_json = 2
file_kind spike_protocol_json = 3
file_kind global_stream_json = 4
file_kind complete_sentinel = 5
file_kind (sampler_json rank) = 6
file_kind (rng_pt rank) = 7
file_kind (batch_hasher_bin rank) = 8

abbrev pub file_rank : File → ℕ
file_rank (sampler_json rank) = rank
file_rank (rng_pt rank) = rank
file_rank (batch_hasher_bin rank) = rank
file_rank other = 0

abbrev pub same_file : File → File → Bool
same_file a b = (file_kind a == file_kind b) && (file_rank a == file_rank b)

-- A directory: the last write of a file stands first.
module _ {C : Type 0} where
  abbrev pub file : List (File × C) → File → Option C
  file [] name = none
  file ((written, content) ∷ older) name =
      let rest = file older name in if same_file written name then some content else rest

  abbrev pub exists : List (File × C) → File → Bool
  exists [] name = false
  exists ((written, content) ∷ older) name =
      let rest = exists older name in if same_file written name then true else rest

  abbrev pub is_complete : List (File × C) → Bool
  is_complete dir = exists dir complete_sentinel
