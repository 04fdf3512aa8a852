-- ===== src/Checkpoint/Tests.antt =====
-- The theorems on src/pretrain/train/checkpoint.py at checkpoints whose contents are numbers.
use open_transformers.Prelude.{
  ℕ, ◌<◌, ◌≡◌, ◌≢◌, refl, List, [], ◌∷◌, none, some, length, take, ok, arith,
}
use open_transformers.StateHash.Sorted.{sorted, insert}
use open_transformers.Checkpoint.Names.{Text, dir_name, digits}
use open_transformers.Checkpoint.Files.{File, complete_sentinel, Content, text}
use open_transformers.Checkpoint.Save.{
  Blob, Extras, save_writes, content_writes, write_rank_files, write_one_rank_files,
  write_rank0_extras, mkdir, write, write_all,
}
use open_transformers.Checkpoint.Load.{load_rng, load_loop_extras, load_stream}
use open_transformers.Checkpoint.Select.{Root, latest, first_complete, garbage_collect, multiples}
use open_transformers.Checkpoint.Newest.{newest, latest-newest}
use open_transformers.Checkpoint.Writes.{complete_at}
use open_transformers.Checkpoint.Crash.{latest-save_writes}
use open_transformers.Checkpoint.Contents.{dir_at}
use open_transformers.Checkpoint.Retention.{latest-garbage_collect}
use open_transformers.Checkpoint.RoundTrip.{stream_of, load-save_writes}

abbrev Held : Type 0
Held = Content ℕ ℕ ℕ ℕ ℕ

abbrev complete_dir : List (File × Held)
complete_dir = (complete_sentinel, text []) ∷ []

-- Two complete checkpoints and a save that stopped.
abbrev root : Root Held
root = (20, complete_dir) ∷ (30, []) ∷ (7, complete_dir) ∷ []

-- The same without the save that stopped.
abbrev clean : Root Held
clean = (20, complete_dir) ∷ (7, complete_dir) ∷ []

abbrev first_blob : Blob ℕ ℕ
first_blob = record { sampler_state = some 1; rng = 2; batch_hasher_digest = some (3 ∷ []) }

abbrev second_blob : Blob ℕ ℕ
second_blob = record { sampler_state = some 4; rng = 5; batch_hasher_digest = none }

abbrev extras : Extras ℕ ℕ ℕ
extras = record { meta_data = 6; spike_state = some 7; global_stream_state = none }

abbrev hash : Text
hash = 97 ∷ []

abbrev blobs : List (Blob ℕ ℕ)
blobs = first_blob ∷ second_blob ∷ []

latest_test : latest root ≡ some 20
unfolding latest first_complete sorted insert dir_name digits
latest_test = refl

latest-newest_example : latest root ≡ newest root
latest-newest_example = latest-newest root (omega arith, (omega arith, (omega arith, tt)))

writes_size : 3 < length (save_writes {D = ℕ} hash 8 blobs extras)
unfolding save_writes content_writes write_rank_files write_one_rank_files write_rank0_extras
writes_size = omega arith

latest-save_writes_example :
    (latest (write_all 40 (take 3 (save_writes hash 8 blobs extras)) (mkdir 40 root)) ≡ latest root)
    × (latest (write_all 40 (take 3 (save_writes hash 8 blobs extras)) (mkdir 40 root)) ≢ some 40)
latest-save_writes_example =
    latest-save_writes ℕ ℕ ℕ ℕ ℕ 40 3 root hash 8 blobs extras (omega arith)
      (omega arith, (omega arith, (omega arith, tt))) refl writes_size

latest-garbage_collect_example :
    (left : Root Held) × (garbage_collect 1 7 clean ≡ ok left)
    × (latest left ≡ some 20)
    × (latest clean ≡ some 20)
    × (complete_at 7 left ≡ complete_at 7 clean)
latest-garbage_collect_example =
    latest-garbage_collect 1 7 20 7 clean (omega arith) (omega arith)
      (omega arith, (omega arith, tt)) (omega arith, (omega arith, tt)) refl refl

load-save_writes_example :
    (dir : List (File × Held)) × (dir_at 40
        (write_all 40 (save_writes hash 8 blobs extras) (mkdir 40 root))
      ≡ some dir)
    × (load_rng 1 dir ≡ ok 5)
    × (load_loop_extras 1 dir ≡ ok (none, some 7))
    × (load_stream 1 dir ≡ stream_of none (some 4))
load-save_writes_example =
    load-save_writes ℕ ℕ ℕ ℕ ℕ hash 8 (first_blob ∷ []) second_blob [] extras 40 root refl

-- With `keep_last` 0 nothing is removed.
garbage_collect_test : garbage_collect 0 10 clean ≡ ok clean
unfolding garbage_collect multiples sorted insert dir_name digits
garbage_collect_test = refl

-- A save over a complete directory that stops behind its first write is picked.
overwrite_test :
    latest (write_all 20 (take 1 (save_writes hash 8 blobs extras)) (mkdir 20 root)) ≡ some 20
unfolding latest first_complete sorted insert dir_name digits save_writes content_writes write_all
    write mkdir
overwrite_test = refl
