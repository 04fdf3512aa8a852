-- ===== src/Replay/Tampered.antt =====
-- What a changed spill file of one tensor may be read as (src/pretrain/cli/audit_replay.py).
use open_transformers.Prelude.{◌∷◌, length}
use open_transformers.StateHash.Tags.{Bytes}
use open_transformers.StateHash.Feed.{Hashing, Tensor}
use open_transformers.Prelude.Disk.{Disk}

module _ (hashing : Hashing) where
  -- The text of a tensor's sizes.
  abbrev pub shape_text : Tensor → Bytes
  shape_text t = hashing.str_shape (length t.rows ∷ t.tail)
