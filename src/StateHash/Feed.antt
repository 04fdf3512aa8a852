-- ===== src/StateHash/Feed.antt =====
-- What `hashlib.blake2b` is fed in src/pretrain/train/state_hash.py. A hasher is the bytes that its
-- `update` calls were given, joined, and `digest` is a function of them.
use open_transformers.Prelude.{ℕ, ◌≡◌, List, [], ◌∷◌, ◌++◌, Option, length}
use open_transformers.StateHash.Tags.{Bytes}

-- `hashlib.blake2b(digest_size=32)`, and the text that `str` makes of a shape.
pub record Hashing : Type 0 where
  pub blake2b : Bytes → Bytes
  pub length-blake2b : (bytes : Bytes) → length (blake2b bytes) ≡ 32
  pub str_shape : List ℕ → Bytes

-- A tensor: the text of its data type, the sizes behind the first, and the bytes of each row.
pub record Tensor : Type 0 where
  pub dtype : Bytes
  pub tail : List ℕ
  pub rows : List Bytes

abbrev pub join_bytes : List Bytes → Bytes
join_bytes [] = []
join_bytes (bytes ∷ more) = bytes ++ join_bytes more

abbrev pub tensor_bytes : Tensor → Bytes
tensor_bytes t = join_bytes t.rows

-- What a parameter's optimizer state has; a key may be missing.
pub record Moments (T : Type 0) : Type 0 where
  pub step : Option ℕ
  pub exp_avg : Option T
  pub exp_avg_sq : Option T
  pub max_exp_avg_sq : Option T

-- A named parameter with its gradient and its entry in `optimizer.state`.
pub record Param (T : Type 0) : Type 0 where
  pub name : Bytes
  pub weight : T
  pub grad : Option T
  pub state : Option (Moments T)

module _ (hashing : Hashing) where
  -- `feed_tensor` on a full tensor, and `_feed_local` on a slice.
  unfoldable pub feed_tensor : Bytes → Bytes → Tensor → Bytes
  feed_tensor h tag t =
      h
      ++ tag
      ++ t.dtype
      ++ 0 ∷ []
      ++ hashing.str_shape (length t.rows ∷ t.tail)
      ++ 0 ∷ []
      ++ tensor_bytes t
