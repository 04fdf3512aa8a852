-- ===== src/Dataset/Writer.antt =====
-- `IndexedDatasetWriter` of src/pretrain/data/indexed_dataset.py.
use open_transformers.Prelude.{
  ℕ, ◌+◌, ◌-◌, ◌*◌, ◌^◌, Bool, true, false, List, [], ◌∷◌, ◌++◌, map, Option, some, length, Result,
  ok, raise, raise_if, runtime_error, value_error, ◌>>=◌, ◌>>◌,
}
use open_transformers.Prelude.Int.{pos}
use open_transformers.Prelude.Words.{to_bytes}
use open_transformers.Dataset.Format.{
  Bytes, Dtype, validate_dtype, magic, version, pack, Array, flat, shaped, Numpy,
}

-- The writer, with its two files: `bin` is what was written to the one, `idx` is what the other
-- holds, if there is one.
pub record Writer : Type 0 where
  pub dtype : Dtype
  pub dtype_code : ℕ
  pub bin : Bytes
  pub idx : Option Bytes
  pub token_offsets : List ℕ
  pub byte_offsets : List ℕ
  pub closed : Bool

-- `offsets[-1]` of a list that is not empty.
abbrev pub last : List ℕ → ℕ
last [] = 0
last (n ∷ []) = n
last (n ∷ m ∷ more) = last (m ∷ more)

-- Where `idx` is in the directory.
unfoldable pub start_writer : Dtype → Option Bytes → Result Writer
start_writer dtype idx = do
  code ← validate_dtype dtype
  ok (record {
    dtype = dtype;
    dtype_code = code;
    bin = [];
    idx = idx;
    token_offsets = 0 ∷ [];
    byte_offsets = 0 ∷ [];
    closed = false;
  })

-- The bytes of the index.
module _ (numpy : Numpy) where
  abbrev pub one_dim : Array numpy.Value → Result (List numpy.Value)
  one_dim (flat xs) = ok xs
  one_dim shaped = raise value_error

  unfoldable pub add_document : Writer → numpy.Tokens → Result Writer
  add_document self tokens = do
    raise_if self.closed runtime_error
    arr ← numpy.asarray self.dtype tokens
    xs ← one_dim arr
    ok (record self {
      bin = self.bin ++ numpy.tobytes self.dtype xs;
      token_offsets = self.token_offsets ++ (last self.token_offsets + length xs) ∷ [];
      byte_offsets =
          self.byte_offsets
          ++ (last self.byte_offsets + length xs * numpy.itemsize self.dtype) ∷ [];
    })

  unfoldable pub add_documents : Writer → List numpy.Tokens → Result Writer
  add_documents self [] = ok self
  add_documents self (tokens ∷ more) = do next ← add_document self tokens; add_documents next more

  unfoldable pub index_bytes : Writer → Result Bytes
  index_bytes self = do
    code ← pack 1 256 self.dtype_code
    documents ← pack 8 (2 ^ 63) (length self.token_offsets - 1)
    tokens ← pack 8 (2 ^ 63) (last self.token_offsets)
    offsets ← numpy.int64_tobytes (map pos self.token_offsets)
    byte_offsets ← numpy.int64_tobytes (map pos self.byte_offsets)
    ok (
        magic
        ++ (to_bytes 8 version ++ (code ++ (documents ++ (tokens ++ (offsets ++ byte_offsets))))))

  unfoldable pub close : Writer → Result Writer
  close self = elim self.closed [
    | true ↦ ok self
    | false ↦ do bytes ← index_bytes self; ok (record self { idx = some bytes; closed = true })
  ]
