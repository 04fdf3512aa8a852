-- ===== src/Dataset/Reader.antt =====
-- `_read_header` and `IndexedDatasetReader` of src/pretrain/data/indexed_dataset.py.
use open_transformers.Prelude.{
  ℕ, zero, suc, ◌+◌, ◌-◌, ◌*◌, min, Bool, true, false, not, ◌||◌, List, [], Option, none, some,
  length, take, drop, ltb, ◌==◌, if◌then◌else◌, item, Result, ok, raise, raise_if, runtime_error,
  value_error, index_error, file_not_found_error, ◌>>=◌, ◌>>◌,
}
use open_transformers.Prelude.Int.{ℤ, pos, negsuc, ◌+ℤ◌, ◌-ℤ◌, ltb_int}
use open_transformers.Dataset.Format.{
  Bytes, Dtype, dtype_of_code, magic, version, equal_bytes, unpack, unpack_signed, Numpy,
}

pub record IndexHeader : Type 0 where
  pub dtype : Dtype
  pub num_documents : ℤ
  pub token_count : ℤ

-- `f.read(8 * (n + 1))`, and what stays to be read: a negative size reads everything.
abbrev pub read_words : ℤ → Bytes → Bytes × Bytes
read_words (pos n) file = (take (8 * (n + 1)) file, drop (8 * (n + 1)) file)
read_words (negsuc zero) file = ([], file)
read_words (negsuc (suc n)) file = (file, [])

-- `xs[start:end]`: a negative bound counts from the end.
abbrev pub bound : ℕ → ℤ → ℕ
bound size (pos n) = min n size
bound size (negsuc n) = size - suc n

abbrev pub slice {ℓ} : {A : Type ℓ} → List A → ℤ → ℤ → List A
slice xs start end =
    take (bound (length xs) end - bound (length xs) start) (drop (bound (length xs) start) xs)

-- `xs[i]`, as the code and numpy index.
abbrev pub item_int : List ℤ → ℤ → Result ℤ
item_int xs (pos i) = item xs i
item_int xs (negsuc i) =
    if ltb i (length xs) then item xs (length xs - suc i) else raise index_error

-- `if idx < 0: idx += n`, and the check behind it.
unfoldable pub checked_index : ℤ → ℤ → Result ℤ
checked_index n idx =
    let i = if ltb_int idx (pos 0) then idx +ℤ n else idx in
    if ltb_int i (pos 0) || not (ltb_int i n) then raise index_error else ok i

module _ (numpy : Numpy) where
  unfoldable pub read_header : Bytes → Result (IndexHeader × List ℤ × List ℤ)
  read_header file0 = do
    raise_if (not (equal_bytes (take 8 file0) magic)) value_error
    let file1 = drop 8 file0
    read_version ← unpack 8 (take 8 file1)
    raise_if (not (read_version == version)) value_error
    let file2 = drop 8 file1
    dtype_code ← unpack 1 (take 1 file2)
    let file3 = drop 1 file2
    num_documents ← unpack_signed (take 8 file3)
    let file4 = drop 8 file3
    token_count ← unpack_signed (take 8 file4)
    let file5 = drop 8 file4
    let words = read_words num_documents file5
    offsets ← numpy.int64_frombuffer words.0
    byte_offsets ← numpy.int64_frombuffer (read_words num_documents words.1).0
    dtype ← dtype_of_code dtype_code
    ok (
      record { dtype = dtype; num_documents = num_documents; token_count = token_count },
      offsets,
      byte_offsets,
    )

  pub record Reader : Type 0 where
    pub index_only : Bool
    pub header : IndexHeader
    pub token_offsets : List ℤ
    pub byte_offsets : List ℤ
    pub mmap : Option (List numpy.Value)

  -- `None if index_only else np.memmap(bin_path, ...)`, where the file was there before.
  abbrev pub payload : Bool → Dtype → Option Bytes → Result (Option (List numpy.Value))
  payload true dtype bin = ok none
  payload false dtype none = raise file_not_found_error
  payload false dtype (some bin) = do tokens ← numpy.memmap dtype bin; ok (some tokens)

  abbrev pub no_payload : Bool → Option Bytes → Bool
  no_payload index_only none = not index_only
  no_payload index_only (some bin) = false

  unfoldable pub open_reader : (idx bin : Option Bytes) (index_only : Bool) → Result Reader
  open_reader none bin index_only = raise file_not_found_error
  open_reader (some file) bin index_only = do
    raise_if (no_payload index_only bin) file_not_found_error
    read ← read_header file
    mmap ← payload index_only read.0.dtype bin
    ok (record {
      index_only = index_only;
      header = read.0;
      token_offsets = read.1;
      byte_offsets = read.2;
      mmap = mmap;
    })

  abbrev pub tokens_of : Option (List numpy.Value) → Result (List numpy.Value)
  tokens_of none = raise runtime_error
  tokens_of (some tokens) = ok tokens

  unfoldable pub document : Reader → ℤ → Result (List numpy.Value)
  document self idx = do
    tokens ← tokens_of self.mmap
    i ← checked_index self.header.num_documents idx
    start ← item_int self.token_offsets i
    end ← item_int self.token_offsets (i +ℤ pos 1)
    ok (slice tokens start end)

  unfoldable pub document_length : Reader → ℤ → Result ℤ
  document_length self idx = do
    i ← checked_index self.header.num_documents idx
    end ← item_int self.token_offsets (i +ℤ pos 1)
    start ← item_int self.token_offsets i
    ok (end -ℤ start)
