-- ===== src/Dataset/Format.antt =====
-- The data types and words of the files of src/pretrain/data/indexed_dataset.py, and what it asks of
-- numpy.
use open_transformers.Prelude.{
  ℕ, zero, suc, ◌-◌, ◌*◌, ◌^◌, ◌<◌, ◌≡◌, Bool, List, [], ◌∷◌, ◌++◌, All, map, Option, none, some,
  length, true, false, get_elem?, ltb, ◌==◌, if◌then◌else◌, Result, ok, raise, struct_error,
  key_error, value_error, ◌>>=◌,
}
use open_transformers.Prelude.Int.{ℤ, pos, negsuc}
use open_transformers.Prelude.Words.{to_bytes, from_bytes}

abbrev pub Bytes : Type 0
Bytes = List ℕ

-- The data types of numpy: those that `DTYPE_CODES` names, and the others.
pub data Dtype : Type 0 where
  uint8 int8 int16 int32 int64 float32 float64 uint16 uint32 other_dtype : Dtype

-- `DTYPE_CODES`: the data types of the codes from 1.
abbrev pub dtype_codes : List Dtype
dtype_codes = uint8 ∷ int8 ∷ int16 ∷ int32 ∷ int64 ∷ float32 ∷ float64 ∷ uint16 ∷ uint32 ∷ []

abbrev pub named : Option Dtype → Result Dtype
named none = raise key_error
named (some dtype) = ok dtype

abbrev pub dtype_of_code : ℕ → Result Dtype
dtype_of_code zero = raise key_error
dtype_of_code (suc code) = named (get_elem? dtype_codes code)

abbrev pub validate_dtype : Dtype → Result ℕ
validate_dtype uint8 = ok 1
validate_dtype int8 = ok 2
validate_dtype int16 = ok 3
validate_dtype int32 = ok 4
validate_dtype int64 = ok 5
validate_dtype float32 = ok 6
validate_dtype float64 = ok 7
validate_dtype uint16 = ok 8
validate_dtype uint32 = ok 9
validate_dtype other_dtype = raise value_error

-- `b"MMIDIDX\0"`, compared byte by byte.
abbrev pub magic : Bytes
magic = 77 ∷ 77 ∷ 73 ∷ 68 ∷ 73 ∷ 68 ∷ 88 ∷ 0 ∷ []

abbrev pub version : ℕ
version = 1

abbrev pub equal_bytes : Bytes → Bytes → Bool
equal_bytes [] [] = true
equal_bytes [] (d ∷ other) = false
equal_bytes (c ∷ bytes) [] = false
equal_bytes (c ∷ bytes) (d ∷ other) =
    let rest = equal_bytes bytes other in if c == d then rest else false

-- `struct.pack("<B", n)` and `struct.pack("<q", n)` for an `n` that is not negative.
unfoldable pub pack : (count bound : ℕ) → ℕ → Result Bytes
pack count bound n = if ltb n bound then ok (to_bytes count n) else raise struct_error

-- `struct.unpack("<Q", bytes)` with 8 bytes, and `struct.unpack("<B", bytes)` with 1.
unfoldable pub unpack : ℕ → Bytes → Result ℕ
unpack count bytes = if length bytes == count then ok (from_bytes bytes) else raise struct_error

-- The value of a word in two's complement.
abbrev pub signed : ℕ → ℤ
signed n = if ltb n (2 ^ 63) then pos n else negsuc (2 ^ 64 - n - 1)

-- `struct.unpack("<q", bytes)`.
unfoldable pub unpack_signed : Bytes → Result ℤ
unpack_signed bytes = do word ← unpack 8 bytes; ok (signed word)

-- What `np.asarray(tokens, dtype)` gives.
pub data Array (V : Type 0) : Type 0 where
  flat : List V → Array V
  shaped : Array V

-- The numpy that the module uses: arrays of a data type to bytes and back, and `np.memmap` of a file.
-- The laws are those of numpy's documentation: `tobytes` is the elements' bytes in order, `frombuffer`
-- and `memmap` read what it wrote, `memmap` not a file that is empty.
pub record Numpy : Type 1 where
  pub Value : Type 0
  pub Tokens : Type 0
  pub asarray : Dtype → Tokens → Result (Array Value)
  pub itemsize : Dtype → ℕ
  pub tobytes : Dtype → List Value → Bytes
  pub memmap : Dtype → Bytes → Result (List Value)
  pub int64_tobytes : List ℤ → Result Bytes
  pub int64_frombuffer : Bytes → Result (List ℤ)
  pub length-tobytes :
      (dtype : Dtype) (xs : List Value) → length (tobytes dtype xs) ≡ length xs * itemsize dtype
  pub tobytes-append :
      (dtype : Dtype) (xs ys : List Value)
      → tobytes dtype (xs ++ ys) ≡ tobytes dtype xs ++ tobytes dtype ys
  pub memmap-tobytes :
      (dtype : Dtype) (xs : List Value) → 0 < length xs → memmap dtype (tobytes dtype xs) ≡ ok xs
  pub frombuffer-tobytes :
      (ns : List ℕ)
      → All (λ n. n < 2 ^ 63) ns
      → (bytes : Bytes) × (int64_tobytes (map pos ns) ≡ ok bytes)
        × (length bytes ≡ 8 * length ns)
        × (int64_frombuffer bytes ≡ ok (map pos ns))
