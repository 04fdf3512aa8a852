-- ===== src/Dataset/Header.antt =====
-- The index that `IndexedDatasetWriter.close` writes (src/pretrain/data/indexed_dataset.py) is what
-- `_read_header` reads.
use open_transformers.Prelude.{
  ℕ, suc, ◌+◌, ◌-◌, ◌*◌, ◌^◌, ◌<◌, ◌≡◌, refl, ◌∙◌, subst, true, List, ◌++◌, All, map, length, take,
  drop, ltb, lt→ltb, ◌==◌, ==_iff, ok, arith,
}
use open_transformers.Prelude.Int.{ℤ, pos}
use open_transformers.Prelude.Slices.{take-append_length, drop-append_length, take_of_length-le}
use open_transformers.Prelude.Words.{to_bytes, length-to_bytes, from_bytes-to_bytes}
use open_transformers.Dataset.Format.{
  Bytes, Dtype, uint8, int8, int16, int32, int64, float32, float64, uint16, uint32, other_dtype,
  dtype_of_code, validate_dtype, magic, version, equal_bytes, pack, unpack, unpack_signed, Numpy,
}
use open_transformers.Dataset.Writer.{Writer, index_bytes, last}
use open_transformers.Dataset.Reader.{read_header}

take-front : (k : ℕ) (xs ys : Bytes) → length xs ≡ k → take k (xs ++ ys) ≡ xs
take-front k xs ys size = subst (λ n. take n (xs ++ ys) ≡ xs) size (take-append_length xs ys)

drop-front : (k : ℕ) (xs ys : Bytes) → length xs ≡ k → drop k (xs ++ ys) ≡ ys
drop-front k xs ys size = subst (λ n. drop n (xs ++ ys) ≡ ys) size (drop-append_length xs ys)

unpack-to_bytes : (count n : ℕ) → n < 256 ^ count → unpack count (to_bytes count n) ≡ ok n
unfolding unpack
unpack-to_bytes count n fits =
    let size : (length (to_bytes count n) == count) ≡ true =
      (==_iff _ count).1 (length-to_bytes count n) in
    rw (size, from_bytes-to_bytes count n fits) refl

unpack_signed-to_bytes : (n : ℕ) → n < 2 ^ 63 → unpack_signed (to_bytes 8 n) ≡ ok (pos n)
unfolding unpack_signed
unpack_signed-to_bytes n fits =
    let small : ltb n (2 ^ 63) ≡ true = lt→ltb n (2 ^ 63) fits in
    rw (unpack-to_bytes 8 n (omega (arith, fits)), small) refl

pack-fits : (count bound n : ℕ) → n < bound → pack count bound n ≡ ok (to_bytes count n)
unfolding pack
pack-fits count bound n fits = rw (lt→ltb n bound fits) refl

ok-eq : (c code : ℕ) → ok c ≡ ok code → c ≡ code
ok-eq c code e = cc

coded :
    (c code : ℕ) (dtype : Dtype)
    → ok c ≡ ok code
    → dtype_of_code c ≡ ok dtype
    → c < 256
    → (dtype_of_code code ≡ ok dtype) × (code < 256)
coded c code dtype e known small =
    subst (λ n. (dtype_of_code n ≡ ok dtype) × (n < 256)) (ok-eq c code e) (known, small)

-- The codes are those of the table.
pub dtype_of_code-validate_dtype :
    (dtype : Dtype) (code : ℕ)
    → validate_dtype dtype ≡ ok code
    → (dtype_of_code code ≡ ok dtype) × (code < 256)
dtype_of_code-validate_dtype uint8 code e = coded 1 code uint8 e refl (omega arith)
dtype_of_code-validate_dtype int8 code e = coded 2 code int8 e refl (omega arith)
dtype_of_code-validate_dtype int16 code e = coded 3 code int16 e refl (omega arith)
dtype_of_code-validate_dtype int32 code e = coded 4 code int32 e refl (omega arith)
dtype_of_code-validate_dtype int64 code e = coded 5 code int64 e refl (omega arith)
dtype_of_code-validate_dtype float32 code e = coded 6 code float32 e refl (omega arith)
dtype_of_code-validate_dtype float64 code e = coded 7 code float64 e refl (omega arith)
dtype_of_code-validate_dtype uint16 code e = coded 8 code uint16 e refl (omega arith)
dtype_of_code-validate_dtype uint32 code e = coded 9 code uint32 e refl (omega arith)
dtype_of_code-validate_dtype other_dtype code e = cc

module _ (numpy : Numpy) where
  read_header-front :
      (m v c d t offsets byte_offsets : Bytes) (code n tokens : ℕ) (dtype : Dtype) (xs ys : List ℤ)
      → length m ≡ 8
      → equal_bytes m magic ≡ true
      → length v ≡ 8
      → unpack 8 v ≡ ok version
      → length c ≡ 1
      → unpack 1 c ≡ ok code
      → length d ≡ 8
      → unpack_signed d ≡ ok (pos n)
      → length t ≡ 8
      → unpack_signed t ≡ ok (pos tokens)
      → length offsets ≡ 8 * (n + 1)
      → length byte_offsets ≡ 8 * (n + 1)
      → numpy.int64_frombuffer offsets ≡ ok xs
      → numpy.int64_frombuffer byte_offsets ≡ ok ys
      → dtype_of_code code ≡ ok dtype
      → read_header numpy (m ++ (v ++ (c ++ (d ++ (t ++ (offsets ++ byte_offsets))))))
        ≡ ok (record { dtype = dtype; num_documents = pos n; token_count = pos tokens }, xs, ys)
  unfolding read_header
  read_header-front m v c d t offsets byte_offsets code n tokens dtype xs ys hm em hv ev hc ec hd ed
        ht et so sb ho hb hdt =
      rw
        (
          take-front 8 m (v ++ (c ++ (d ++ (t ++ (offsets ++ byte_offsets))))) hm,
          drop-front 8 m (v ++ (c ++ (d ++ (t ++ (offsets ++ byte_offsets))))) hm,
          em,
          take-front 8 v (c ++ (d ++ (t ++ (offsets ++ byte_offsets)))) hv,
          drop-front 8 v (c ++ (d ++ (t ++ (offsets ++ byte_offsets)))) hv,
          ev,
          take-front 1 c (d ++ (t ++ (offsets ++ byte_offsets))) hc,
          drop-front 1 c (d ++ (t ++ (offsets ++ byte_offsets))) hc,
          ec,
          take-front 8 d (t ++ (offsets ++ byte_offsets)) hd,
          drop-front 8 d (t ++ (offsets ++ byte_offsets)) hd,
          ed,
          take-front 8 t (offsets ++ byte_offsets) ht,
          drop-front 8 t (offsets ++ byte_offsets) ht,
          et,
          take-front (8 * (n + 1)) offsets byte_offsets so,
          drop-front (8 * (n + 1)) offsets byte_offsets so,
          take_of_length-le (8 * (n + 1)) byte_offsets (omega (arith, sb)),
          ho,
          hb,
          hdt,
        )
        refl

  length-all : (ns : List ℕ) (n : ℕ) → length ns ≡ suc n → 8 * length ns ≡ 8 * (n + 1)
  length-all ns n size = omega arith

  -- `_read_header` reads from the index of a writer what the writer holds.
  pub read_header-index_bytes :
      (w : Writer) (n : ℕ)
      → validate_dtype w.dtype ≡ ok w.dtype_code
      → length w.token_offsets ≡ suc n
      → length w.byte_offsets ≡ suc n
      → n < 2 ^ 63
      → last w.token_offsets < 2 ^ 63
      → All (λ offset. offset < 2 ^ 63) w.token_offsets
      → All (λ offset. offset < 2 ^ 63) w.byte_offsets
      → (bytes : Bytes) × (index_bytes numpy w ≡ ok bytes)
        × (read_header numpy bytes
            ≡ ok (
              record {
                dtype = w.dtype;
                num_documents = pos n;
                token_count = pos (last w.token_offsets);
              },
              map pos w.token_offsets,
              map pos w.byte_offsets,
            ))
  unfolding index_bytes
  read_header-index_bytes w n valid size bsize hn ht ho hb =
      let (code, small) = dtype_of_code-validate_dtype w.dtype w.dtype_code valid in
      let (o, o_made, o_size, o_read) = numpy.frombuffer-tobytes w.token_offsets ho in
      let (b, b_made, b_size, b_read) = numpy.frombuffer-tobytes w.byte_offsets hb in
      let count : length w.token_offsets - 1 ≡ n = omega (arith, size) in
      (
        _,
        rw
            (
              pack-fits 1 256 w.dtype_code small,
              count,
              pack-fits 8 (2 ^ 63) n hn,
              pack-fits 8 (2 ^ 63) (last w.token_offsets) ht,
              o_made,
              b_made,
            )
            refl,
        read_header-front magic (to_bytes 8 version) (to_bytes 1 w.dtype_code) (to_bytes 8 n)
            (to_bytes 8 (last w.token_offsets)) o b w.dtype_code n (last w.token_offsets) w.dtype
            (map pos w.token_offsets) (map pos w.byte_offsets) refl refl (length-to_bytes 8 version)
            (unpack-to_bytes 8 version (omega arith)) (length-to_bytes 1 w.dtype_code)
            (unpack-to_bytes 1 w.dtype_code (omega (arith, small))) (length-to_bytes 8 n)
            (unpack_signed-to_bytes n hn) (length-to_bytes 8 (last w.token_offsets))
            (unpack_signed-to_bytes (last w.token_offsets) ht)
            (o_size ∙ length-all w.token_offsets n size)
            (b_size ∙ length-all w.byte_offsets n bsize) o_read b_read code,
      )
