-- ===== src/Dataset/Tests.antt =====
-- The theorems on src/pretrain/data/indexed_dataset.py at arrays of bytes.
use open_transformers.Prelude.{
  ℕ, zero, suc, ◌-◌, ◌*◌, ◌^◌, ◌<◌, ◌≤◌, ◌≡◌, refl, ap, false, List, [], ◌∷◌, ◌++◌, All, map, none,
  some, length, length-append, take, drop, lt→ltb, Result, ok, raise, value_error, arith,
}
use open_transformers.Prelude.Int.{ℤ, pos, negsuc}
use open_transformers.Prelude.Words.{to_bytes, from_bytes, length-to_bytes, from_bytes-to_bytes}
use open_transformers.Dataset.Format.{
  Bytes, uint8, flat, magic, signed, unpack, unpack_signed, Numpy,
}
use open_transformers.Dataset.Reader.{read_header, Reader, open_reader, document, document_length}
use open_transformers.Dataset.RoundTrip.{written, reading, written-document}

abbrev non_empty : Bytes → Result (List ℕ)
non_empty [] = raise value_error
non_empty (byte ∷ bytes) = ok (byte ∷ bytes)

abbrev pack_all : List ℤ → Bytes
pack_all [] = []
pack_all (pos n ∷ xs) = to_bytes 8 n ++ pack_all xs
pack_all (negsuc n ∷ xs) = to_bytes 8 (2 ^ 64 - suc n) ++ pack_all xs

abbrev words : ℕ → Bytes → List ℤ
words zero bytes = []
words (suc fuel) [] = []
words (suc fuel) (byte ∷ bytes) =
    signed (from_bytes (take 8 (byte ∷ bytes))) ∷ words fuel (drop 8 (byte ∷ bytes))

words_step :
    (fuel n : ℕ) (rest : Bytes)
    → n < 2 ^ 63
    → words (suc fuel) (to_bytes 8 n ++ rest) ≡ pos n ∷ words fuel rest
unfolding to_bytes
words_step fuel n rest fits =
    rw (from_bytes-to_bytes 8 n (omega (arith, fits)), lt→ltb n (2 ^ 63) fits) refl

words-pack_all :
    (fuel : ℕ) (ns : List ℕ)
    → All (λ n. n < 2 ^ 63) ns
    → length ns ≤ fuel
    → words fuel (pack_all (map pos ns)) ≡ map pos ns
words-pack_all zero [] fits enough = refl
words-pack_all (suc fuel) [] fits enough = refl
words-pack_all zero (n ∷ ns) fits enough = absurd (omega (arith, enough))
words-pack_all (suc fuel) (n ∷ ns) fits enough =
    rw
      (
        words_step fuel n (pack_all (map pos ns)) fits.0,
        words-pack_all fuel ns fits.1 (omega (arith, enough)),
      )
      refl

length-pack_all : (ns : List ℕ) → length (pack_all (map pos ns)) ≡ 8 * length ns
length-pack_all [] = refl
length-pack_all (n ∷ ns) = omega (
  arith,
  length-append (to_bytes 8 n) (pack_all (map pos ns)),
  length-to_bytes 8 n,
  length-pack_all ns,
)

non_empty_lem : (xs : List ℕ) → 0 < length xs → non_empty xs ≡ ok xs
non_empty_lem [] some_bytes = absurd (omega (arith, some_bytes))
non_empty_lem (x ∷ xs) some_bytes = refl

-- Tokens of one byte.
abbrev byte_arrays : Numpy
byte_arrays = record {
  Value = ℕ;
  Tokens = List ℕ;
  asarray = λ dtype tokens. ok (flat tokens);
  itemsize = λ dtype. 1;
  tobytes = λ dtype xs. xs;
  memmap = λ dtype bytes. non_empty bytes;
  int64_tobytes = λ xs. ok (pack_all xs);
  int64_frombuffer = λ bytes. ok (words (length bytes) bytes);
  length-tobytes = λ dtype xs. omega arith;
  tobytes-append = λ dtype xs ys. refl;
  memmap-tobytes = λ dtype xs some_bytes. non_empty_lem xs some_bytes;
  frombuffer-tobytes = λ ns fits. (
    pack_all (map pos ns),
    refl,
    length-pack_all ns,
    ap ok (
        words-pack_all (length (pack_all (map pos ns))) ns fits
          (omega (arith, length-pack_all ns))),
  );
}

abbrev first_document : List ℕ
first_document = 5 ∷ 6 ∷ []

abbrev second_document : List ℕ
second_document = 7 ∷ []

abbrev given_first : List ℕ × List ℕ
given_first = (first_document, first_document)

abbrev given_second : List ℕ × List ℕ
given_second = (second_document, second_document)

written-document_example :
    (reader : Reader byte_arrays) × (written byte_arrays uint8 none
        (first_document ∷ second_document ∷ [])
      ≡ ok reader)
    × (reader.header.num_documents ≡ pos 2)
    × (document byte_arrays reader (pos 1) ≡ ok second_document)
    × (document byte_arrays reader (negsuc 0) ≡ ok second_document)
    × (document_length byte_arrays reader (pos 1) ≡ ok (pos 1))
written-document_example =
    written-document byte_arrays uint8 1 none (given_first ∷ []) given_second [] refl
      (refl, (refl, tt)) (omega arith) (omega arith) (omega arith) (omega arith)

abbrev opened_reader : Reader byte_arrays
opened_reader = reading byte_arrays uint8 1 none (given_first ∷ given_second ∷ [])

abbrev index : Bytes
index =
    magic
    ++ to_bytes 8 1
    ++ 1 ∷ []
    ++ to_bytes 8 2
    ++ to_bytes 8 3
    ++ pack_all (pos 0 ∷ pos 2 ∷ pos 3 ∷ [])
    ++ pack_all (pos 0 ∷ pos 2 ∷ pos 3 ∷ [])

opens : open_reader byte_arrays (some index) (some (5 ∷ 6 ∷ 7 ∷ [])) false ≡ ok opened_reader
unfolding open_reader read_header unpack unpack_signed to_bytes from_bytes
opens = refl
