-- ===== src/Dataset/RoundTrip.antt =====
-- What `IndexedDatasetWriter` writes is what `IndexedDatasetReader` reads
-- (src/pretrain/data/indexed_dataset.py).
use mathlib.Core.List.{map-append}
use native.Mathlib.Nat.{zero-add}
use open_transformers.Prelude.{
  ℕ, suc, ◌+◌, ◌-◌, ◌*◌, ◌^◌, ◌<◌, ◌≡◌, refl, sym, ap, ◌∙◌, false, List, [], ◌∷◌, ◌++◌, append-nil,
  append_assoc, All, map, Option, some, length, length-append, length-map, get_elem?, Result, ok,
  ◌>>=◌, arith,
}
use open_transformers.Prelude.Int.{pos, negsuc, add-sub}
use open_transformers.Dataset.Format.{Bytes, Dtype, validate_dtype, flat, Numpy}
use open_transformers.Dataset.Writer.{
  Writer, start_writer, add_document, add_documents, close, last,
}
use open_transformers.Dataset.Reader.{Reader, open_reader, document, document_length}
use open_transformers.Dataset.Header.{read_header-index_bytes}
use open_transformers.Dataset.Offsets.{
  sums, total, joined_all, length-sums, last-sums, sums-append, sums-bounded, get_elem?-map-sums,
  get_elem?-map-sums_next, length-joined_all, joined_all-append, slice-append,
}
use open_transformers.Dataset.Lookup.{checked_index-pos, checked_index-negsuc}

module _ (numpy : Numpy) where
  -- The tokens that are given for a document, and the array that numpy makes of them.
  abbrev pub Given : Type 0
  Given = numpy.Tokens × List numpy.Value

  abbrev pub OneDim : Dtype → Given → Type 0
  OneDim dtype given = numpy.asarray dtype given.0 ≡ ok (flat given.1)

  -- The documents through the files of a new writer: written, closed and opened again.
  abbrev pub written : Dtype → Option Bytes → List numpy.Tokens → Result (Reader numpy)
  written dtype idx inputs = do
    started ← start_writer dtype idx
    filled ← add_documents numpy started inputs
    closed ← close numpy filled
    open_reader numpy closed.idx (some closed.bin) false

  abbrev arrays : List Given → List (List numpy.Value)
  arrays = map (λ (given : Given). given.1)

  abbrev sizes : List Given → List ℕ
  sizes givens = map length (arrays givens)

  abbrev byte_size : Dtype → List numpy.Value → ℕ
  byte_size dtype xs = length xs * numpy.itemsize dtype

  abbrev byte_sizes : Dtype → List Given → List ℕ
  byte_sizes dtype givens = map (byte_size dtype) (arrays givens)

  -- A writer that was given documents.
  abbrev holding : Dtype → ℕ → Option Bytes → List Given → Writer
  holding dtype code idx givens = record {
    dtype = dtype;
    dtype_code = code;
    bin = numpy.tobytes dtype (joined_all (arrays givens));
    idx = idx;
    token_offsets = sums 0 (sizes givens);
    byte_offsets = sums 0 (byte_sizes dtype givens);
    closed = false;
  }

  no_bytes : (dtype : Dtype) → numpy.tobytes dtype [] ≡ []
  no_bytes dtype = empty (numpy.tobytes dtype []) (numpy.length-tobytes dtype [] ∙ omega arith)
    where
      empty : (bytes : Bytes) → length bytes ≡ 0 → bytes ≡ []
      empty [] e = refl
      empty (byte ∷ bytes) e = absurd (omega (arith, e))

  start-holding :
      (dtype : Dtype) (code : ℕ) (idx : Option Bytes)
      → validate_dtype dtype ≡ ok code
      → start_writer dtype idx ≡ ok (holding dtype code idx [])
  unfolding start_writer
  start-holding dtype code idx valid = rw (valid, no_bytes dtype) refl

  bin_eq :
      (dtype : Dtype) (givens : List Given) (given : Given)
      → numpy.tobytes dtype (joined_all (arrays givens)) ++ numpy.tobytes dtype given.1
        ≡ numpy.tobytes dtype (joined_all (arrays (givens ++ given ∷ [])))
  bin_eq dtype givens given =
      rw
        (
          map-append (λ (g : Given). g.1) givens (given ∷ []),
          joined_all-append (arrays givens) (given.1 ∷ []),
          append-nil given.1,
        )
        (sym (numpy.tobytes-append dtype (joined_all (arrays givens)) given.1))

  offsets_eq :
      (size : List numpy.Value → ℕ) (givens : List Given) (given : Given)
      → sums 0 (map size (arrays givens))
          ++ (last (sums 0 (map size (arrays givens))) + size given.1) ∷ []
        ≡ sums 0 (map size (arrays (givens ++ given ∷ [])))
  offsets_eq size givens given =
      rw
        (
          map-append (λ (g : Given). g.1) givens (given ∷ []),
          map-append size (arrays givens) (given.1 ∷ []),
          last-sums 0 (map size (arrays givens)),
        )
        (sym (sums-append 0 (map size (arrays givens)) (size given.1)))

  add-holding :
      (dtype : Dtype) (code : ℕ) (idx : Option Bytes) (givens : List Given) (given : Given)
      → OneDim dtype given
      → add_document numpy (holding dtype code idx givens) given.0
        ≡ ok (holding dtype code idx (givens ++ given ∷ []))
  unfolding add_document
  add-holding dtype code idx givens given one =
      rw
        (
          one,
          bin_eq dtype givens given,
          offsets_eq length givens given,
          offsets_eq (byte_size dtype) givens given,
        )
        refl

  adds-holding :
      (dtype : Dtype) (code : ℕ) (idx : Option Bytes) (givens more : List Given)
      → All (OneDim dtype) more
      → add_documents numpy (holding dtype code idx givens) (map (λ (given : Given). given.0) more)
        ≡ ok (holding dtype code idx (givens ++ more))
  unfolding add_documents
  adds-holding dtype code idx givens [] one =
      ap (λ (gs : List Given). ok (holding dtype code idx gs)) (sym (append-nil givens))
  adds-holding dtype code idx givens (given ∷ more) one =
      rw (add-holding dtype code idx givens given one.0) (
        adds-holding dtype code idx (givens ++ given ∷ []) more one.1
        ∙ ap (λ (gs : List Given). ok (holding dtype code idx gs))
            (append_assoc givens (given ∷ []) more))

  -- The documents that were written, read again.
  module _ (dtype : Dtype) (code : ℕ) (idx : Option Bytes) (givens : List Given) where
    abbrev pub reading : Reader numpy
    reading = record {
      index_only = false;
      header = record {
        dtype = dtype;
        num_documents = pos (length givens);
        token_count = pos (last (sums 0 (sizes givens)));
      };
      token_offsets = map pos (sums 0 (sizes givens));
      byte_offsets = map pos (sums 0 (byte_sizes dtype givens));
      mmap = some (joined_all (arrays givens));
    }

    count-sums :
        (size : List numpy.Value → ℕ)
        → length (sums 0 (map size (arrays givens))) ≡ suc (length givens)
    count-sums size =
        length-sums 0 (map size (arrays givens))
        ∙ ap suc (length-map (arrays givens) size ∙ length-map givens (λ (g : Given). g.1))

    written-reading :
        validate_dtype dtype ≡ ok code
        → All (OneDim dtype) givens
        → 0 < total (sizes givens)
        → length givens < 2 ^ 63
        → total (sizes givens) < 2 ^ 63
        → total (byte_sizes dtype givens) < 2 ^ 63
        → written dtype idx (map (λ (g : Given). g.0) givens) ≡ ok reading
    unfolding close open_reader
    written-reading valid one some_tokens count tokens bytes =
        let (index, made, read) =
          read_header-index_bytes numpy (holding dtype code idx givens) (length givens) valid
            (count-sums length) (count-sums (byte_size dtype)) count
            (rw (last-sums 0 (sizes givens), zero-add (total (sizes givens))) tokens)
            (sums-bounded 0 (2 ^ 63) (sizes givens) (rw (zero-add (total (sizes givens))) tokens))
            (sums-bounded 0 (2 ^ 63) (byte_sizes dtype givens)
              (rw (zero-add (total (byte_sizes dtype givens))) bytes)) in
        let mapped : numpy.memmap dtype (numpy.tobytes dtype (joined_all (arrays givens)))
            ≡ ok (joined_all (arrays givens)) =
          numpy.memmap-tobytes dtype (joined_all (arrays givens))
            (rw (length-joined_all (arrays givens)) some_tokens) in
        rw
          (
            start-holding dtype code idx valid,
            adds-holding dtype code idx [] givens one,
            made,
            read,
            mapped,
          )
          refl

  module _ (dtype : Dtype) (code : ℕ) (idx : Option Bytes) (pre : List Given) (given : Given)
      (post : List Given) where
    abbrev all : List Given
    all = pre ++ given ∷ post

    length-sizes : (givens : List Given) → length (sizes givens) ≡ length givens
    length-sizes givens = length-map (arrays givens) length ∙ length-map givens (λ (g : Given). g.1)

    sizes-all : sizes all ≡ sizes pre ++ length given.1 ∷ sizes post
    sizes-all =
        rw
          (
            map-append (λ (g : Given). g.1) pre (given ∷ post),
            map-append length (arrays pre) (given.1 ∷ arrays post),
          )
          refl

    start_of :
        get_elem? (map pos (sums 0 (sizes all))) (length pre) ≡ some (pos (total (sizes pre)))
    start_of =
        rw (sizes-all, ← length-sizes pre, ← zero-add (total (sizes pre)))
          (get_elem?-map-sums 0 (sizes pre) (length given.1 ∷ sizes post))

    end_of :
        get_elem? (map pos (sums 0 (sizes all))) (length pre + 1)
        ≡ some (pos (total (sizes pre) + length given.1))
    end_of =
        rw (sizes-all, ← length-sizes pre, ← zero-add (total (sizes pre)))
          (get_elem?-map-sums_next 0 (sizes pre) (length given.1) (sizes post))

    joined-all :
        joined_all (arrays all) ≡ joined_all (arrays pre) ++ (given.1 ++ joined_all (arrays post))
    joined-all =
        rw (map-append (λ (g : Given). g.1) pre (given ∷ post))
          (joined_all-append (arrays pre) (given.1 ∷ arrays post))

    before : length pre < length all
    before = omega (arith, length-append pre (given ∷ post))

    document-reading : document numpy (reading dtype code idx all) (pos (length pre)) ≡ ok given.1
    unfolding document
    document-reading =
        rw (checked_index-pos (length all) (length pre) before, start_of, end_of, joined-all)
          (ap ok (
            rw (← length-joined_all (arrays pre))
              (slice-append (joined_all (arrays pre)) given.1 (joined_all (arrays post)))))

    from_end :
        document numpy (reading dtype code idx all) (negsuc (length post))
        ≡ document numpy (reading dtype code idx all) (pos (length pre))
    unfolding document
    from_end =
        let place : length all - suc (length post) ≡ length pre =
          omega (arith, length-append pre (given ∷ post)) in
        rw
          (
            checked_index-pos (length all) (length pre) before,
            checked_index-negsuc (length all) (length post)
                (omega (arith, length-append pre (given ∷ post))),
            place,
          )
          refl

    length-reading :
        document_length numpy (reading dtype code idx all) (pos (length pre))
        ≡ ok (pos (length given.1))
    unfolding document_length
    length-reading =
        rw (checked_index-pos (length all) (length pre) before, end_of, start_of)
          (ap ok (add-sub (total (sizes pre)) (length given.1)))

    -- Documents that numpy makes one-dimensional arrays of, with at least one token in all, and fewer
    -- than 2 ^ 63 documents, tokens and bytes, are written, closed and opened again without an
    -- exception, whatever index stood there before; the document that stands behind `pre` and before
    -- `post` is read at its index and at its index from the end, as the array that was given, and its
    -- length without the payload.
    pub written-document :
        validate_dtype dtype ≡ ok code
        → All (OneDim dtype) all
        → 0 < total (sizes all)
        → length all < 2 ^ 63
        → total (sizes all) < 2 ^ 63
        → total (byte_sizes dtype all) < 2 ^ 63
        → (reader : Reader numpy) × (written dtype idx (map (λ (g : Given). g.0) all) ≡ ok reader)
          × (reader.header.num_documents ≡ pos (length all))
          × (document numpy reader (pos (length pre)) ≡ ok given.1)
          × (document numpy reader (negsuc (length post)) ≡ ok given.1)
          × (document_length numpy reader (pos (length pre)) ≡ ok (pos (length given.1)))
    written-document valid one some_tokens count tokens bytes = (
      reading dtype code idx all,
      written-reading dtype code idx all valid one some_tokens count tokens bytes,
      refl,
      document-reading,
      from_end ∙ document-reading,
      length-reading,
    )
