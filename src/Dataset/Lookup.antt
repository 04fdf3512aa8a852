-- ===== src/Dataset/Lookup.antt =====
-- The lookups of `IndexedDatasetReader` (src/pretrain/data/indexed_dataset.py): what an index outside of
-- the documents does, and what a reader of the index alone can do.
use open_transformers.Prelude.{
  ℕ, suc, ◌-◌, ◌<◌, ◌≤◌, ◌≡◌, refl, ap, true, false, List, Option, none, some, ltb, lt→ltb,
  le→ltb-false, ok, raise, runtime_error, index_error, Result-cases, inl, inr, arith,
}
use open_transformers.Prelude.Int.{ℤ, pos, negsuc}
use open_transformers.Dataset.Format.{Bytes, Numpy}
use open_transformers.Dataset.Reader.{
  checked_index, read_header, Reader, open_reader, payload, no_payload, document, document_length,
}

nonneg : (i : ℕ) → ltb i 0 ≡ false
nonneg i = le→ltb-false i 0 (omega arith)

pub checked_index-pos : (n i : ℕ) → i < n → checked_index (pos n) (pos i) ≡ ok (pos i)
unfolding checked_index
checked_index-pos n i inside = rw (nonneg i, nonneg i, lt→ltb i n inside) refl

-- An index from the end.
pub checked_index-negsuc :
    (n i : ℕ) → i < n → checked_index (pos n) (negsuc i) ≡ ok (pos (n - suc i))
unfolding checked_index
checked_index-negsuc n i inside =
    let low : ltb n (suc i) ≡ false = le→ltb-false n (suc i) inside in
    let high : ltb (n - suc i) n ≡ true = lt→ltb (n - suc i) n (omega arith) in
    rw (low, nonneg (n - suc i), high) refl

checked_index_behind : (n i : ℕ) → n ≤ i → checked_index (pos n) (pos i) ≡ raise index_error
unfolding checked_index
checked_index_behind n i outside = rw (nonneg i, nonneg i, le→ltb-false i n outside) refl

checked_index_before : (n i : ℕ) → n ≤ i → checked_index (pos n) (negsuc i) ≡ raise index_error
unfolding checked_index
checked_index_before n i outside =
    let low : ltb n (suc i) ≡ true = lt→ltb n (suc i) (omega arith) in rw low refl

module _ (numpy : Numpy) where
  -- In a reader that has the payload of `n` documents, every index from `n` on and every index below
  -- `-n` is an IndexError, for the document and for its length.
  pub document_out_of_range :
      (reader : Reader numpy) (tokens : List numpy.Value) (n i : ℕ)
      → reader.mmap ≡ some tokens
      → reader.header.num_documents ≡ pos n
      → n ≤ i
      → (document numpy reader (pos i) ≡ raise index_error)
        × (document numpy reader (negsuc i) ≡ raise index_error)
        × (document_length numpy reader (pos i) ≡ raise index_error)
        × (document_length numpy reader (negsuc i) ≡ raise index_error)
  unfolding document document_length
  document_out_of_range reader tokens n i payload count outside =
      let behind = checked_index_behind n i outside in
      let before = checked_index_before n i outside in
      (
        rw (payload, count, behind) refl,
        rw (payload, count, before) refl,
        rw (count, behind) refl,
        rw (count, before) refl,
      )

  opened : (a b : Reader numpy) → ok a ≡ ok b → a ≡ b
  opened a b e = cc

  abbrev indexed : Reader numpy → Reader numpy
  indexed whole = record whole { index_only = true; mmap = none }

  not_needed : (bin : Option Bytes) → no_payload numpy true bin ≡ false
  not_needed none = refl
  not_needed (some bin) = refl

  opens_index_only :
      (file bin : Bytes) (bin' : Option Bytes) (whole : Reader numpy)
      → open_reader numpy (some file) (some bin) false ≡ ok whole
      → open_reader numpy (some file) bin' true ≡ ok (indexed whole)
  unfolding open_reader
  opens_index_only file bin bin' whole made = elim (Result-cases (read_header numpy file)) [
    | inl (read, e) ↦ elim (Result-cases (numpy.memmap read.0.dtype bin)) [
      | inl (tokens, m) ↦
          rw (not_needed bin', e)
            (ap (λ (w : Reader numpy). ok (indexed w))
              (opened
                (record {
                  index_only = false;
                  header = read.0;
                  token_offsets = read.1;
                  byte_offsets = read.2;
                  mmap = some tokens;
                })
                whole (rw (e, m) at made)))
      | inr (error, m) ↦ let no = rw (e, m) at made in cc
    ]
    | inr (error, e) ↦ let no = rw e at made in cc
  ]

  -- Where a reader with the payload opens, a reader of the index alone opens on the same index,
  -- whether the payload is there or not; it has every document's length, and each document is a
  -- RuntimeError.
  pub open_reader_index_only :
      (idx bin bin' : Option Bytes) (whole : Reader numpy) (i : ℤ)
      → open_reader numpy idx bin false ≡ ok whole
      → (reader : Reader numpy) × (open_reader numpy idx bin' true ≡ ok reader)
        × (document_length numpy reader i ≡ document_length numpy whole i)
        × (document numpy reader i ≡ raise runtime_error)
  unfolding open_reader document document_length
  open_reader_index_only none bin bin' whole i made = cc
  open_reader_index_only (some file) none bin' whole i made = cc
  open_reader_index_only (some file) (some bin) bin' whole i made =
      (indexed whole, opens_index_only file bin bin' whole made, refl, refl)
