-- ===== src/DocMap/Position.antt =====
-- `compare_position` of src/pretrain/data/doc_map.py.
use open_transformers.Prelude.{
  ℕ, Bool, true, false, List, [], ◌∷◌, ◌++◌, map, Option, none, some, ◌==◌, if◌then◌else◌,
}
use open_transformers.Prelude.Disk.{Text, text_eq}
use open_transformers.StateHash.Sorted.{sorted}

-- A dict of counts per source, and its `get`.
abbrev pub Counts : Type 0
Counts = List (Text × ℕ)

unfoldable pub get : Counts → Text → Option ℕ
get [] name = none
get ((own, n) ∷ counts) name =
    let rest = get counts name in if text_eq own name then some n else rest

pub record Position : Type 0 where
  pub consumed_documents_per_source : Counts
  pub epoch_per_source : Counts
  pub windows_emitted : ℕ

-- What a checkpoint's `global_stream.json` has; a dict that is not there counts as empty.
pub record GlobalStreamJson : Type 0 where
  pub consumed_documents_per_source : Counts
  pub epoch_per_source : Counts
  pub windows_emitted : Option ℕ

abbrev pub same_count : Option ℕ → Option ℕ → Bool
same_count none none = true
same_count none (some n) = false
same_count (some m) none = false
same_count (some m) (some n) = m == n

pub data Problem : Type 0 where
  documents_differ epochs_differ : Text → Problem
  windows_differ : Problem

abbrev pub keys : Counts → List Text
keys counts = map (λ entry. entry.0) counts

abbrev pub mem : Text → List Text → Bool
mem name [] = false
mem name (own ∷ names) = let rest = mem name names in if text_eq own name then true else rest

-- `set`: a name stands once.
unfoldable pub once : List Text → List Text
once [] = []
once (name ∷ names) = if mem name names then once names else name ∷ once names

unfoldable pub problems_of : (Text → Problem) → (want got : Counts) → List Text → List Problem
problems_of problem want got [] = []
problems_of problem want got (name ∷ names) =
    let rest = problems_of problem want got names in
    if same_count (get want name) (get got name) then rest else problem name ∷ rest

-- `sorted(set(want) | set(got))`.
unfoldable pub compare_counts : (Text → Problem) → (want got : Counts) → List Problem
compare_counts problem want got =
    problems_of problem want got (sorted (λ name. name) (once (keys want ++ keys got)))

unfoldable pub compare_position : Position → GlobalStreamJson → List Problem
compare_position position json =
    compare_counts documents_differ json.consumed_documents_per_source
      position.consumed_documents_per_source
    ++ (compare_counts epochs_differ json.epoch_per_source position.epoch_per_source
        ++ (if same_count json.windows_emitted (some position.windows_emitted)
            then []
            else windows_differ ∷ []))
