-- ===== src/DocMap/Agree.antt =====
-- `compare_position` of src/pretrain/data/doc_map.py is empty just where the two sides agree.
use open_transformers.Prelude.{
  ℕ, ◌≡◌, ◌↔◌, refl, sym, ap, ◌∙◌, Bool, true, false, List, [], ◌∷◌, ◌++◌, Option, none, some,
  if◌then◌else◌, Bool-cases, inl, inr, ==_iff,
}
use open_transformers.Prelude.Booleans.{if-cases}
use open_transformers.Prelude.Disk.{Text, text_eq, text_eq-eq}
use open_transformers.StateHash.Sorted.{sorted, insert, text_le}
use open_transformers.DocMap.Position.{
  Counts, get, Position, GlobalStreamJson, same_count, Problem, documents_differ, epochs_differ,
  keys, mem, once, problems_of, compare_counts, compare_position,
}

same_count-eq : (a b : Option ℕ) → same_count a b ≡ true → a ≡ b
same_count-eq none none e = refl
same_count-eq none (some n) e = cc
same_count-eq (some m) none e = cc
same_count-eq (some m) (some n) e = ap some ((==_iff m n).0 e)

same_count_refl : (a : Option ℕ) → same_count a a ≡ true
same_count_refl none = refl
same_count_refl (some n) = (==_iff n n).1 refl

-- Two tests may change places.
swap-if :
    (a b c : Bool)
    → (if b then true else if a then true else c) ≡ (if a then true else if b then true else c)
swap-if true true c = refl
swap-if true false c = refl
swap-if false b c = refl

mem-insert :
    (name own : Text) (names : List Text)
    → mem name (insert (λ n. n) own names) ≡ mem name (own ∷ names)
unfolding insert
mem-insert name own [] = refl
mem-insert name own (first ∷ names) = elim (Bool-cases (text_le own first)) [
  | inl before ↦ rw before refl
  | inr behind ↦
      rw (behind, mem-insert name own names)
        (swap-if (text_eq own name) (text_eq first name) (mem name names))
]

mem-sorted : (name : Text) (names : List Text) → mem name (sorted (λ n. n) names) ≡ mem name names
unfolding sorted
mem-sorted name [] = refl
mem-sorted name (own ∷ names) =
    mem-insert name own (sorted (λ n. n) names)
    ∙ ap (λ b. if text_eq own name then true else b) (mem-sorted name names)

mem-once : (name : Text) (names : List Text) → mem name (once names) ≡ mem name names
unfolding once
mem-once name [] = refl
mem-once name (own ∷ names) = elim (Bool-cases (mem own names)) [
  | inl again ↦ rw again (mem-once name names ∙ seen name own names again)
  | inr new ↦ rw (new, mem-once name names) refl
]
  where
    seen :
        (name own : Text) (names : List Text)
        → mem own names ≡ true
        → mem name names ≡ (if text_eq own name then true else mem name names)
    seen name own names again = elim (Bool-cases (text_eq own name)) [
      | inl same ↦ rw same (ap (λ t. mem t names) (sym (text_eq-eq own name same)) ∙ again)
      | inr apart ↦ rw apart refl
    ]

mem-append :
    (name : Text) (a b : List Text) → mem name (a ++ b) ≡ (if mem name a then true else mem name b)
mem-append name [] b = refl
mem-append name (own ∷ a) b = elim (Bool-cases (text_eq own name)) [
  | inl same ↦ rw same refl
  | inr apart ↦ rw (apart, mem-append name a b) refl
]

get-absent :
    (counts : Counts) (name : Text) → mem name (keys counts) ≡ false → get counts name ≡ none
unfolding get
get-absent [] name e = refl
get-absent ((own, n) ∷ counts) name e = elim (Bool-cases (text_eq own name)) [
  | inl same ↦ let bad : true ≡ false = sym (rw same refl) ∙ e in cc
  | inr apart ↦ rw apart (get-absent counts name (sym (rw apart refl) ∙ e))
]

problems_of-same :
    (problem : Text → Problem) (want got : Counts) (names : List Text) (name : Text)
    → problems_of problem want got names ≡ []
    → mem name names ≡ true
    → same_count (get want name) (get got name) ≡ true
unfolding problems_of
problems_of-same problem want got [] name clean listed = cc
problems_of-same problem want got (own ∷ names) name clean listed =
    elim (if-cases (same_count (get want own) (get got own)) clean) [
      | inl (same, rest) ↦ elim (if-cases (text_eq own name) listed) [
        | inl (e, _) ↦
            ap (λ t. same_count (get want t) (get got t)) (sym (text_eq-eq own name e)) ∙ same
        | inr (_, later) ↦ problems_of-same problem want got names name rest later
      ]
      | inr (_, found) ↦ cc
    ]

problems_of-none :
    (problem : Text → Problem) (want got : Counts) (names : List Text)
    → ((name : Text) → get want name ≡ get got name)
    → problems_of problem want got names ≡ []
unfolding problems_of
problems_of-none problem want got [] same = refl
problems_of-none problem want got (own ∷ names) same =
    rw (same own, same_count_refl (get got own)) (problems_of-none problem want got names same)

compare_counts-same :
    (problem : Text → Problem) (want got : Counts)
    → compare_counts problem want got ≡ []
    → (name : Text) → get want name ≡ get got name
unfolding compare_counts
compare_counts-same problem want got clean name =
    let names = keys want ++ keys got in
    elim (Bool-cases (mem name names)) [
      | inl known ↦ same_count-eq _ _ (
          problems_of-same problem want got (sorted (λ n. n) (once names)) name clean
            (mem-sorted name (once names) ∙ mem-once name names ∙ known))
      | inr unknown ↦
          let (no_want, no_got) =
            neither (mem name (keys want)) (mem name (keys got))
              (sym (mem-append name (keys want) (keys got)) ∙ unknown) in
          get-absent want name no_want ∙ sym (get-absent got name no_got)
    ]
  where
    neither : (a b : Bool) → (if a then true else b) ≡ false → (a ≡ false) × (b ≡ false)
    neither true b e = cc
    neither false b e = (refl, e)

append-nils : {A : Type 0} (a b : List A) → a ++ b ≡ [] → (a ≡ []) × (b ≡ [])
append-nils [] b e = (refl, e)
append-nils (x ∷ a) b e = cc

compare_counts-none :
    (problem : Text → Problem) (want got : Counts)
    → ((name : Text) → get want name ≡ get got name)
    → compare_counts problem want got ≡ []
unfolding compare_counts
compare_counts-none problem want got same =
    problems_of-none problem want got (sorted (λ n. n) (once (keys want ++ keys got))) same

-- A walk's end has no mismatch with a checkpoint just where every source, one that stands on a single
-- side included, has the same number of documents and the same epoch on both, and the checkpoint has
-- the number of windows of the walk.
pub compare_position-agree :
    (position : Position) (json : GlobalStreamJson)
    → (compare_position position json ≡ []) ↔ (
        ((name : Text)
          → get json.consumed_documents_per_source name
            ≡ get position.consumed_documents_per_source name)
        × ((name : Text) → get json.epoch_per_source name ≡ get position.epoch_per_source name)
        × (json.windows_emitted ≡ some position.windows_emitted))
unfolding compare_position
compare_position-agree position json = (
  λ clean.
      let (documents, rest) = append-nils _ _ clean in
      let (epochs, windows) = append-nils _ _ rest in
      (
        compare_counts-same documents_differ json.consumed_documents_per_source
            position.consumed_documents_per_source documents,
        compare_counts-same epochs_differ json.epoch_per_source position.epoch_per_source epochs,
        elim (if-cases (same_count json.windows_emitted (some position.windows_emitted)) windows) [
          | inl (same, _) ↦ same_count-eq _ _ same
          | inr (_, found) ↦ cc
        ],
      ),
  λ agree.
      rw
        (
          compare_counts-none documents_differ json.consumed_documents_per_source
              position.consumed_documents_per_source agree.0,
          compare_counts-none epochs_differ json.epoch_per_source position.epoch_per_source agree.1,
          agree.2,
          same_count_refl (some position.windows_emitted),
        )
        refl,
)
