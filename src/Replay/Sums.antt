-- ===== src/Replay/Sums.antt =====
-- The sums and averages of gradients over the same names in the replay loop of
-- src/pretrain/cli/audit_replay.py, name by name.
use open_transformers.Prelude.{
  ℕ, ◌≡◌, refl, sym, ap, ap₂, ◌∙◌, Bool, true, false, List, [], ◌∷◌, map, ok, if◌then◌else◌,
  Bool-cases, inl, inr, All,
}
use open_transformers.StateHash.Tags.{Bytes}
use open_transformers.StateHash.Feed.{Tensor}
use open_transformers.Prelude.Disk.{text_eq, text_eq_refl, text_eq-eq}
use open_transformers.Replay.Ranks.{has_key, averages, add_under, add_at, accumulate}
use open_transformers.Replay.Files.{Values, dict, add_values, has, All-imp}

-- No name stands twice.
abbrev pub distinct : List Bytes → Bool
distinct [] = true
distinct (name ∷ names) = let rest = distinct names in if has names name then false else rest

pub averages-dict :
    (scale : ℕ → Tensor → Tensor) (n : ℕ) (names : List Bytes) (f : Values)
    → averages scale n (dict names f) ≡ dict names (λ name. scale n (f name))
unfolding averages
averages-dict scale n [] f = refl
averages-dict scale n (name ∷ names) f =
    ap (λ rest. (name, scale n (f name)) ∷ rest) (averages-dict scale n names f)

has_key-dict :
    (names : List Bytes) (f : Values) (name : Bytes) → has_key (dict names f) name ≡ has names name
has_key-dict [] f name = refl
has_key-dict (own ∷ names) f name = elim (Bool-cases (text_eq own name)) [
  | inl same ↦ rw same refl
  | inr apart ↦ rw apart (has_key-dict names f name)
]

distinct-parts :
    (name : Bytes) (names : List Bytes)
    → distinct (name ∷ names) ≡ true
    → (has names name ≡ false) × (distinct names ≡ true)
distinct-parts name names once = elim (Bool-cases (has names name)) [
  | inl twice ↦ let bad : false ≡ true = sym (rw twice refl) ∙ once in cc
  | inr new ↦ (new, sym (rw new refl) ∙ once)
]

text_eq-apart : (own name : Bytes) → text_eq own name ≡ false → text_eq name own ≡ false
text_eq-apart own name apart = elim (Bool-cases (text_eq name own)) [
  | inl same ↦
      let again = ap (text_eq own) (text_eq-eq name own same) ∙ text_eq_refl own in
      let bad : false ≡ true = sym apart ∙ again in cc
  | inr other ↦ other
]

has-own : (names : List Bytes) → All (λ name. has names name ≡ true) names
has-own [] = tt
has-own (own ∷ names) = (
  rw (text_eq_refl own) refl,
  All-imp
      (λ name known. elim (Bool-cases (text_eq own name)) [
        | inl same ↦ rw same refl
        | inr apart ↦ rw (apart, known) refl
      ])
      names (has-own names),
)

dict-ext :
    (names : List Bytes) (f h : Values)
    → All (λ name. f name ≡ h name) names
    → dict names f ≡ dict names h
dict-ext [] f h same = refl
dict-ext (name ∷ names) f h same =
    ap₂ (λ t rest. (name, t) ∷ rest) same.0 (dict-ext names f h same.1)

-- One name's sum.
abbrev added : (Tensor → Tensor → Tensor) → Bytes → Tensor → Values → Values
added add name t f other = if text_eq other name then add (f other) t else f other

module _ (add : Tensor → Tensor → Tensor) where
  add_under-dict :
      (names : List Bytes) (f : Values) (name : Bytes) (t : Tensor)
      → map (add_under add name t) (dict names f) ≡ dict names (added add name t f)
  add_under-dict [] f name t = refl
  add_under-dict (own ∷ names) f name t =
      ap₂ (λ x xs. x ∷ xs)
        (elim (Bool-cases (text_eq own name)) [
          | inl same ↦ rw same refl
          | inr apart ↦ rw apart refl
        ])
        (add_under-dict names f name t)

  add_at-dict :
      (names : List Bytes) (f : Values) (name : Bytes) (t : Tensor)
      → has names name ≡ true
      → add_at add (dict names f) name t ≡ ok (dict names (added add name t f))
  unfolding add_at
  add_at-dict names f name t known =
      rw (has_key-dict names f name, known, add_under-dict names f name t) refl

  -- The sums under the names of a list.
  sums_under : List Bytes → Values → Values → Values
  sums_under [] h f = f
  sums_under (name ∷ names) h f = sums_under names h (added add name (h name) f)

  accumulate-sub :
      (names sub : List Bytes) (f h : Values)
      → All (λ name. has names name ≡ true) sub
      → accumulate add (dict names f) (dict sub h) ≡ ok (dict names (sums_under sub h f))
  unfolding accumulate sums_under
  accumulate-sub names [] f h known = refl
  accumulate-sub names (name ∷ sub) f h known =
      rw (add_at-dict names f name (h name) known.0)
        (accumulate-sub names sub (added add name (h name) f) h known.1)

  sums_under-value :
      (sub : List Bytes) (h f : Values) (name : Bytes)
      → distinct sub ≡ true
      → sums_under sub h f name ≡ (if has sub name then add (f name) (h name) else f name)
  unfolding sums_under
  sums_under-value [] h f name once = refl
  sums_under-value (own ∷ sub) h f name once =
      let (new, rest) = distinct-parts own sub once in
      sums_under-value sub h (added add own (h own) f) name rest
      ∙ elim (Bool-cases (text_eq own name)) [
        | inl same ↦ let e = text_eq-eq own name same in rw (← e, new, text_eq_refl own) refl
        | inr apart ↦ rw (apart, text_eq-apart own name apart) refl
      ]

  -- Gradients over the same distinct names are added name by name.
  pub accumulate-dict :
      (names : List Bytes) (f h : Values)
      → distinct names ≡ true
      → accumulate add (dict names f) (dict names h) ≡ ok (dict names (add_values add f h))
  accumulate-dict names f h once =
      accumulate-sub names names f h (has-own names)
      ∙ ap ok (
          dict-ext names (sums_under names h f) (add_values add f h) (
            All-imp (λ name known. sums_under-value names h f name once ∙ rw known refl) names
              (has-own names)))
