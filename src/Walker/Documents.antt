-- ===== src/Walker/Documents.antt =====
-- An epoch's permutation in src/pretrain/data/mix_sampler.py has every document once, and a document's
-- number is resolved to its shard and its place there.
use open_transformers.Prelude.{
  ℕ, suc, ◌+◌, ◌-◌, ◌≡◌, refl, sym, ap, subst, ◌∙◌, ◌≤◌, ◌<◌, List, [], ◌∷◌, ◌++◌, All, map, true,
  false, length, length-append, ltb, ltb→lt, lt→ltb, le→ltb-false, ◌==◌, ==_iff, if◌then◌else◌,
  some, get_elem?, ok, dec_lt, Bool-cases, inl, inr, arith,
}
use open_transformers.Dataset.Offsets.{sums, total}
use open_transformers.Walker.Shuffle.{
  count, Shuffling, stable_name_hash, concat_shards, build_global_perm, resolve_doc,
}
use open_transformers.Walker.Numbering.{
  sums-split, sums-above, get_elem?-append, earlier, same_place, split_at, split_of, count-append,
  count-moved_below, count-moved,
}

get_elem?-middle : (a : List ℕ) (m : ℕ) (b : List ℕ) → get_elem? (a ++ m ∷ b) (length a) ≡ some m
get_elem?-middle [] m b = refl
get_elem?-middle (x ∷ a) m b = get_elem?-middle a m b

total-middle : (a : List ℕ) (m : ℕ) (b : List ℕ) → total a + m ≤ total (a ++ m ∷ b)
total-middle [] m b = omega arith
total-middle (x ∷ a) m b = omega (arith, total-middle a m b)

All-below : (k : ℕ) (xs : List ℕ) → ((v : ℕ) → 0 < count v xs → v < k) → All (λ x. x < k) xs
All-below k [] below = tt
All-below k (x ∷ xs) below =
    let self : (x == x) ≡ true = (==_iff x x).1 refl in
    (
      below x (rw self (omega arith)),
      All-below k xs (λ v some_of. below v (omega (arith, some_of))),
    )

module _ (shuffling : Shuffling) where
  -- Document `place` of a shard that has more, behind shards with documents `pre` and before shards with
  -- documents `post`, is resolved to that shard and that place.
  pub resolve_doc_lem :
      (pre : List ℕ) (n : ℕ) (post : List ℕ) (place : ℕ)
      → place < n
      → resolve_doc shuffling (pre ++ n ∷ post) (total pre + place) ≡ ok (length pre, place)
  unfolding resolve_doc
  resolve_doc_lem pre n post place inside =
      let (before, whole, size, low, found) = sums-split 0 pre n post in
      let zero_start : 0 + total pre ≡ total pre = omega arith in
      let sorted_at : shuffling.searchsorted (sums 0 (pre ++ n ∷ post)) (total pre + place)
          ≡ suc (length pre) =
        rw whole (
          shuffling.searchsorted-append (total pre + place) before (sums (0 + total pre + n) post)
            (weaken before low)
            (sums-above (0 + total pre + n) (total pre + place) post (omega (arith, inside)))
          ∙ size) in
      let offset : get_elem? (sums 0 (pre ++ n ∷ post)) (length pre) ≡ some (0 + total pre) =
        rw whole (get_elem?-append (length pre) before (sums (0 + total pre + n) post) found) in
      let shard : suc (length pre) - 1 ≡ length pre = omega arith in
      let rest : total pre + place - (0 + total pre) ≡ place = omega arith in
      rw (sorted_at, shard, offset, rest) refl
    where
      weaken : (xs : List ℕ) → All (λ x. x ≤ 0 + total pre) xs → All (λ x. x ≤ total pre + place) xs
      weaken [] low = tt
      weaken (x ∷ xs) low = (omega (arith, low.0), weaken xs low.1)

  abbrev moved : ℕ → List ℕ → ℕ → List ℕ
  moved offset key m = map (λ d. d + offset) (shuffling.permutation key m)

  -- The documents of one shard: none of another's.
  count-shard :
      (key : List ℕ) (a : List ℕ) (m : ℕ) (b pre : List ℕ) (n : ℕ) (post : List ℕ) (place : ℕ)
      → a ++ m ∷ b ≡ pre ++ n ∷ post
      → place < n
      → count (total pre + place) (moved (total a) key m)
        ≡ (if length pre == length a then 1 else 0)
  count-shard key a m b pre n post place same inside = elim (dec_lt (length a) (length pre)) [
    | yes before ↦
        let low = earlier a m b pre n post same before in
        let rest = total pre + place - total a in
        let number : total pre + place ≡ total a + rest = omega (arith, low) in
        let apart : (length pre == length a) ≡ false = ground arith in
        let none_there : ltb rest m ≡ false = le→ltb-false rest m (omega (arith, low)) in
        rw
          (
            number,
            apart,
            count-moved rest (total a) (shuffling.permutation key m),
            shuffling.count-permutation key m rest,
            none_there,
          )
          refl
    | no not_before ↦ elim (dec_lt (length pre) (length a)) [
      | yes behind ↦
          let high = earlier pre n post a m b (sym same) behind in
          let apart : (length pre == length a) ≡ false = ground arith in
          rw apart (
            count-moved_below (total pre + place) (total a) (shuffling.permutation key m)
              (omega (arith, high, inside)))
      | no not_behind ↦
          let size : length a ≡ length pre = omega (arith, not_before, not_behind) in
          let (totals, sizes) = same_place a m b pre n post same size in
          let here : (length pre == length a) ≡ true =
            (==_iff (length pre) (length a)).1 (sym size) in
          let there : ltb place m ≡ true = lt→ltb place m (omega (arith, sizes, inside)) in
          rw
            (
              here,
              ← totals,
              count-moved place (total a) (shuffling.permutation key m),
              shuffling.count-permutation key m place,
              there,
            )
            refl
    ]
  ]

  -- Numbers behind the last document are in no shard.
  count-outside :
      (key : List ℕ) (a : List ℕ) (m : ℕ) (b : List ℕ) (v : ℕ)
      → total (a ++ m ∷ b) ≤ v
      → count v (moved (total a) key m) ≡ 0
  count-outside key a m b v outside =
      let low = total-middle a m b in
      let rest = v - total a in
      let number : v ≡ total a + rest = omega (arith, low, outside) in
      let none_there : ltb rest m ≡ false = le→ltb-false rest m (omega (arith, low, outside)) in
      rw
        (
          number,
          count-moved rest (total a) (shuffling.permutation key m),
          shuffling.count-permutation key m rest,
          none_there,
        )
        refl

  offset_at :
      (a : List ℕ) (m : ℕ) (b : List ℕ)
      → get_elem? (sums 0 (a ++ m ∷ b)) (length a) ≡ some (total a)
  offset_at a m b =
      let (before, whole, size, low, found) = sums-split 0 a m b in
      let zero_start : 0 + total a ≡ total a = omega arith in
      rw whole
        (get_elem?-append (length a) before (sums (0 + total a + m) b) found ∙ ap some zero_start)

  concat_shards_lem :
      (seed hash epoch : ℕ) (counts order : List ℕ)
      → All (λ s. s < length counts) order
      → (perm : List ℕ) × (concat_shards shuffling seed hash epoch counts order ≡ ok perm)
        × ((pre : List ℕ) (n : ℕ) (post : List ℕ) (place : ℕ)
            → counts ≡ pre ++ n ∷ post
            → place < n
            → count (total pre + place) perm ≡ count (length pre) order)
        × ((v : ℕ) → total counts ≤ v → count v perm ≡ 0)
  unfolding concat_shards
  concat_shards_lem seed hash epoch counts [] inside =
      ([], refl, λ pre n post place whole fits. refl, λ v outside. refl)
  concat_shards_lem seed hash epoch counts (s ∷ order) inside =
      let (rest, made, counted, none_else) =
        concat_shards_lem seed hash epoch counts order inside.1 in
      let (a, m, b, split, size) = split_at s counts inside.0 in
      let key = seed ∷ hash ∷ epoch ∷ s ∷ [] in
      let n_at : get_elem? counts s ≡ some m = rw (split, ← size) (get_elem?-middle a m b) in
      let o_at : get_elem? (sums 0 counts) s ≡ some (total a) =
        rw (split, ← size) (offset_at a m b) in
      (
        moved (total a) key m ++ rest,
        rw (n_at, o_at, made) refl,
        λ pre n post place whole fits.
            count-append (total pre + place) (moved (total a) key m) rest
            ∙ rw
                (
                  count-shard key a m b pre n post place (sym split ∙ whole) fits,
                  counted pre n post place whole fits,
                  size,
                )
                refl,
        λ v outside.
            count-append v (moved (total a) key m) rest
            ∙ rw
                (
                  count-outside key a m b v (subst (λ cs. total cs ≤ v) split outside),
                  none_else v outside,
                )
                refl,
      )

  below_count : (key : List ℕ) (k v : ℕ) → 0 < count v (shuffling.permutation key k) → v < k
  below_count key k v some_of = elim (Bool-cases (ltb v k)) [
    | inl less ↦ ltb→lt v k less
    | inr not_less ↦
        let none_of = shuffling.count-permutation key k v in
        absurd (omega (arith, some_of, rw not_less at none_of))
  ]

  -- With at least one shard, an epoch's permutation is drawn without an exception, and has every number
  -- below the number of all the documents once, and no other number.
  pub count-build_global_perm :
      (seed : ℕ) (name counts : List ℕ) (epoch v : ℕ)
      → 0 < length counts
      → (perm : List ℕ) × (build_global_perm shuffling seed name counts epoch ≡ ok perm)
        × (count v perm ≡ (if ltb v (total counts) then 1 else 0))
  unfolding build_global_perm
  count-build_global_perm seed name counts epoch v some_shard =
      let hash = stable_name_hash shuffling name in
      let key = seed ∷ hash ∷ epoch ∷ [] in
      let k = length counts in
      let order = shuffling.permutation key k in
      let (perm, made, counted, none_else) =
        concat_shards_lem seed hash epoch counts order
          (All-below k order (λ s. below_count key k s)) in
      let nonzero : (length counts == 0) ≡ false = ground arith in
      (
        perm,
        rw (nonzero, made) refl,
        elim (dec_lt v (total counts)) [
          | yes inside ↦
              let (pre, n, post, place, whole, number, fits) = split_of v counts inside in
              let shard : length pre < k = shard_below pre n post counts whole in
              rw (lt→ltb v (total counts) inside) (
                ap (λ u. count u perm) number
                ∙ counted pre n post place whole fits
                ∙ rw (shuffling.count-permutation key k (length pre), lt→ltb (length pre) k shard)
                    refl)
          | no outside ↦
              rw (le→ltb-false v (total counts) (omega (arith, outside)))
                (none_else v (omega (arith, outside)))
        ],
      )
    where
      shard_below :
          (pre : List ℕ) (n : ℕ) (post counts : List ℕ)
          → counts ≡ pre ++ n ∷ post
          → length pre < length counts
      shard_below pre n post counts whole = rw whole (omega (arith, length-append pre (n ∷ post)))
