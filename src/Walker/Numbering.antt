-- ===== src/Walker/Numbering.antt =====
-- The numbers of the documents of a source (src/pretrain/data/mix_sampler.py): shard by shard.
use open_transformers.Prelude.{
  ℕ, zero, suc, ◌+◌, ◌-◌, ◌≡◌, refl, sym, ap, subst, ◌≤◌, ◌<◌, List, [], ◌∷◌, ◌++◌, All, map, false,
  length, ◌==◌, some, get_elem?, dec_lt, arith,
}
use open_transformers.Dataset.Offsets.{sums, total}
use open_transformers.Walker.Shuffle.{count}

pub cons-eq : (x : ℕ) (xs : List ℕ) (y : ℕ) (ys : List ℕ) → x ∷ xs ≡ y ∷ ys → (x ≡ y) × (xs ≡ ys)
cons-eq x xs y ys e = (cc, cc)

-- The running sums up to a shard, and those behind it.
pub sums-split :
    (start : ℕ) (pre : List ℕ) (n : ℕ) (post : List ℕ)
    → (before : List ℕ) × (sums start (pre ++ n ∷ post)
        ≡ before ++ sums (start + total pre + n) post)
      × (length before ≡ suc (length pre))
      × All (λ x. x ≤ start + total pre) before
      × (get_elem? before (length pre) ≡ some (start + total pre))
sums-split start [] n post =
    let e : start + 0 ≡ start = omega arith in
    (start ∷ [], rw e refl, refl, (omega arith, tt), rw e refl)
sums-split start (m ∷ pre) n post =
    let (before, whole, size, low, found) = sums-split (start + m) pre n post in
    let e : start + (m + total pre) ≡ start + m + total pre = omega arith in
    (
      start ∷ before,
      rw (e, whole) refl,
      ap suc size,
      (omega arith, subst (λ limit. All (λ x. x ≤ limit) before) (sym e) low),
      rw e found,
    )

pub sums-above : (start v : ℕ) (ns : List ℕ) → v < start → All (λ y. v < y) (sums start ns)
sums-above start v [] above = (above, tt)
sums-above start v (n ∷ ns) above = (above, sums-above (start + n) v ns (omega (arith, above)))

pub get_elem?-append :
    (i : ℕ) (xs ys : List ℕ) {x : ℕ} → get_elem? xs i ≡ some x → get_elem? (xs ++ ys) i ≡ some x
get_elem?-append i [] ys e = cc
get_elem?-append zero (x ∷ xs) ys e = e
get_elem?-append (suc i) (x ∷ xs) ys e = get_elem?-append i xs ys e

-- The documents of a shard are numbered behind those of the shards before it.
pub earlier :
    (a : List ℕ) (m : ℕ) (b pre : List ℕ) (n : ℕ) (post : List ℕ)
    → a ++ m ∷ b ≡ pre ++ n ∷ post
    → length a < length pre
    → total a + m ≤ total pre
earlier a m b [] n post same less = absurd (omega (arith, less))
earlier [] m b (p ∷ pre) n post same less =
    let head = (cons-eq m b p (pre ++ n ∷ post) same).0 in omega (arith, head)
earlier (x ∷ a) m b (p ∷ pre) n post same less =
    let (head, rest) = cons-eq x (a ++ m ∷ b) p (pre ++ n ∷ post) same in
    omega (arith, head, earlier a m b pre n post rest (omega (arith, less)))

pub same_place :
    (a : List ℕ) (m : ℕ) (b pre : List ℕ) (n : ℕ) (post : List ℕ)
    → a ++ m ∷ b ≡ pre ++ n ∷ post
    → length a ≡ length pre
    → (total a ≡ total pre) × (m ≡ n)
same_place [] m b [] n post same size = (refl, (cons-eq m b n post same).0)
same_place [] m b (p ∷ pre) n post same size = absurd (omega (arith, size))
same_place (x ∷ a) m b [] n post same size = absurd (omega (arith, size))
same_place (x ∷ a) m b (p ∷ pre) n post same size =
    let (head, rest) = cons-eq x (a ++ m ∷ b) p (pre ++ n ∷ post) same in
    let (totals, sizes) = same_place a m b pre n post rest (omega (arith, size)) in
    (omega (arith, head, totals), sizes)

pub split_at :
    (i : ℕ) (counts : List ℕ)
    → i < length counts
    → (a : List ℕ) × (m : ℕ) × (b : List ℕ) × (counts ≡ a ++ m ∷ b) × (length a ≡ i)
split_at i [] inside = absurd (omega (arith, inside))
split_at zero (c ∷ counts) inside = ([], c, counts, refl, refl)
split_at (suc i) (c ∷ counts) inside =
    let (a, m, b, whole, size) = split_at i counts (omega (arith, inside)) in
    (c ∷ a, m, b, ap (◌∷◌ c) whole, ap suc size)

-- Every document stands in a shard.
pub split_of :
    (v : ℕ) (counts : List ℕ)
    → v < total counts
    → (pre : List ℕ) × (n : ℕ) × (post : List ℕ) × (place : ℕ) × (counts ≡ pre ++ n ∷ post)
      × (v ≡ total pre + place)
      × (place < n)
split_of v [] inside = absurd (omega (arith, inside))
split_of v (c ∷ counts) inside = elim (dec_lt v c) [
  | yes here ↦ ([], c, counts, v, refl, omega arith, here)
  | no behind ↦
      let (pre, n, post, place, whole, number, fits) =
        split_of (v - c) counts (omega (arith, inside)) in
      (c ∷ pre, n, post, place, ap (◌∷◌ c) whole, omega (arith, number), fits)
]

pub count-append : (v : ℕ) (xs ys : List ℕ) → count v (xs ++ ys) ≡ count v xs + count v ys
count-append v [] ys = omega arith
count-append v (x ∷ xs) ys = omega (arith, count-append v xs ys)

-- The documents of a shard, moved behind the earlier ones.
pub count-moved_below :
    (v offset : ℕ) (xs : List ℕ) → v < offset → count v (map (λ d. d + offset) xs) ≡ 0
count-moved_below v offset [] below = refl
count-moved_below v offset (x ∷ xs) below =
    let apart : (v == x + offset) ≡ false = ground arith in
    rw (apart, count-moved_below v offset xs below) refl

pub count-moved :
    (v offset : ℕ) (xs : List ℕ) → count (offset + v) (map (λ d. d + offset) xs) ≡ count v xs
count-moved v offset [] = refl
count-moved v offset (x ∷ xs) =
    let same : (offset + v == x + offset) ≡ (v == x) = ground arith in
    rw (same, count-moved v offset xs) refl
