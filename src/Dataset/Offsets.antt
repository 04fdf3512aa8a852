-- ===== src/Dataset/Offsets.antt =====
-- The offset tables of src/pretrain/data/indexed_dataset.py: running sums of the documents' sizes, and
-- the slice of the joined documents between two of them.
use open_transformers.Prelude.{
  ℕ, suc, ◌+◌, ◌-◌, ◌<◌, ◌≡◌, refl, sym, ap, List, [], ◌∷◌, ◌++◌, append_assoc, All, map, some,
  length, length-append, get_elem?, min, arith,
}
use open_transformers.Prelude.Int.{pos}
use open_transformers.Prelude.Slices.{take-append_length, drop-append_length}
use open_transformers.Dataset.Writer.{last}
use open_transformers.Dataset.Reader.{slice}

abbrev pub sums : ℕ → List ℕ → List ℕ
sums start [] = start ∷ []
sums start (n ∷ ns) = start ∷ sums (start + n) ns

abbrev pub total : List ℕ → ℕ
total [] = 0
total (n ∷ ns) = n + total ns

abbrev pub joined_all {ℓ} : {A : Type ℓ} → List (List A) → List A
joined_all [] = []
joined_all (xs ∷ more) = xs ++ joined_all more

pub length-sums : (start : ℕ) (ns : List ℕ) → length (sums start ns) ≡ suc (length ns)
length-sums start [] = refl
length-sums start (n ∷ ns) = ap suc (length-sums (start + n) ns)

pub last-sums : (start : ℕ) (ns : List ℕ) → last (sums start ns) ≡ start + total ns
last-sums start [] = omega arith
last-sums start (n ∷ []) = omega arith
last-sums start (n ∷ m ∷ ns) = omega (arith, last-sums (start + n) (m ∷ ns))

pub sums-append :
    (start : ℕ) (ns : List ℕ) (n : ℕ)
    → sums start (ns ++ n ∷ []) ≡ sums start ns ++ (start + total ns + n) ∷ []
sums-append start [] n = let e : start + 0 + n ≡ start + n = omega arith in rw e refl
sums-append start (m ∷ ns) n =
    let e : start + (m + total ns) + n ≡ start + m + total ns + n = omega arith in
    rw e (ap (◌∷◌ start) (sums-append (start + m) ns n))

pub sums-bounded :
    (start limit : ℕ) (ns : List ℕ)
    → start + total ns < limit
    → All (λ offset. offset < limit) (sums start ns)
sums-bounded start limit [] fits = (omega (arith, fits), tt)
sums-bounded start limit (n ∷ ns) fits =
    (omega (arith, fits), sums-bounded (start + n) limit ns (omega (arith, fits)))

pub get_elem?-map-sums :
    (start : ℕ) (ns ms : List ℕ)
    → get_elem? (map pos (sums start (ns ++ ms))) (length ns) ≡ some (pos (start + total ns))
get_elem?-map-sums start [] [] = let e : start + 0 ≡ start = omega arith in rw e refl
get_elem?-map-sums start [] (m ∷ ms) = let e : start + 0 ≡ start = omega arith in rw e refl
get_elem?-map-sums start (n ∷ ns) ms =
    let e : start + (n + total ns) ≡ start + n + total ns = omega arith in
    rw e (get_elem?-map-sums (start + n) ns ms)

pub get_elem?-map-sums_next :
    (start : ℕ) (ns : List ℕ) (m : ℕ) (ms : List ℕ)
    → get_elem? (map pos (sums start (ns ++ m ∷ ms))) (length ns + 1)
      ≡ some (pos (start + total ns + m))
get_elem?-map-sums_next start [] m ms =
    let e : start + 0 + m ≡ start + m + 0 = omega arith in
    rw e (get_elem?-map-sums (start + m) [] ms)
get_elem?-map-sums_next start (n ∷ ns) m ms =
    let e : start + (n + total ns) + m ≡ start + n + total ns + m = omega arith in
    let next : suc (length ns) + 1 ≡ suc (length ns + 1) = omega arith in
    rw (e, next) (get_elem?-map-sums_next (start + n) ns m ms)

module _ {ℓ} {A : Type ℓ} where
  pub length-joined_all : (xss : List (List A)) → length (joined_all xss) ≡ total (map length xss)
  length-joined_all [] = refl
  length-joined_all (xs ∷ xss) =
      omega (arith, length-append xs (joined_all xss), length-joined_all xss)

  pub joined_all-append :
      (xss yss : List (List A)) → joined_all (xss ++ yss) ≡ joined_all xss ++ joined_all yss
  joined_all-append [] yss = refl
  joined_all-append (xs ∷ xss) yss =
      rw (joined_all-append xss yss) (sym (append_assoc xs (joined_all xss) (joined_all yss)))

  pub slice-append :
      (xs ys zs : List A)
      → slice (xs ++ (ys ++ zs)) (pos (length xs)) (pos (length xs + length ys)) ≡ ys
  slice-append xs ys zs =
      let whole : length (xs ++ (ys ++ zs)) ≡ length xs + (length ys + length zs) =
        omega (arith, length-append xs (ys ++ zs), length-append ys zs) in
      let low : min (length xs) (length (xs ++ (ys ++ zs))) ≡ length xs = omega (arith, whole) in
      let size : min (length xs + length ys) (length (xs ++ (ys ++ zs))) - length xs ≡ length ys =
        omega (arith, whole) in
      rw (low, size, drop-append_length xs (ys ++ zs)) (take-append_length ys zs)
