-- ===== src/Reduce/Bucket.antt =====
-- `DeterministicReplicateAllReduce` of src/pretrain/parallel/deterministic_reduce.py: the buffers of the
-- modules, reduced one by one or joined into one. A buffer is the list of its elements; the timing is
-- left out.
use open_transformers.Prelude.{
  ℕ, ◌+◌, ◌<◌, ◌≡◌, refl, sym, ap, ap₂, subst, ◌∙◌, fun_ext, List, [], ◌∷◌, ◌++◌, append-nil, All,
  map, take, drop, length, length-take, Result, ok, raise, index_error, ◌>>=◌, arith,
}
use open_transformers.Prelude.Slices.{
  drop-drop, drop-append_length, take-append_length, take_of_length-le,
}
use open_transformers.Dataset.Offsets.{joined_all}
use open_transformers.Reduce.AllReduce.{all_reduce_avg}
use open_transformers.Reduce.PerTensor.{add_vectors}
use open_transformers.Reduce.Scatter.{take-add_vectors, drop-add_vectors, take-map, drop-map}
use open_transformers.Reduce.Images.{all_reduce_avg-map}

module _ {ℓ} {S : Type ℓ} (add : S → S → S) (scale : ℕ → S → S) where
  -- The butterfly on whole buffers.
  abbrev pub all_reduce : ℕ → (ℕ → List S) → ℕ → Result (List S)
  all_reduce ws flat r = all_reduce_avg (add_vectors add) (λ n x. map (scale n) x) ws flat r

  -- `torch.cat(flats)`, or the only one.
  abbrev pub staging : List (List S) → Result (List S)
  staging [] = raise index_error
  staging (buf ∷ bufs) = ok (joined_all (buf ∷ bufs))

  -- `reduced[off : off + sz]` for each buffer.
  unfoldable pub scatter_back : List S → ℕ → List (List S) → List (List S)
  scatter_back reduced off [] = []
  scatter_back reduced off (buf ∷ bufs) =
      take (length buf) (drop off reduced) ∷ scatter_back reduced (off + length buf) bufs

  -- On rank `r`, where rank `i` has the buffers `bufs i`: what its buffers hold behind the call.
  unfoldable pub reduce_buffers : ℕ → (ℕ → List (List S)) → ℕ → Result (List (List S))
  reduce_buffers ws bufs r = do
    own ← staging (bufs r)
    reduced ← all_reduce ws (λ i. joined_all (bufs i)) r
    ok (scatter_back reduced 0 (bufs r))

  -- The immediate path: each module's buffer by itself. A module is its buffer on each rank.
  unfoldable pub reduce_each : ℕ → List (ℕ → List S) → ℕ → Result (List (List S))
  reduce_each ws [] r = ok []
  reduce_each ws (module_buf ∷ modules) r = do
    out ← reduce_buffers ws (λ i. module_buf i ∷ []) r
    rest ← reduce_each ws modules r
    ok (out ++ rest)

  module _ (comm : (x y : S) → add x y ≡ add y x) where
    add_vectors_comm : (xs ys : List S) → add_vectors add xs ys ≡ add_vectors add ys xs
    unfolding add_vectors
    add_vectors_comm [] [] = refl
    add_vectors_comm [] (y ∷ ys) = refl
    add_vectors_comm (x ∷ xs) [] = refl
    add_vectors_comm (x ∷ xs) (y ∷ ys) = ap₂ (◌∷◌) (comm x y) (add_vectors_comm xs ys)

    abbrev cut : ℕ → ℕ → List S → List S
    cut off size xs = take size (drop off xs)

    -- The reduction of slices is the slice of the reduction.
    all_reduce-cut :
        (ws off size : ℕ) (flat : ℕ → List S) (r : ℕ)
        → r < ws
        → (total : List S) × (all_reduce ws flat r ≡ ok total)
          × (all_reduce ws (λ i. cut off size (flat i)) r ≡ ok (cut off size total))
    all_reduce-cut ws off size flat r lt =
        all_reduce_avg-map (add_vectors add) (add_vectors add) (cut off size)
          (λ x y.
            ap (take size) (drop-add_vectors add scale off x y)
            ∙ take-add_vectors add scale size (drop off x) (drop off y))
          add_vectors_comm add_vectors_comm (λ n x. map (scale n) x) (λ n x. map (scale n) x)
          (λ n x.
            ap (take size) (drop-map add scale (scale n) off x)
            ∙ take-map add scale (scale n) size (drop off x))
          ws flat r lt

    cut-own :
        (off size : ℕ) (xs own rest : List S)
        → drop off xs ≡ own ++ rest
        → length own ≡ size
        → cut off size xs ≡ own ++ []
    cut-own off size xs own rest from fits =
        ap (take size) from
        ∙ subst (λ n. take n (own ++ rest) ≡ own) fits (take-append_length own rest)
        ∙ sym (append-nil own)

    drop-own :
        (off size : ℕ) (xs own rest : List S)
        → drop off xs ≡ own ++ rest
        → length own ≡ size
        → drop (off + size) xs ≡ rest
    drop-own off size xs own rest from fits =
        sym (drop-drop size off xs)
        ∙ ap (drop size) from
        ∙ subst (λ n. drop n (own ++ rest) ≡ rest) fits (drop-append_length own rest)

    take-cut : (off size : ℕ) (xs : List S) → take size (cut off size xs) ≡ cut off size xs
    take-cut off size xs =
        take_of_length-le size (cut off size xs) (omega (arith, length-take size (drop off xs)))

    abbrev buffers_of : List (ℕ → List S) → ℕ → List (List S)
    buffers_of modules i = map (λ (m : ℕ → List S). m i) modules

    ok-eq : (x y : List S) → ok x ≡ ok y → x ≡ y
    ok-eq x y e = cc

    reduce_each-scatter :
        (ws r off : ℕ) (modules : List (ℕ → List S)) (flat : ℕ → List S) (total : List S)
        → r < ws
        → All (λ (m : ℕ → List S). (i : ℕ) → length (m i) ≡ length (m r)) modules
        → ((i : ℕ) → drop off (flat i) ≡ joined_all (buffers_of modules i))
        → all_reduce ws flat r ≡ ok total
        → reduce_each ws modules r ≡ ok (scatter_back total off (buffers_of modules r))
    unfolding reduce_each scatter_back reduce_buffers
    reduce_each-scatter ws r off [] flat total lt sizes behind made = refl
    reduce_each-scatter ws r off (m ∷ modules) flat total lt sizes behind made =
        let size = length (m r) in
        let (found, reduced, sliced) = all_reduce-cut ws off size flat r lt in
        let same : found ≡ total = ok-eq found total (sym reduced ∙ made) in
        let own : (λ i. cut off size (flat i)) ≡ (λ i. m i ++ []) = fun_ext (λ i.
          cut-own off size (flat i) (m i) (joined_all (buffers_of modules i)) (behind i)
            (sizes.0 i)) in
        let alone : all_reduce ws (λ i. m i ++ []) r ≡ ok (cut off size total) =
          ap (λ (g : ℕ → List S). all_reduce ws g r) (sym own)
          ∙ sliced
          ∙ ap (λ (t : List S). ok (cut off size t)) same in
        let rest =
          reduce_each-scatter ws r (off + size) modules flat total lt sizes.1
            (λ i.
              drop-own off size (flat i) (m i) (joined_all (buffers_of modules i)) (behind i)
                (sizes.0 i))
            made in
        rw (alone, rest, take-cut off size total) refl

    -- With at least one module, and buffers of a module that have one size on all ranks, joining the
    -- modules' buffers and reducing once leaves in every rank's buffers what reducing each module by
    -- itself does, and neither fails; of the addition only that it is commutative is assumed.
    pub reduce_buffers-reduce_each :
        (ws r : ℕ) (first : ℕ → List S) (modules : List (ℕ → List S))
        → r < ws
        → All (λ (m : ℕ → List S). (i : ℕ) → length (m i) ≡ length (m r)) (first ∷ modules)
        → (outs : List (List S)) × (reduce_buffers ws (buffers_of (first ∷ modules)) r ≡ ok outs)
          × (reduce_each ws (first ∷ modules) r ≡ ok outs)
    unfolding reduce_buffers
    reduce_buffers-reduce_each ws r first modules lt sizes =
        let flat = λ (i : ℕ). joined_all (buffers_of (first ∷ modules) i) in
        let (total, made, sliced) = all_reduce-cut ws 0 0 flat r lt in
        (
          scatter_back total 0 (buffers_of (first ∷ modules) r),
          rw made refl,
          reduce_each-scatter ws r 0 (first ∷ modules) flat total lt sizes (λ i. refl) made,
        )
