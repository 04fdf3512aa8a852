-- ===== src/Reduce/PerTensor.antt =====
-- The norms per tensor and the global norm made of them in
-- src/pretrain/parallel/deterministic_reduce.py, on the cluster and in the audit.
use open_transformers.Prelude.{
  ℕ, zero, suc, ◌<◌, max, ◌≡◌, refl, ap, ap₂, ◌∙◌, fun_ext, Bool, true, false, ◌||◌, List, [], ◌∷◌,
  map, range, Option, none, some, ltb, lt→ltb, Result, ok, ◌>>=◌, Bool-cases, inl, inr, arith,
}
use open_transformers.Reduce.Norm.{shard0_chunk, add_up, ascending_sum, Grad, dtensor, plain}

-- Two vectors of one length, added element by element.
unfoldable pub add_vectors {ℓ} : {S : Type ℓ} → (S → S → S) → List S → List S → List S
add_vectors add [] ys = []
add_vectors add (x ∷ xs) [] = []
add_vectors add (x ∷ xs) (y ∷ ys) = add x y ∷ add_vectors add xs ys

module _ {ℓ κ} {A : Type ℓ} {S : Type κ} (Name : Type 0) (add : S → S → S) (zero_norm : S)
    (grad_sum_of_squares : List A → S) (sqrt : S → S) where
  -- `names` and `local_parts` behind the loop over the named parameters.
  unfoldable pub collect : List (Name × Option (Grad A)) → List (Name × S)
  collect [] = []
  collect ((name, none) ∷ params) = collect params
  collect ((name, some (dtensor local)) ∷ params) =
      (name, grad_sum_of_squares local) ∷ collect params
  collect ((name, some (plain local)) ∷ params) = (name, grad_sum_of_squares local) ∷ collect params

  -- Whether a gradient lies on a mesh of more than one of `world` ranks.
  unfoldable pub on_mesh : ℕ → List (Name × Option (Grad A)) → Bool
  on_mesh world [] = false
  on_mesh world ((name, none) ∷ params) = on_mesh world params
  on_mesh world ((name, some (dtensor local)) ∷ params) = ltb 1 world || on_mesh world params
  on_mesh world ((name, some (plain local)) ∷ params) = on_mesh world params

  abbrev pub names_of : List (Name × S) → List Name
  names_of = map (λ (entry : Name × S). entry.0)

  abbrev pub parts_of : List (Name × S) → List S
  parts_of = map (λ (entry : Name × S). entry.1)

  abbrev pub named_norms : List Name → List S → List (Name × S)
  named_norms [] norms = []
  named_norms (name ∷ names) [] = []
  named_norms (name ∷ names) (norm ∷ norms) = (name, sqrt norm) ∷ named_norms names norms

  unfoldable pub finish_per_tensor : List Name → List S → Result (List (Name × S) × S)
  finish_per_tensor names global_sq = do
    total ← ascending_sum add global_sq
    ok (named_norms names global_sq, sqrt total)

  -- What a rank with the parts `own` of a group of the parts `gathered` makes of them.
  abbrev pub reduced : Bool → List (List S) → List S → Result (List S)
  reduced true gathered own = ascending_sum (add_vectors add) gathered
  reduced false gathered own = ok own

  -- Where no parameter has a gradient, the norms are none and the global norm is 0.
  abbrev pub finish_or_zero : List Name → Result (List S) → Result (List (Name × S) × S)
  finish_or_zero [] global_sq = ok ([], zero_norm)
  finish_or_zero (name ∷ names) global_sq = do
    sums ← global_sq
    finish_per_tensor (name ∷ names) sums

  -- On rank `r`, whose parameters have the gradients `params r`.
  unfoldable pub deterministic_per_tensor_and_global_norm :
      ℕ → (ℕ → List (Name × Option (Grad A))) → ℕ → Result (List (Name × S) × S)
  deterministic_per_tensor_and_global_norm world params r =
      let own = collect (params r) in
      finish_or_zero (names_of own) (
        reduced (on_mesh world (params r))
          (map (λ i. parts_of (collect (params i))) (range 0 world)) (parts_of own))

  module _ (zero_row : A) where
    -- `names` and `global_sq_parts` behind the audit's loop.
    unfoldable pub audit_parts : ℕ → List (Name × Option (List A)) → Result (List (Name × S))
    audit_parts world [] = ok []
    audit_parts world ((name, none) ∷ params) = audit_parts world params
    audit_parts world ((name, some g) ∷ params) = do
      sum ←
          ascending_sum add
            (map (λ r. grad_sum_of_squares (shard0_chunk zero_row g r world)) (range 0 world))
      rest ← audit_parts world params
      ok ((name, sum) ∷ rest)

    unfoldable pub audit_per_tensor_and_global_norm :
        List (Name × Option (List A)) → ℕ → Result (List (Name × S) × S)
    audit_per_tensor_and_global_norm params shard_world_size = do
      collected ← audit_parts (max shard_world_size 1) params
      finish_or_zero (names_of collected) (ok (parts_of collected))

    -- The parameters that have a gradient.
    abbrev with_grad : List (Name × Option (List A)) → List (Name × List A)
    with_grad [] = []
    with_grad ((name, none) ∷ params) = with_grad params
    with_grad ((name, some g) ∷ params) = (name, g) ∷ with_grad params

    -- What rank `r` holds of the whole gradients: the local shards of `Shard(0)`.
    abbrev pub sharded : ℕ → List (Name × Option (List A)) → ℕ → List (Name × Option (Grad A))
    sharded world [] r = []
    sharded world ((name, none) ∷ params) r = (name, none) ∷ sharded world params r
    sharded world ((name, some g) ∷ params) r =
        (name, some (dtensor (shard0_chunk zero_row g r world))) ∷ sharded world params r

    abbrev square_of : ℕ → List A → ℕ → S
    square_of world g r = grad_sum_of_squares (shard0_chunk zero_row g r world)

    collect-sharded :
        (world r : ℕ) (params : List (Name × Option (List A)))
        → collect (sharded world params r)
          ≡ map (λ (entry : Name × List A). (entry.0, square_of world entry.1 r)) (with_grad params)
    unfolding collect
    collect-sharded world r [] = refl
    collect-sharded world r ((name, none) ∷ params) = collect-sharded world r params
    collect-sharded world r ((name, some g) ∷ params) = rw (collect-sharded world r params) refl

    add_vectors-map :
        {T : Type ℓ} (f g : T → S) (ts : List T)
        → add_vectors add (map f ts) (map g ts) ≡ map (λ t. add (f t) (g t)) ts
    unfolding add_vectors
    add_vectors-map f g [] = refl
    add_vectors-map f g (t ∷ ts) = ap (◌∷◌ (add (f t) (g t))) (add_vectors-map f g ts)

    -- The fold of vectors is the vector of folds.
    add_up-vectors :
        {T : Type ℓ} (f : T → ℕ → S) (acc : T → S) (ranks : List ℕ) (ts : List T)
        → add_up (add_vectors add) (map acc ts) (map (λ i. map (λ t. f t i) ts) ranks)
          ≡ map (λ t. add_up add (acc t) (map (f t) ranks)) ts
    unfolding add_up
    add_up-vectors f acc [] ts = refl
    add_up-vectors f acc (i ∷ ranks) ts =
        ap (λ (sums : List S). add_up (add_vectors add) sums (map (λ j. map (λ t. f t j) ts) ranks))
          (add_vectors-map acc (λ t. f t i) ts)
        ∙ add_up-vectors f (λ t. add (acc t) (f t i)) ranks ts

    names_fst :
        (f : List A → S) (ts : List (Name × List A))
        → names_of (map (λ (t : Name × List A). (t.0, f t.1)) ts)
          ≡ map (λ (t : Name × List A). t.0) ts
    names_fst f [] = refl
    names_fst f (t ∷ ts) = ap (◌∷◌ t.0) (names_fst f ts)

    parts_snd :
        (f : List A → S) (ts : List (Name × List A))
        → parts_of (map (λ (t : Name × List A). (t.0, f t.1)) ts)
          ≡ map (λ (t : Name × List A). f t.1) ts
    parts_snd f [] = refl
    parts_snd f (t ∷ ts) = ap (◌∷◌ (f t.1)) (parts_snd f ts)

    -- The sum over `suc n` ranks.
    abbrev sum_of : ℕ → List A → S
    sum_of n g = add_up add (square_of (suc n) g 0) (map (square_of (suc n) g) (range 1 n))

    audit_parts_lem :
        (n : ℕ) (params : List (Name × Option (List A)))
        → audit_parts (suc n) params
          ≡ ok (map (λ (t : Name × List A). (t.0, sum_of n t.1)) (with_grad params))
    unfolding audit_parts ascending_sum
    audit_parts_lem n [] = refl
    audit_parts_lem n ((name, none) ∷ params) = audit_parts_lem n params
    audit_parts_lem n ((name, some g) ∷ params) = rw (audit_parts_lem n params) refl

    sharded-parts :
        (world : ℕ) (params : List (Name × Option (List A))) (i : ℕ)
        → parts_of (collect (sharded world params i))
          ≡ map (λ (t : Name × List A). square_of world t.1 i) (with_grad params)
    sharded-parts world params i =
        ap parts_of (collect-sharded world i params)
        ∙ parts_snd (λ g. square_of world g i) (with_grad params)

    sharded-names :
        (world : ℕ) (params : List (Name × Option (List A))) (i : ℕ)
        → names_of (collect (sharded world params i))
          ≡ map (λ (t : Name × List A). t.0) (with_grad params)
    sharded-names world params i =
        ap names_of (collect-sharded world i params)
        ∙ names_fst (λ g. square_of world g i) (with_grad params)

    -- What the ranks' vectors are reduced to.
    mesh_sums :
        (n r : ℕ) (ts : List (Name × List A))
        → r < suc n
        → reduced
            (ltb 1 (suc n))
            (map (λ i. map (λ (t : Name × List A). square_of (suc n) t.1 i) ts) (range 0 (suc n)))
            (map (λ (t : Name × List A). square_of (suc n) t.1 r) ts)
          ≡ ok (map (λ (t : Name × List A). sum_of n t.1) ts)
    unfolding ascending_sum add_up
    mesh_sums zero r ts lt = let only : r ≡ 0 = omega arith in rw only refl
    mesh_sums (suc n) r ts lt =
        let several : ltb 1 (suc (suc n)) ≡ true = lt→ltb 1 (suc (suc n)) (omega arith) in
        rw several (
          ap ok (
            add_up-vectors (λ (t : Name × List A) i. square_of (suc (suc n)) t.1 i)
              (λ (t : Name × List A). square_of (suc (suc n)) t.1 0) (range 1 (suc n)) ts))

    no_mesh :
        (world r : ℕ) (params : List (Name × Option (List A)))
        → ltb 1 world ≡ false
        → on_mesh world (sharded world params r) ≡ false
    unfolding on_mesh
    no_mesh world r [] single = refl
    no_mesh world r ((name, none) ∷ params) single = no_mesh world r params single
    no_mesh world r ((name, some g) ∷ params) single =
        rw (single, no_mesh world r params single) refl

    mesh_of :
        (world r : ℕ) (params : List (Name × Option (List A))) (t : Name × List A)
        (ts : List (Name × List A))
        → with_grad params ≡ t ∷ ts
        → on_mesh world (sharded world params r) ≡ ltb 1 world
    unfolding on_mesh
    mesh_of world r [] t ts e = cc
    mesh_of world r ((name, none) ∷ params) t ts e = mesh_of world r params t ts e
    mesh_of world r ((name, some g) ∷ params) t ts e = elim (Bool-cases (ltb 1 world)) [
      | inl several ↦ rw several refl
      | inr single ↦ rw (single, no_mesh world r params single) refl
    ]

    -- What both sides compute.
    abbrev finished : ℕ → List (Name × List A) → Result (List (Name × S) × S)
    finished n ts =
        finish_or_zero (map (λ (t : Name × List A). t.0) ts)
          (ok (map (λ (t : Name × List A). sum_of n t.1) ts))

    finished_ok :
        (n : ℕ) (ts : List (Name × List A))
        → (norms : List (Name × S) × S) × (finished n ts ≡ ok norms)
    unfolding finish_per_tensor ascending_sum
    finished_ok n [] = (([], zero_norm), refl)
    finished_ok n (t ∷ ts) = (_, refl)

    audit-finished :
        (n : ℕ) (params : List (Name × Option (List A)))
        → audit_per_tensor_and_global_norm params (suc n) ≡ finished n (with_grad params)
    unfolding audit_per_tensor_and_global_norm
    audit-finished n params =
        let all : max (suc n) 1 ≡ suc n = omega arith in
        let ts = with_grad params in
        rw (all, audit_parts_lem n params)
          (ap₂ (λ (names : List Name) (sums : List S). finish_or_zero names (ok sums))
            (names_fst (λ g. sum_of n g) ts) (parts_snd (λ g. sum_of n g) ts))

    cluster :
        (n r : ℕ) (ts : List (Name × List A)) (mesh : Bool)
        → r < suc n
        → ((t : Name × List A) (more : List (Name × List A)) → ts ≡ t ∷ more → mesh ≡ ltb 1 (suc n))
        → finish_or_zero (map (λ (t : Name × List A). t.0) ts) (
            reduced mesh
              (map (λ i. map (λ (t : Name × List A). square_of (suc n) t.1 i) ts) (range 0 (suc n)))
              (map (λ (t : Name × List A). square_of (suc n) t.1 r) ts))
          ≡ finished n ts
    cluster n r [] mesh lt meshed = refl
    cluster n r (t ∷ ts) mesh lt meshed =
        ap
          (λ (m : Bool). finish_or_zero (map (λ (u : Name × List A). u.0) (t ∷ ts)) (
            reduced m
              (map (λ i. map (λ (u : Name × List A). square_of (suc n) u.1 i) (t ∷ ts))
                (range 0 (suc n)))
              (map (λ (u : Name × List A). square_of (suc n) u.1 r) (t ∷ ts))))
          (meshed t ts refl)
        ∙ ap (finish_or_zero (map (λ (u : Name × List A). u.0) (t ∷ ts)))
            (mesh_sums n r (t ∷ ts) lt)

    cluster-finished :
        (n r : ℕ) (params : List (Name × Option (List A)))
        → r < suc n
        → deterministic_per_tensor_and_global_norm (suc n) (sharded (suc n) params) r
          ≡ finished n (with_grad params)
    unfolding deterministic_per_tensor_and_global_norm
    cluster-finished n r params lt =
        let mesh = on_mesh (suc n) (sharded (suc n) params r) in
        ap
          (λ (vector : ℕ → List S).
            finish_or_zero (names_of (collect (sharded (suc n) params r)))
              (reduced mesh (map vector (range 0 (suc n))) (vector r)))
          (fun_ext (sharded-parts (suc n) params))
        ∙ ap
            (λ (names : List Name). finish_or_zero names (
              reduced mesh
                (map (λ i. map (λ (t : Name × List A). square_of (suc n) t.1 i) (with_grad params))
                  (range 0 (suc n)))
                (map (λ (t : Name × List A). square_of (suc n) t.1 r) (with_grad params))))
            (sharded-names (suc n) params r)
        ∙ cluster n r (with_grad params) mesh lt (mesh_of (suc n) r params)

    -- Where every rank holds its `Shard(0)` shards of the whole gradients, the norms per parameter and
    -- the global norm that each rank `r` of the cluster computes are those that the audit computes from
    -- the whole gradients, and neither fails, whether a parameter has a gradient or not.
    pub deterministic_per_tensor-audit_per_tensor :
        (world r : ℕ) (params : List (Name × Option (List A)))
        → r < world
        → (norms : List (Name × S) × S) × (audit_per_tensor_and_global_norm params world ≡ ok norms)
          × (deterministic_per_tensor_and_global_norm world (sharded world params) r ≡ ok norms)
    deterministic_per_tensor-audit_per_tensor zero r params lt = absurd (omega arith)
    deterministic_per_tensor-audit_per_tensor (suc n) r params lt =
        let (norms, made) = finished_ok n (with_grad params) in
        (norms, audit-finished n params ∙ made, cluster-finished n r params lt ∙ made)
