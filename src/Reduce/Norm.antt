-- ===== src/Reduce/Norm.antt =====
-- The gradient norm of src/pretrain/parallel/deterministic_reduce.py: the shards that a tensor is cut
-- into, the fold on the cluster and the fold that the single-device audit makes of the whole
-- gradients. A tensor is the list of its rows.
use open_transformers.Prelude.{
  ℕ, zero, suc, ◌+◌, ◌-◌, ◌*◌, ◌/◌, ◌<◌, max, min, ◌≡◌, refl, ap, Bool, true, false, ◌||◌, List, [],
  ◌∷◌, ◌++◌, map, range, replicate, Option, none, some, length, take, drop, ltb, if◌then◌else◌,
  lt→ltb, Result, ok, raise, index_error, ◌>>=◌, arith,
}

unfoldable pub shard0_full_chunk_size : ℕ → ℕ → ℕ
shard0_full_chunk_size dim0 world_size = let n = max world_size 1 in (dim0 + n - 1) / n

module _ {ℓ} {A : Type ℓ} (zero_row : A) where
  unfoldable pub shard0_chunk : List A → ℕ → ℕ → List A
  shard0_chunk t rank world_size =
      let fcs = shard0_full_chunk_size (length t) world_size in
      let chunk = take fcs (drop (rank * fcs) t) in
      if ltb (length chunk) fcs then chunk ++ replicate (fcs - length chunk) zero_row else chunk

unfoldable pub shard0_logical_chunk {ℓ} : {A : Type ℓ} → List A → ℕ → ℕ → List A
shard0_logical_chunk t rank world_size =
    let fcs = shard0_full_chunk_size (length t) world_size in
    let start = rank * fcs in take (min (start + fcs) (length t) - start) (drop start t)

-- `for p in parts: acc = acc + p`.
unfoldable pub add_up {ℓ} : {S : Type ℓ} → (S → S → S) → S → List S → S
add_up add acc [] = acc
add_up add acc (p ∷ parts) = add_up add (add acc p) parts

unfoldable pub ascending_sum {ℓ} : {S : Type ℓ} → (S → S → S) → List S → Result S
ascending_sum add [] = raise index_error
ascending_sum add (first ∷ parts) = ok (add_up add first parts)

-- A parameter's gradient on a rank: a `DTensor`, of which the rank holds a local shard, or a plain
-- tensor.
pub data Grad {ℓ} (A : Type ℓ) : Type ℓ where
  dtensor plain : List A → Grad A

module _ {ℓ κ} {A : Type ℓ} {S : Type κ} (add : S → S → S) (zero_sq : S)
    (grad_sum_of_squares : List A → S) (sqrt : S → S) where
  abbrev pub local_tensor : Grad A → List A
  local_tensor (dtensor local) = local
  local_tensor (plain local) = local

  -- `local_sq` behind the loop over the parameters; one without a gradient is left out.
  unfoldable pub sum_local : S → List (Option (Grad A)) → S
  sum_local local_sq [] = local_sq
  sum_local local_sq (none ∷ grads) = sum_local local_sq grads
  sum_local local_sq (some g ∷ grads) =
      sum_local (add local_sq (grad_sum_of_squares (local_tensor g))) grads

  -- Whether `shard_group` is set behind the loop, where the mesh has `world` ranks.
  unfoldable pub has_shard_group : ℕ → List (Option (Grad A)) → Bool
  has_shard_group world [] = false
  has_shard_group world (some (dtensor local) ∷ grads) = ltb 1 world || has_shard_group world grads
  has_shard_group world (some (plain local) ∷ grads) = has_shard_group world grads
  has_shard_group world (none ∷ grads) = has_shard_group world grads

  -- On rank `r`, whose parameters have the gradients `grads r`.
  unfoldable pub deterministic_total_norm : ℕ → (ℕ → List (Option (Grad A))) → ℕ → Result S
  deterministic_total_norm world grads r =
      if has_shard_group world (grads r)
      then (do
        total ← ascending_sum add (map (λ i. sum_local zero_sq (grads i)) (range 0 world))
        ok (sqrt total))
      else ok (sqrt (sum_local zero_sq (grads r)))

  module _ (zero_row : A) where
    -- `for r in range(world): s[r] = s[r] + grad_sum_of_squares(shard0_chunk(g, r, world))`.
    unfoldable pub add_shards : ℕ → List A → ℕ → List S → List S
    add_shards world g r [] = []
    add_shards world g r (x ∷ s) =
        add x (grad_sum_of_squares (shard0_chunk zero_row g r world)) ∷ add_shards world g (suc r) s

    unfoldable pub sum_shards : ℕ → List (Option (List A)) → List S → List S
    sum_shards world [] s = s
    sum_shards world (none ∷ grads) s = sum_shards world grads s
    sum_shards world (some g ∷ grads) s = sum_shards world grads (add_shards world g 0 s)

    unfoldable pub audit_total_norm : List (Option (List A)) → ℕ → Result S
    audit_total_norm grads shard_world_size = do
      let world = max shard_world_size 1
      total ← ascending_sum add (sum_shards world grads (replicate world zero_sq))
      ok (sqrt total)

    -- What rank `r` holds of the whole gradients: the local shards of `Shard(0)`.
    abbrev pub shards : ℕ → List (Option (List A)) → ℕ → List (Option (Grad A))
    shards world [] r = []
    shards world (none ∷ grads) r = none ∷ shards world grads r
    shards world (some g ∷ grads) r =
        some (dtensor (shard0_chunk zero_row g r world)) ∷ shards world grads r

    replicate-map : (start n : ℕ) (x : S) → replicate n x ≡ map (λ r. x) (range start n)
    replicate-map start zero x = refl
    replicate-map start (suc n) x = ap (◌∷◌ x) (replicate-map (suc start) n x)

    add_shards-map :
        (world : ℕ) (g : List A) (start n : ℕ) (f : ℕ → S)
        → add_shards world g start (map f (range start n))
          ≡ map
              (λ r. add (f r) (grad_sum_of_squares (shard0_chunk zero_row g r world)))
              (range start n)
    unfolding add_shards
    add_shards-map world g start zero f = refl
    add_shards-map world g start (suc n) f = rw (add_shards-map world g (suc start) n f) refl

    sum_shards-map :
        (world : ℕ) (grads : List (Option (List A))) (n : ℕ) (f : ℕ → S)
        → sum_shards world grads (map f (range 0 n))
          ≡ map (λ r. sum_local (f r) (shards world grads r)) (range 0 n)
    unfolding sum_shards sum_local
    sum_shards-map world [] n f = refl
    sum_shards-map world (none ∷ grads) n f = sum_shards-map world grads n f
    sum_shards-map world (some g ∷ grads) n f =
        rw (add_shards-map world g 0 n f) (sum_shards-map world grads n _)

    -- Some parameter has a gradient.
    abbrev pub HasGrad : List (Option (List A)) → Type 0
    HasGrad [] = ⊥
    HasGrad (none ∷ grads) = HasGrad grads
    HasGrad (some g ∷ grads) = Unit

    no_group :
        (world r : ℕ) (grads : List (Option (List A)))
        → ltb 1 world ≡ false
        → has_shard_group world (shards world grads r) ≡ false
    unfolding has_shard_group
    no_group world r [] single = refl
    no_group world r (none ∷ grads) single = no_group world r grads single
    no_group world r (some g ∷ grads) single = rw (single, no_group world r grads single) refl

    shards-group :
        (world r : ℕ) (grads : List (Option (List A)))
        → HasGrad grads
        → ltb 1 world ≡ true
        → has_shard_group world (shards world grads r) ≡ true
    unfolding has_shard_group
    shards-group world r [] h more = elim h [ ]
    shards-group world r (none ∷ grads) h more = shards-group world r grads h more
    shards-group world r (some g ∷ grads) h more = rw more refl

    folded :
        (world : ℕ) (grads : List (Option (List A)))
        → sum_shards world grads (replicate world zero_sq)
          ≡ map (λ r. sum_local zero_sq (shards world grads r)) (range 0 world)
    folded world grads =
        rw (replicate-map 0 world zero_sq) (sum_shards-map world grads world (λ r. zero_sq))

    -- Where some parameter has a gradient and every rank holds its `Shard(0)` shards, the norm that
    -- each rank of the cluster computes is the one that the audit computes from the whole gradients,
    -- and neither fails.
    pub deterministic_total_norm-audit_total_norm :
        (world : ℕ) (grads : List (Option (List A)))
        → 0 < world
        → HasGrad grads
        → (norm : S) × (audit_total_norm grads world ≡ ok norm)
          × ((r : ℕ) → r < world → deterministic_total_norm world (shards world grads) r ≡ ok norm)
    unfolding audit_total_norm deterministic_total_norm ascending_sum add_up
    deterministic_total_norm-audit_total_norm zero grads pos h = absurd (omega arith)
    deterministic_total_norm-audit_total_norm (suc zero) grads pos h =
        let cut = folded 1 grads in
        (
          sqrt (sum_local zero_sq (shards 1 grads 0)),
          rw cut refl,
          λ r lt. let only : r ≡ 0 = omega arith in rw (only, no_group 1 0 grads refl) refl,
        )
    deterministic_total_norm-audit_total_norm (suc (suc n)) grads pos h =
        let world : ℕ = suc (suc n) in
        let all : max world 1 ≡ world = omega arith in
        (
          sqrt (
              add_up add (sum_local zero_sq (shards world grads 0))
                (map (λ r. sum_local zero_sq (shards world grads r)) (range 1 (suc n)))),
          rw (all, folded world grads) refl,
          λ r lt. rw (shards-group world r grads h (lt→ltb 1 world (omega arith))) refl,
        )
