-- ===== src/Reduce/Shards.antt =====
-- The `Shard(0)` shards of src/pretrain/parallel/deterministic_reduce.py cut a tensor up.
use native.Mathlib.Nat.{div-add-mod', mod-lt, zero-add, zero-mul, suc-add, suc-mul}
use open_transformers.Prelude.{
  ℕ, zero, suc, ◌+◌, ◌-◌, ◌*◌, ◌/◌, ◌≤◌, ◌<◌, max, min, ◌≡◌, refl, sym, ◌∙◌, List, [], ◌∷◌, ◌++◌,
  append-nil, replicate, length, length-drop, length-take, take, drop, ltb, if◌then◌else◌,
  Bool-cases, inl, inr, ltb-false, ltb→lt, arith,
}
use open_transformers.Prelude.Slices.{take-nil, take_of_length-le}
use open_transformers.Reduce.Norm.{shard0_full_chunk_size, shard0_chunk, shard0_logical_chunk}

-- The chunks are large enough together.
full_chunk_size-covers : (dim0 n : ℕ) → 0 < n → dim0 ≤ n * ((dim0 + n - 1) / n)
full_chunk_size-covers dim0 n pos =
    let whole = div-add-mod' (dim0 + n - 1) n in
    let small = mod-lt (dim0 + n - 1) pos in
    let swap : (dim0 + n - 1) / n * n ≡ n * ((dim0 + n - 1) / n) = grind arith in omega arith

module _ {ℓ} {A : Type ℓ} where
  take-add : (a b : ℕ) (t : List A) → take (a + b) t ≡ take a t ++ take b (drop a t)
  take-add zero b t = rw (zero-add b) refl
  take-add (suc a) b [] = take-nil (suc a + b) ∙ sym (take-nil b)
  take-add (suc a) b (x ∷ t) = rw (suc-add a b, take-add a b t) refl

  -- The end of the slice is no end to the rows.
  capped :
      (start size : ℕ) (t : List A)
      → take (min (start + size) (length t) - start) (drop start t) ≡ take size (drop start t)
  capped start size t = elim (Bool-cases (ltb (length t) (start + size))) [
    | inr fits ↦
        let h = ltb-false (length t) (start + size) fits in
        let e : min (start + size) (length t) - start ≡ size = omega arith in rw e refl
    | inl over ↦
        let h = ltb→lt (length t) (start + size) over in
        take_of_length-le (min (start + size) (length t) - start) (drop start t)
          (omega (arith, length-drop start t))
        ∙ sym (take_of_length-le size (drop start t) (omega (arith, length-drop start t)))
  ]

  pub length-shard0_logical_chunk :
      (t : List A) (r ws : ℕ)
      → length (shard0_logical_chunk t r ws)
        ≡ min
            (shard0_full_chunk_size (length t) ws)
            (length t - r * shard0_full_chunk_size (length t) ws)
  unfolding shard0_logical_chunk
  length-shard0_logical_chunk t r ws =
      let fcs = shard0_full_chunk_size (length t) ws in
      rw (capped (r * fcs) fcs t, length-take, length-drop) refl

  -- The logical shards of the first `k` ranks, joined in the order of the ranks.
  abbrev pub joined : ℕ → List A → ℕ → List A
  joined zero t ws = []
  joined (suc k) t ws = joined k t ws ++ shard0_logical_chunk t k ws

  joined-take :
      (k : ℕ) (t : List A) (ws : ℕ)
      → joined k t ws ≡ take (k * shard0_full_chunk_size (length t) ws) t
  unfolding shard0_logical_chunk
  joined-take zero t ws =
      let none_yet : 0 * shard0_full_chunk_size (length t) ws ≡ 0 = zero-mul _ in rw none_yet refl
  joined-take (suc k) t ws =
      let fcs = shard0_full_chunk_size (length t) ws in
      rw (joined-take k t ws, capped (k * fcs) fcs t, suc-mul k fcs)
        (sym (take-add (k * fcs) fcs t))

  -- A chunk is filled up only if it is short, and no chunk is longer than a full one.
  padded :
      (zero_row : A) (size : ℕ) (chunk : List A)
      → length chunk ≤ size
      → (if ltb (length chunk) size
          then chunk ++ replicate (size - length chunk) zero_row
          else chunk)
        ≡ chunk ++ replicate (size - length chunk) zero_row
  padded zero_row size chunk h = elim (Bool-cases (ltb (length chunk) size)) [
    | inl short ↦ rw short refl
    | inr full ↦
        let least = ltb-false (length chunk) size full in
        let none_missing : size - length chunk ≡ 0 = omega arith in
        rw (full, none_missing) (sym (append-nil chunk))
  ]

  shard0_chunk-padded :
      (zero_row : A) (t : List A) (r ws : ℕ)
      → shard0_chunk zero_row t r ws
        ≡ shard0_logical_chunk t r ws
          ++ replicate
              (shard0_full_chunk_size (length t) ws - length (shard0_logical_chunk t r ws))
              zero_row
  unfolding shard0_chunk shard0_logical_chunk
  shard0_chunk-padded zero_row t r ws =
      let fcs = shard0_full_chunk_size (length t) ws in
      rw (capped (r * fcs) fcs t) (
        padded zero_row fcs (take fcs (drop (r * fcs) t))
          (omega (arith, length-take fcs (drop (r * fcs) t))))

  -- The logical shards of all ranks join to the tensor, and the padded shard of each rank is its
  -- logical shard and zero rows up to the full chunk size.
  pub shard0_chunk-joined :
      (zero_row : A) (t : List A) (ws : ℕ)
      → (joined (max ws 1) t ws ≡ t)
        × ((r : ℕ)
            → shard0_chunk zero_row t r ws
              ≡ shard0_logical_chunk t r ws
                ++ replicate
                    (shard0_full_chunk_size (length t) ws - length (shard0_logical_chunk t r ws))
                    zero_row)
  unfolding shard0_full_chunk_size
  shard0_chunk-joined zero_row t ws = (
    joined-take (max ws 1) t ws
        ∙ take_of_length-le (max ws 1 * shard0_full_chunk_size (length t) ws) t
            (full_chunk_size-covers (length t) (max ws 1) (omega arith)),
    λ r. shard0_chunk-padded zero_row t r ws,
  )
