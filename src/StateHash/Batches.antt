-- ===== src/StateHash/Batches.antt =====
-- `RunningBatchHasher` and `combine_batch_digests` of src/pretrain/train/state_hash.py: the chained
-- hash of the batches that a rank consumes, and the ranks' chains combined.
use open_transformers.Prelude.{
  ℕ, zero, suc, ◌+◌, ◌≤◌, ◌<◌, ◌≡◌, refl, sym, ap, Bool, true, false, not, ◌||◌, List, [], ◌∷◌,
  ◌++◌, map, range, replicate, Option, none, some, length, ◌==◌, ==_iff, if◌then◌else◌, Result, ok,
  raise, value_error, ◌>>=◌, Bool-cases, inl, inr, arith,
}
use open_transformers.StateHash.Tags.{Bytes}
use open_transformers.StateHash.Feed.{Hashing, Tensor, join_bytes, tensor_bytes}
use open_transformers.StateHash.Sorted.{sorted}

pub record RunningBatchHasher : Type 0 where
  pub chain : Bytes

unfoldable pub start_hasher : Option Bytes → Result RunningBatchHasher
start_hasher none = ok (record { chain = replicate 32 0 })
start_hasher (some prev_digest) =
    if length prev_digest == 32 then ok (record { chain = prev_digest }) else raise value_error

abbrev pub local_digest : RunningBatchHasher → Bytes
local_digest self = self.chain

-- `any(len(d) != _DIGEST_SIZE for d in digests)`.
abbrev pub any_misfit : List Bytes → Bool
any_misfit [] = false
any_misfit (d ∷ digests) = not (length d == 32) || any_misfit digests

-- `_all_gather_bytes`, where the ranks of a group of `ws` hold `digests`, or where there is no group:
-- what rank `r` gets.
unfoldable pub all_gather_bytes : Option ℕ → (ℕ → Bytes) → ℕ → List Bytes
all_gather_bytes none digests r = digests r ∷ []
all_gather_bytes (some ws) digests r = if ws == 1 then digests r ∷ [] else map digests (range 0 ws)

module _ (hashing : Hashing) where
  -- The items of a batch as they are fed.
  unfoldable pub feed_batch : Bytes → List (Bytes × Tensor) → Bytes
  feed_batch h [] = h
  feed_batch h ((k, t) ∷ items) =
      feed_batch
        (h
          ++ k
          ++ 0 ∷ []
          ++ t.dtype
          ++ 0 ∷ []
          ++ hashing.str_shape (length t.rows ∷ t.tail)
          ++ 0 ∷ []
          ++ tensor_bytes t)
        items

  -- A batch is the list of its items.
  unfoldable pub update : RunningBatchHasher → List (Bytes × Tensor) → RunningBatchHasher
  update self batch = record {
    chain = hashing.blake2b (feed_batch self.chain (sorted (λ item. item.0) batch));
  }

  unfoldable pub updates : RunningBatchHasher → List (List (Bytes × Tensor)) → RunningBatchHasher
  updates self [] = self
  updates self (batch ∷ batches) = updates (update self batch) batches

  unfoldable pub combine_batch_digests : List Bytes → Result Bytes
  combine_batch_digests [] = raise value_error
  combine_batch_digests (d ∷ digests) =
      if any_misfit (d ∷ digests) then raise value_error else ok (combined d digests)
    where
      combined : Bytes → List Bytes → Bytes
      combined d [] = d
      combined d (e ∷ digests) = hashing.blake2b (join_bytes (d ∷ e ∷ digests))

  unfoldable pub global_digest : Option ℕ → (ℕ → RunningBatchHasher) → ℕ → Result Bytes
  global_digest group hashers r =
      combine_batch_digests (all_gather_bytes group (λ i. local_digest (hashers i)) r)

  chain-eq : (g h : RunningBatchHasher) → ok g ≡ ok h → g ≡ h
  chain-eq g h e = cc

  -- The chain of a hasher has the size of a digest.
  start_hasher-size :
      (prev : Option Bytes) (h : RunningBatchHasher)
      → start_hasher prev ≡ ok h
      → length h.chain ≡ 32
  unfolding start_hasher
  start_hasher-size none h made = rw (← chain-eq _ h made) refl
  start_hasher-size (some prev) h made = elim (Bool-cases (length prev == 32)) [
    | inl fits ↦
        rw (← chain-eq (record { chain = prev }) h (rw fits at made))
          ((==_iff (length prev) 32).0 fits)
    | inr other ↦ let no = rw other at made in cc
  ]

  updates-size :
      (batches : List (List (Bytes × Tensor))) (h : RunningBatchHasher)
      → length h.chain ≡ 32
      → length (updates h batches).chain ≡ 32
  unfolding updates update
  updates-size [] h size = size
  updates-size (batch ∷ batches) h size =
      updates-size batches (update h batch) (hashing.length-blake2b _)

  updates-append :
      (xs ys : List (List (Bytes × Tensor))) (h : RunningBatchHasher)
      → updates h (xs ++ ys) ≡ updates (updates h xs) ys
  unfolding updates
  updates-append [] ys h = refl
  updates-append (x ∷ xs) ys h = updates-append xs ys (update h x)

  -- A hasher that was started, saved after the batches `xs` as its digest and started again from it,
  -- never fails to start, and has after the batches `ys` the chain of the hasher that never stopped.
  pub start_hasher-updates :
      (prev : Option Bytes) (h : RunningBatchHasher) (xs ys : List (List (Bytes × Tensor)))
      → start_hasher prev ≡ ok h
      → (do resumed ← start_hasher (some (local_digest (updates h xs))); ok (updates resumed ys))
        ≡ ok (updates h (xs ++ ys))
  unfolding start_hasher
  start_hasher-updates prev h xs ys made =
      let whole : (length (updates h xs).chain == 32) ≡ true =
        (==_iff _ 32).1 (updates-size xs h (start_hasher-size prev h made)) in
      rw whole (ap ok (sym (updates-append xs ys h)))

  no_misfit :
      (digests : ℕ → Bytes) (start count : ℕ)
      → ((i : ℕ) → start ≤ i → i < start + count → length (digests i) ≡ 32)
      → any_misfit (map digests (range start count)) ≡ false
  no_misfit digests start zero sizes = refl
  no_misfit digests start (suc count) sizes =
      let here : (length (digests start) == 32) ≡ true =
        (==_iff (length (digests start)) 32).1 (sizes start (omega arith) (omega arith)) in
      rw
        (here, no_misfit digests (suc start) count (λ i lo hi. sizes i (omega arith) (omega arith)))
        refl

  -- Every rank `r` of a group gets one digest, of 32 bytes, from hashers whose chains have 32 bytes:
  -- what `combine_batch_digests` makes of the ranks' chains in the order of the ranks.
  pub global_digest-combine_batch_digests :
      (ws : ℕ) (hashers : ℕ → RunningBatchHasher) (r : ℕ)
      → r < ws
      → ((i : ℕ) → i < ws → length (local_digest (hashers i)) ≡ 32)
      → (digest : Bytes) × (combine_batch_digests (map (λ i. local_digest (hashers i)) (range 0 ws))
          ≡ ok digest)
        × (length digest ≡ 32)
        × (global_digest (some ws) hashers r ≡ ok digest)
  unfolding global_digest combine_batch_digests all_gather_bytes
  global_digest-combine_batch_digests zero hashers r lt sizes = absurd (omega arith)
  global_digest-combine_batch_digests (suc zero) hashers r lt sizes =
      let fits = no_misfit (λ i. local_digest (hashers i)) 0 1 (λ i lo hi. sizes i (omega arith)) in
      let only : r ≡ 0 = omega arith in
      (local_digest (hashers 0), rw fits refl, sizes 0 (omega arith), rw (only, fits) refl)
  global_digest-combine_batch_digests (suc (suc n)) hashers r lt sizes =
      let chains : ℕ → Bytes = λ i. local_digest (hashers i) in
      let fits = no_misfit chains 0 (suc (suc n)) (λ i lo hi. sizes i (omega arith)) in
      let several : (suc (suc n) == 1) ≡ false = ground arith in
      (
        hashing.blake2b (join_bytes (map chains (range 0 (suc (suc n))))),
        rw fits refl,
        hashing.length-blake2b _,
        rw (several, fits) refl,
      )
