-- ===== src/StateHash/Audit.antt =====
-- The hash of a training state (src/pretrain/train/state_hash.py) does not depend on how the tensors
-- are held: the audit's digest from whole tensors is the cluster's from its shards.
use native.Mathlib.Nat.{mod-lt, zero-add}
use open_transformers.Prelude.{
  ℕ, zero, suc, ◌+◌, ◌%◌, ◌<◌, ◌≡◌, refl, sym, ap, ◌∙◌, Bool, false, List, [], ◌∷◌, ◌++◌,
  append-nil, append_assoc, map, range, Option, none, some, length, ◌==◌, ==_iff, Bool-cases,
  get_elem?, get_elem?-map, get_elem?-range, Result, ok, ◌>>=◌, inl, inr, arith,
}
use open_transformers.Prelude.Slices.{take-append_length}
use open_transformers.Reduce.Norm.{shard0_logical_chunk}
use open_transformers.Reduce.Shards.{length-shard0_logical_chunk}
use open_transformers.StateHash.Tags.{Bytes}
use open_transformers.StateHash.Feed.{Hashing, Tensor, join_bytes, Moments, Param}
use open_transformers.StateHash.Sorted.{sorted, sorted-map}
use open_transformers.StateHash.Batches.{all_gather_bytes}
use open_transformers.StateHash.Shards.{
  Held, shard_view, local_logical, feed_moment, feed_state, feed_grad, feed_param, feed_params,
  local_shard_state_digest, combine_shard_state, shard_of, feed_ranks, audit_shard_state_digest,
}

-- A model whose tensors are held otherwise: `hold name slot t` is how the tensor `t` of a parameter
-- is, in its slot: weight, gradient or moment.
module _ {T U : Type 0} (hold : Bytes → ℕ → T → U) where
  abbrev pub held? : Bytes → ℕ → Option T → Option U
  held? name slot none = none
  held? name slot (some t) = some (hold name slot t)

  abbrev pub held_state : Bytes → Option (Moments T) → Option (Moments U)
  held_state name none = none
  held_state name (some state) = some (record {
    step = state.step;
    exp_avg = held? name 2 state.exp_avg;
    exp_avg_sq = held? name 3 state.exp_avg_sq;
    max_exp_avg_sq = held? name 4 state.max_exp_avg_sq;
  })

  abbrev pub held_param : Param T → Param U
  held_param p = record {
    name = p.name;
    weight = hold p.name 0 p.weight;
    grad = held? p.name 1 p.grad;
    state = held_state p.name p.state;
  }

  -- What is fed is what the extracted tensors are.
  module _ (hashing : Hashing) (extract : T → Tensor) (extract' : U → Tensor)
      (same : (name : Bytes) (slot : ℕ) (t : T) → extract' (hold name slot t) ≡ extract t) where
    feed_moment-held :
        (h tag name : Bytes) (slot : ℕ) (t : Option T)
        → feed_moment hashing extract' h tag (held? name slot t)
          ≡ feed_moment hashing extract h tag t
    unfolding feed_moment
    feed_moment-held h tag name slot none = refl
    feed_moment-held h tag name slot (some t) = rw (same name slot t) refl

    feed_state-held :
        (h name : Bytes) (state : Option (Moments T))
        → feed_state hashing extract' h (held_state name state) ≡ feed_state hashing extract h state
    unfolding feed_state
    feed_state-held h name none = refl
    feed_state-held h name (some state) =
        rw (feed_moment-held, feed_moment-held, feed_moment-held) refl

    feed_grad-held :
        (h name : Bytes) (grad : Option T)
        → feed_grad hashing extract' h (held? name 1 grad) ≡ feed_grad hashing extract h grad
    unfolding feed_grad
    feed_grad-held h name none = refl
    feed_grad-held h name (some t) = rw (same name 1 t) refl

    feed_param-held :
        (o g : Bool) (h : Bytes) (p : Param T)
        → feed_param hashing extract' o g h (held_param p) ≡ feed_param hashing extract o g h p
    unfolding feed_param
    feed_param-held o g h p = rw (same p.name 0 p.weight, feed_state-held, feed_grad-held) refl

    feed_params-held :
        (o g : Bool) (h : Bytes) (params : List (Param T))
        → feed_params hashing extract' o g h (map held_param params)
          ≡ feed_params hashing extract o g h params
    unfolding feed_params
    feed_params-held o g h [] = refl
    feed_params-held o g h (p ∷ params) =
        ap (λ (fed : Bytes). feed_params hashing extract' o g fed (map held_param params))
          (feed_param-held o g h p)
        ∙ feed_params-held o g (feed_param hashing extract o g h p) params

    pub feed_sorted-held :
        (o g : Bool) (h : Bytes) (model : List (Param T))
        → feed_params hashing extract' o g h
            (sorted (λ (p : Param U). p.name) (map held_param model))
          ≡ feed_params hashing extract o g h (sorted (λ (p : Param T). p.name) model)
    feed_sorted-held o g h model =
        rw
          (sorted-map (λ (p : Param T). p.name) (λ (p : Param U). p.name) held_param (λ p. refl)
            model)
          (feed_params-held o g h (sorted (λ (p : Param T). p.name) model))

-- A rank's local view of a tensor: its logical rows, and whatever stands behind them.
abbrev pub shard_held : (s num_shards : ℕ) → (Bytes → ℕ → List Bytes) → Bytes → ℕ → Tensor → Held
shard_held s num_shards pad name slot t =
    shard_view (record t { rows = shard0_logical_chunk t.rows s num_shards ++ pad name slot })
      (length t.rows) num_shards s

local_logical-shard_held :
    (s num_shards : ℕ) (pad : Bytes → ℕ → List Bytes) (name : Bytes) (slot : ℕ) (t : Tensor)
    → local_logical (shard_held s num_shards pad name slot t) ≡ shard_of s num_shards t
unfolding local_logical
local_logical-shard_held s num_shards pad name slot t =
    let rows = shard0_logical_chunk t.rows s num_shards in
    ap (λ (kept : List Bytes). record t { rows = kept })
      (rw (← length-shard0_logical_chunk t.rows s num_shards)
        (take-append_length rows (pad name slot)))

map_ext : (f g : ℕ → Bytes) (ns : List ℕ) → ((i : ℕ) → f i ≡ g i) → map f ns ≡ map g ns
map_ext f g [] same = refl
map_ext f g (n ∷ ns) same = rw (same n, map_ext f g ns same) refl

-- Gathering over a group gives every rank the ranks' bytes in the order of the ranks.
gathered_ext :
    (locals digests : ℕ → Bytes) (ws r : ℕ)
    → r < ws
    → ((i : ℕ) → locals i ≡ digests i)
    → all_gather_bytes (some ws) locals r ≡ map digests (range 0 ws)
unfolding all_gather_bytes
gathered_ext locals digests ws r lt same = elim (Bool-cases (ws == 1)) [
  | inl one ↦
      let single : ws ≡ 1 = (==_iff ws 1).0 one in
      let only : r ≡ 0 = omega (arith, single, lt) in rw (one, single, only, same 0) refl
  | inr several ↦ rw several (map_ext locals digests (range 0 ws) same)
]

module _ (hashing : Hashing) where
  local_shard_state_digest-held :
      (s num_shards : ℕ) (pad : Bytes → ℕ → List Bytes) (o g : Bool) (model : List (Param Tensor))
      → local_shard_state_digest hashing local_logical o g
          (map (held_param (shard_held s num_shards pad)) model)
        ≡ local_shard_state_digest hashing (shard_of s num_shards) o g model
  unfolding local_shard_state_digest
  local_shard_state_digest-held s num_shards pad o g model = ap hashing.blake2b (
      feed_sorted-held (shard_held s num_shards pad) hashing (shard_of s num_shards) local_logical
        (local_logical-shard_held s num_shards pad) o g [] model)

  feed_ranks-join :
      (digests : ℕ → Bytes) (n : ℕ)
      → 0 < n
      → (count r : ℕ) (h : Bytes)
      → feed_ranks (map digests (range 0 n)) n count r h
        ≡ ok (h ++ join_bytes (map (λ i. digests (i % n)) (range r count)))
  unfolding feed_ranks
  feed_ranks-join digests n pos zero r h = ap ok (sym (append-nil h))
  feed_ranks-join digests n pos (suc count) r h =
      let positive : (n == 0) ≡ false = ground arith in
      let here : get_elem? (map digests (range 0 n)) (r % n) ≡ some (digests (0 + r % n)) =
        get_elem?-map digests (range 0 n) (r % n) (get_elem?-range 0 n (r % n) (mod-lt r pos)) in
      let next : r + 1 ≡ suc r = omega arith in
      rw (positive, here, zero-add (r % n), next, feed_ranks-join digests n pos count (suc r))
        (ap ok (
          append_assoc h (digests (r % n))
            (join_bytes (map (λ i. digests (i % n)) (range (suc r) count)))))

  local-eq :
      (o g : Bool) (num_shards : ℕ) (pads : ℕ → Bytes → ℕ → List Bytes)
      (model : List (Param Tensor)) (i : ℕ)
      → local_shard_state_digest hashing local_logical o g
          (map (held_param (shard_held (i % num_shards) num_shards (pads i))) model)
        ≡ local_shard_state_digest hashing (shard_of (i % num_shards) num_shards) o g model
  local-eq o g num_shards pads model i =
      local_shard_state_digest-held (i % num_shards) num_shards (pads i) o g model

  -- Where every rank `i` holds shard `i % num_shards` of the whole tensors, with any rows behind the
  -- logical ones, the audit reconstructs from the whole tensors, without failing, the combination of
  -- the ranks' digests that each rank `r` gets.
  pub audit_shard_state_digest-combine_shard_state :
      (o g : Bool) (num_shards num_ranks : ℕ) (pads : ℕ → Bytes → ℕ → List Bytes)
      (model : List (Param Tensor)) (r : ℕ)
      → 0 < num_shards
      → r < num_ranks
      → audit_shard_state_digest hashing o g num_shards num_ranks model
        ≡ ok (
            combine_shard_state hashing
              (some num_ranks)
              (λ i.
                local_shard_state_digest hashing local_logical o g
                  (map (held_param (shard_held (i % num_shards) num_shards (pads i))) model))
              r)
  unfolding audit_shard_state_digest combine_shard_state
  audit_shard_state_digest-combine_shard_state o g num_shards num_ranks pads model r pos lt =
      let digests : ℕ → Bytes =
        λ s. local_shard_state_digest hashing (shard_of s num_shards) o g model in
      let locals : ℕ → Bytes = λ i.
        local_shard_state_digest hashing local_logical o g
          (map (held_param (shard_held (i % num_shards) num_shards (pads i))) model) in
      let parts = map (λ i. digests (i % num_shards)) (range 0 num_ranks) in
      let gathered : all_gather_bytes (some num_ranks) locals r ≡ parts =
        gathered_ext locals (λ i. digests (i % num_shards)) num_ranks r lt
          (local-eq o g num_shards pads model) in
      let fed : feed_ranks (map digests (range 0 num_shards)) num_shards num_ranks 0 []
          ≡ ok (join_bytes parts) =
        feed_ranks-join digests num_shards pos num_ranks 0 [] in
      ap (λ (combined : Result Bytes). combined >>= λ bytes. ok (hashing.blake2b bytes)) fed
      ∙ ap (λ (bytes : List Bytes). ok (hashing.blake2b (join_bytes bytes))) (sym gathered)
