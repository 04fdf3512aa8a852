-- ===== src/Replay/Replicates.antt =====
-- The replay loop of src/pretrain/cli/audit_replay.py pushes the shards' averages of every replicate.
use native.Mathlib.Nat.{mod-eq_of_lt, mul-add-mod_self_left}
use open_transformers.Prelude.{
  ℕ, zero, suc, ◌+◌, ◌-◌, ◌*◌, ◌%◌, ◌<◌, ◌≡◌, refl, ap, ◌∙◌, true, false, List, [], ◌∷◌, ◌++◌, map,
  range, Option, none, ◌==◌, ok, ◌>>=◌, >>=_assoc, arith, fun_ext,
}
use open_transformers.StateHash.Tags.{Bytes}
use open_transformers.StateHash.Feed.{Hashing, Tensor}
use open_transformers.Reduce.Norm.{add_up, ascending_sum}
use open_transformers.Prelude.Disk.{Disk}
use open_transformers.Replay.Spill.{Storage}
use open_transformers.Replay.Fold.{Gradient, DiskTreeFold, push, push_all}
use open_transformers.Replay.Ranks.{take_rank, close_replicate, fold_ranks}
use open_transformers.Replay.Files.{Values, dict, add_values}
use open_transformers.Replay.Sums.{distinct, averages-dict, accumulate-dict}

-- Rank `rep * dp_shard + k` is shard `k` of its replicate.
shard_of : (rep k s : ℕ) → k < s → (rep * s + k) % s ≡ k
shard_of rep k s less =
    let order : rep * s + k ≡ s * rep + k = omega arith in
    ap (λ (t : ℕ). t % s) order ∙ mul-add-mod_self_left s rep k ∙ mod-eq_of_lt less

map-range-append {ℓ} :
    {A : Type ℓ} (g : ℕ → A) (start m n : ℕ)
    → map g (range start (m + n)) ≡ map g (range start m) ++ map g (range (start + m) n)
map-range-append g start zero n =
    let a : 0 + n ≡ n = omega arith in let b : start + 0 ≡ start = omega arith in rw (a, b) refl
map-range-append g start (suc m) n =
    let a : suc m + n ≡ suc (m + n) = omega arith in
    let b : start + suc m ≡ suc start + m = omega arith in
    rw (a, b, map-range-append g (suc start) m n) refl

module _ (hashing : Hashing) (storage : Storage) (env : Option Bytes) (names : List Bytes)
    (add : Tensor → Tensor → Tensor) (scale : ℕ → Tensor → Tensor) (s : ℕ) (h : ℕ → Values)
    (once : distinct names ≡ true) where
  -- The gradients of `count` ranks from rank `start` on.
  abbrev ranks_from : ℕ → ℕ → List Gradient
  ranks_from start count = map (λ i. dict names (h i)) (range start count)

  -- The average that is pushed for ranks that have the sum `f` and for those behind them.
  abbrev pub average_of : Values → ℕ → ℕ → Values
  average_of f start count name =
      scale s (add_up (add_values add) f (map h (range start count)) name)

  -- Behind the sum of the first shards of a replicate, the others are added, the average is pushed,
  -- and the next replicate begins.
  close_replicate-rest :
      (rep m k r : ℕ) (f : Values) (more : List Gradient) (self : DiskTreeFold) (disk : Disk)
      → k + suc m ≡ s
      → r ≡ rep * s + k
      → (close_replicate hashing storage env add scale s k (dict names f) self disk >>= λ closed.
          fold_ranks hashing storage env add scale s
            (suc r)
            closed.0
            (ranks_from (suc r) m ++ more)
            closed.1
            closed.2)
        ≡ (push hashing storage env add (dict names (average_of f (suc r) m)) self disk >>= λ next.
            fold_ranks hashing storage env add scale s (suc rep * s) none more next.0 next.1)
  unfolding close_replicate fold_ranks take_rank add_up
  close_replicate-rest rep zero k r f more self disk size at =
      let last : (k == s - 1) ≡ true = ground arith in
      let next : suc r ≡ suc rep * s = omega arith in
      rw (last, averages-dict scale s names f, next)
        (>>=_assoc (push hashing storage env add (dict names (λ name. scale s (f name))) self disk)
          _ _)
  close_replicate-rest rep (suc m) k r f more self disk size at =
      let inside : (k == s - 1) ≡ false = ground arith in
      let later : (suc k == 0) ≡ false = ground arith in
      let place : suc r ≡ rep * s + suc k = omega arith in
      let shard : suc r % s ≡ suc k =
        ap (λ (t : ℕ). t % s) place ∙ shard_of rep (suc k) s (omega arith) in
      rw (inside, shard, accumulate-dict add names f (h (suc r)) once, later)
        (close_replicate-rest rep m (suc k) (suc r) (add_values add f (h (suc r))) more self disk
          (omega arith) place)

  -- What replicate `rep` pushes.
  abbrev pub part : ℕ → Values
  part rep = average_of (h (rep * s)) (suc (rep * s)) (s - 1)

  pub fold_ranks-push_all :
      (count rep : ℕ) (self : DiskTreeFold) (disk : Disk)
      → 0 < s
      → fold_ranks hashing storage env add scale s
          (rep * s)
          none
          (ranks_from (rep * s) (count * s))
          self
          disk
        ≡ push_all hashing storage env add
            (map (λ i. dict names (part i)) (range rep count))
            self
            disk
  unfolding fold_ranks push_all take_rank
  fold_ranks-push_all zero rep self disk pos =
      let none_more : 0 * s ≡ 0 = omega arith in rw none_more refl
  fold_ranks-push_all (suc count) rep self disk pos =
      let size : suc count * s ≡ suc (s - 1) + count * s = omega arith in
      let next : rep * s + suc (s - 1) ≡ suc rep * s = omega arith in
      let first : rep * s ≡ rep * s + 0 = omega arith in
      let shard : rep * s % s ≡ 0 = ap (λ (t : ℕ). t % s) first ∙ shard_of rep 0 s pos in
      let more = ranks_from (suc rep * s) (count * s) in
      rw
        (
          size,
          map-range-append (λ i. dict names (h i)) (rep * s) (suc (s - 1)) (count * s),
          next,
          shard,
        )
        (close_replicate-rest rep (s - 1) 0 (rep * s) (h (rep * s)) more self disk (omega arith)
            first
          ∙ ap (λ rest. push hashing storage env add (dict names (part rep)) self disk >>= rest)
              (fun_ext (λ after. fold_ranks-push_all count (suc rep) after.0 after.1 pos)))

  -- The value of a sum under a name.
  add_up-name :
      (f : Values) (values : List Values) (name : Bytes)
      → add_up (add_values add) f values name ≡ add_up add (f name) (map (λ v. v name) values)
  unfolding add_up
  add_up-name f [] name = refl
  add_up-name f (v ∷ values) name = add_up-name (add_values add f v) values name

  map-name :
      (ranks : List ℕ) (name : Bytes) → map (λ v. v name) (map h ranks) ≡ map (λ i. h i name) ranks
  map-name [] name = refl
  map-name (i ∷ ranks) name = ap (◌∷◌ (h i name)) (map-name ranks name)

  -- The sum over a replicate's shards.
  abbrev pub shard_sum : Bytes → ℕ → Tensor
  shard_sum name rep =
      add_up add (h (rep * s) name) (map (λ i. h i name) (range (suc (rep * s)) (s - 1)))

  pub part-shard_sum : (name : Bytes) (rep : ℕ) → part rep name ≡ scale s (shard_sum name rep)
  part-shard_sum name rep = ap (scale s) (
      add_up-name (h (rep * s)) (map h (range (suc (rep * s)) (s - 1))) name
      ∙ ap (add_up add (h (rep * s) name)) (map-name (range (suc (rep * s)) (s - 1)) name))

  pub ascending-shard_sum :
      (name : Bytes) (rep : ℕ)
      → 0 < s
      → ascending_sum add (map (λ i. h i name) (range (rep * s) s)) ≡ ok (shard_sum name rep)
  unfolding ascending_sum
  ascending-shard_sum name rep pos =
      let size : s ≡ suc (s - 1) = omega arith in
      ap (λ (t : ℕ). ascending_sum add (map (λ i. h i name) (range (rep * s) t))) size
