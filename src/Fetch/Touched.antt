-- ===== src/Fetch/Touched.antt =====
-- Every shard that an interval touches is fetched by `_fetch_bins` of
-- src/pretrain/data/fetch_interval.py.
use mathlib.Core.Option.{some-injective}
use open_transformers.Prelude.{
  ℕ, ◌≡◌, ◌≢◌, refl, sym, ap, subst, ◌∙◌, Bool, true, false, List, [], ◌∷◌, Option, none, some,
  item, item_of, if◌then◌else◌, Result, ok, ◌==◌, Bool-cases, ==_iff, inl, inr, >>=-eq-ok,
  get_elem?,
}
use open_transformers.Prelude.Booleans.{if-cases}
use open_transformers.Prelude.Disk.{Text, text_eq, text_eq_refl, text_eq-eq, Disk}
use open_transformers.StateHash.Sorted.{sorted, insert, text_le}
use open_transformers.Fetch.Shards.{
  ShardInfo, recorded, bin_path, fetch_bin, fetch_each, fetch_bins, is_in,
}
use open_transformers.Fetch.Payloads.{
  Good, bin_path-injective, ok-eq, fetch_bin-Good, fetch_bin-other,
}

-- Shards with one prefix are one shard.
abbrev pub Distinct : List ShardInfo → Type 0
Distinct shards =
    (i j : ℕ) (s t : ShardInfo)
    → get_elem? shards i ≡ some s
    → get_elem? shards j ≡ some t
    → s.prefix ≡ t.prefix
    → s ≡ t

item_of-ok {ℓ} : {A : Type ℓ} (found : Option A) {x : A} → item_of found ≡ ok x → found ≡ some x
item_of-ok none e = cc
item_of-ok (some y) e = ap some (ok-eq e)

apart-not_eq : (a b : Text) → text_eq a b ≡ false → a ≢ b
apart-not_eq a b apart e =
    let same = ap (text_eq a) (sym e) ∙ text_eq_refl a in
    let bad : false ≡ true = sym apart ∙ same in cc

module _ (blake2b : Text → Text) (mirror : Text → Result Text) (basename : Text)
    (shards : List ShardInfo) where
  -- The steps of a successful fetch of a list.
  fetch_each-steps :
      (verify : Bool) (sid : ℕ) (ids : List ℕ) (disk : Disk) {n : ℕ} {after : Disk}
      → fetch_each blake2b mirror basename verify shards (sid ∷ ids) disk ≡ ok (n, after)
      → (t : ShardInfo) × (size : ℕ) × (mid : Disk) × (more : ℕ) × (get_elem? shards sid ≡ some t)
        × (fetch_bin blake2b mirror basename verify t disk ≡ ok (size, mid))
        × (fetch_each blake2b mirror basename verify shards ids mid ≡ ok (more, after))
  unfolding fetch_each
  fetch_each-steps verify sid ids disk done =
      let (t, found, rest) = >>=-eq-ok (item shards sid) _ done in
      let (one, fetched, rest') =
        >>=-eq-ok (fetch_bin blake2b mirror basename verify t disk) _ rest in
      let (two, next, last) =
        >>=-eq-ok (fetch_each blake2b mirror basename verify shards ids one.1) _ rest' in
      let same = ap (λ made. made.1) (ok-eq last) in
      (
        t,
        one.0,
        one.1,
        two.0,
        item_of-ok (get_elem? shards sid) found,
        fetched,
        next ∙ ap (λ d. ok (two.0, d)) same,
      )

  module _ (distinct : Distinct shards) where
    -- A fetch of any shard keeps another one's payload.
    fetch_bin-keeps :
        (i j : ℕ) (s t : ShardInfo) (disk : Disk) {n : ℕ} {after : Disk}
        → get_elem? shards i ≡ some s
        → get_elem? shards j ≡ some t
        → recorded s.bin_blake2b ≡ true
        → Good blake2b mirror basename s disk
        → fetch_bin blake2b mirror basename true t disk ≡ ok (n, after)
        → Good blake2b mirror basename s after
    fetch_bin-keeps i j s t disk {n} {after} at_i at_j known good done =
        elim (Bool-cases (text_eq s.prefix t.prefix)) [
          | inl same ↦
              let one = distinct i j s t at_i at_j (text_eq-eq s.prefix t.prefix same) in
              subst (λ u. recorded u.bin_blake2b ≡ true → Good blake2b mirror basename u after)
                (sym one) (λ known'. fetch_bin-Good blake2b mirror basename t disk known' done)
                known
          | inr apart ↦
              let (content, here, digest) = good in
              let other =
                fetch_bin-other blake2b mirror basename true t disk (bin_path s.prefix)
                  (λ e.
                    apart-not_eq s.prefix t.prefix apart (bin_path-injective s.prefix t.prefix e))
                  done in
              (content, other ∙ here, digest)
        ]

    fetch_each-keeps :
        (ids : List ℕ) (i : ℕ) (s : ShardInfo) (disk : Disk) {n : ℕ} {after : Disk}
        → get_elem? shards i ≡ some s
        → recorded s.bin_blake2b ≡ true
        → Good blake2b mirror basename s disk
        → fetch_each blake2b mirror basename true shards ids disk ≡ ok (n, after)
        → Good blake2b mirror basename s after
    unfolding fetch_each
    fetch_each-keeps [] i s disk at known good done =
        let (content, here, digest) = good in
        (
          content,
          ap (λ (d : Disk). d (bin_path s.prefix)) (sym (ap (λ made. made.1) (ok-eq done))) ∙ here,
          digest,
        )
    fetch_each-keeps (sid ∷ ids) i s disk at known good done =
        let (t, size, mid, more, found, fetched, next) = fetch_each-steps true sid ids disk done in
        fetch_each-keeps ids i s mid at known
          (fetch_bin-keeps i sid s t disk at found known good fetched) next

    fetch_each-Good :
        (ids : List ℕ) (sid : ℕ) (s : ShardInfo) (disk : Disk) {n : ℕ} {after : Disk}
        → is_in sid ids ≡ true
        → get_elem? shards sid ≡ some s
        → recorded s.bin_blake2b ≡ true
        → fetch_each blake2b mirror basename true shards ids disk ≡ ok (n, after)
        → Good blake2b mirror basename s after
    fetch_each-Good [] sid s disk listed at known done = cc
    fetch_each-Good (first ∷ ids) sid s disk listed at known done =
        let (t, size, mid, more, found, fetched, next) =
          fetch_each-steps true first ids disk done in
        elim (if-cases (sid == first) listed) [
          | inl (same, _) ↦
              let here = ap (get_elem? shards) ((==_iff sid first).0 same) ∙ found in
              let one = some-injective _ _ (sym here ∙ at) in
              let good =
                subst (λ u. recorded u.bin_blake2b ≡ true → Good blake2b mirror basename u mid) one
                  (λ known'. fetch_bin-Good blake2b mirror basename t disk known' fetched) known in
              fetch_each-keeps ids sid s mid at known good next
          | inr (other, later) ↦ fetch_each-Good ids sid s mid later at known next
        ]

swap-if :
    (a b c : Bool)
    → (if b then true else if a then true else c) ≡ (if a then true else if b then true else c)
swap-if true true c = refl
swap-if true false c = refl
swap-if false b c = refl

is_in-insert :
    (sid x : ℕ) (xs : List ℕ) → is_in sid (insert (λ n. n ∷ []) x xs) ≡ is_in sid (x ∷ xs)
unfolding insert
is_in-insert sid x [] = refl
is_in-insert sid x (y ∷ ys) = elim (Bool-cases (text_le (x ∷ []) (y ∷ []))) [
  | inl before ↦ rw before refl
  | inr behind ↦ rw (behind, is_in-insert sid x ys) (swap-if (sid == x) (sid == y) (is_in sid ys))
]

is_in-sorted : (sid : ℕ) (ids : List ℕ) → is_in sid (sorted (λ n. n ∷ []) ids) ≡ is_in sid ids
unfolding sorted
is_in-sorted sid [] = refl
is_in-sorted sid (x ∷ xs) =
    is_in-insert sid x (sorted (λ n. n ∷ []) xs)
    ∙ ap (λ b. if sid == x then true else b) (is_in-sorted sid xs)

-- With the verification on, where the fetch of the touched shards does not fail, each of them whose
-- digest is recorded has a payload with that digest, whatever stood on the disk before, and whatever
-- the mirror gives; shards with one prefix are one shard.
pub fetch_bins-Good :
    (blake2b : Text → Text) (mirror : Text → Result Text) (basename : Text)
    (shards : List ShardInfo) (ids : List ℕ) (sid : ℕ) (s : ShardInfo) (disk : Disk) {n : ℕ}
    {after : Disk}
    → Distinct shards
    → is_in sid ids ≡ true
    → get_elem? shards sid ≡ some s
    → recorded s.bin_blake2b ≡ true
    → fetch_bins blake2b mirror basename true shards ids disk ≡ ok (n, after)
    → Good blake2b mirror basename s after
unfolding fetch_bins
fetch_bins-Good blake2b mirror basename shards ids sid s disk distinct listed at known done =
    fetch_each-Good blake2b mirror basename shards distinct (sorted (λ n. n ∷ []) ids) sid s disk
      (is_in-sorted sid ids ∙ listed) at known done
