-- ===== src/Fetch/Stubs.antt =====
-- The placeholders of `_stub_untouched_bins` in src/pretrain/data/fetch_interval.py leave what was
-- fetched.
use mathlib.Core.Option.{some-injective}
use open_transformers.Prelude.{
  ℕ, zero, suc, ◌+◌, ◌≡◌, ◌≢◌, refl, sym, ap, ◌∙◌, true, false, List, [], ◌∷◌, Option, none, some,
  replicate, if◌then◌else◌, Result, ok, inl, inr, >>=-eq-ok, get_elem?, arith,
}
use open_transformers.Prelude.Booleans.{if-cases}
use open_transformers.Prelude.Disk.{Text, Disk, set_file-same, set_file-other, read_file}
use open_transformers.Fetch.Shards.{
  ShardInfo, recorded, bin_path, idx_path, fetch_bins, is_in, keep_or_stub, stub_bin, stub_from,
  stub_untouched_bins,
}
use open_transformers.Fetch.Payloads.{Good, ok-eq}
use open_transformers.Fetch.Touched.{Distinct, fetch_bins-Good}

listed_not : (sid : ℕ) (touched : List ℕ) → is_in sid touched ≡ true → is_in sid touched ≢ false
listed_not sid touched a b = let bad : true ≡ false = sym a ∙ b in cc

gone :
    (disk : Disk) (other name : Text) {content : Text}
    → other ≡ name
    → disk other ≡ some content
    → disk name ≢ none
gone disk other name e there here = let bad = sym here ∙ ap disk (sym e) ∙ there in cc

module _ (payload_size : Text → Result ℕ) where
  -- A placeholder is put where there is no file, and nothing else changes.
  keep_or_stub-ok :
      (shard : ShardInfo) (disk : Disk) (found : Option Text) (other content : Text) {n : ℕ}
      {after : Disk}
      → disk (bin_path shard.prefix) ≡ found
      → keep_or_stub payload_size shard disk found ≡ ok (n, after)
      → ((own : Text) × (after (bin_path shard.prefix) ≡ some own))
        × (disk other ≡ some content → after other ≡ some content)
  unfolding keep_or_stub
  keep_or_stub-ok shard disk (some own) other content here done =
      let same = sym (ap (λ made. made.1) (ok-eq done)) in
      (
        (own, ap (λ (d : Disk). d (bin_path shard.prefix)) same ∙ here),
        λ there. ap (λ (d : Disk). d other) same ∙ there,
      )
  keep_or_stub-ok shard disk none other content here done =
      let (index, read, rest) = >>=-eq-ok (read_file (disk (idx_path shard.prefix))) _ done in
      let (size, sized, last) = >>=-eq-ok (payload_size index) _ rest in
      let same = sym (ap (λ made. made.1) (ok-eq last)) in
      let name = bin_path shard.prefix in
      (
        (
          replicate size 0,
          ap (λ (d : Disk). d name) same ∙ set_file-same name (some (replicate size 0)) disk,
        ),
        λ there.
            ap (λ (d : Disk). d other) same
            ∙ set_file-other name other (some (replicate size 0)) disk
                (λ e. gone disk other name e there here)
            ∙ there,
      )

  stub_step :
      (shard : ShardInfo) (shards : List ShardInfo) (sid : ℕ) (touched : List ℕ) (disk : Disk)
      (other content : Text) {n : ℕ} {after : Disk}
      → stub_from payload_size (shard ∷ shards) sid touched disk ≡ ok (n, after)
      → (mid : Disk) × (more : ℕ) × (is_in sid touched ≡ false
          → (own : Text) × (mid (bin_path shard.prefix) ≡ some own))
        × (disk other ≡ some content → mid other ≡ some content)
        × (stub_from payload_size shards (suc sid) touched mid ≡ ok (more, after))
  unfolding stub_from stub_bin
  stub_step shard shards sid touched disk other content done =
      let (one, made, rest) =
        >>=-eq-ok (if is_in sid touched then ok (0, disk) else stub_bin payload_size shard disk) _
          done in
      let (two, next, last) =
        >>=-eq-ok (stub_from payload_size shards (suc sid) touched one.1) _ rest in
      let left = next ∙ ap (λ d. ok (two.0, d)) (ap (λ made. made.1) (ok-eq last)) in
      elim (if-cases (is_in sid touched) made) [
        | inl (listed, kept) ↦
            let same = sym (ap (λ made. made.1) (ok-eq kept)) in
            (
              one.1,
              two.0,
              λ unlisted. absurd (listed_not sid touched listed unlisted),
              λ there. ap (λ (d : Disk). d other) same ∙ there,
              left,
            )
        | inr (unlisted, stubbed) ↦
            let (own, keeps) =
              keep_or_stub-ok shard disk (disk (bin_path shard.prefix)) other content refl
                stubbed in
            (one.1, two.0, λ free. own, keeps, left)
      ]

  -- The placeholders leave the files that are there.
  stub_from-keeps :
      (shards : List ShardInfo) (sid : ℕ) (touched : List ℕ) (disk : Disk) (other content : Text)
      {n : ℕ} {after : Disk}
      → disk other ≡ some content
      → stub_from payload_size shards sid touched disk ≡ ok (n, after)
      → after other ≡ some content
  unfolding stub_from
  stub_from-keeps [] sid touched disk other content there done =
      ap (λ (d : Disk). d other) (sym (ap (λ made. made.1) (ok-eq done))) ∙ there
  stub_from-keeps (shard ∷ shards) sid touched disk other content there done =
      let (mid, more, own, keeps, next) =
        stub_step shard shards sid touched disk other content done in
      stub_from-keeps shards (suc sid) touched mid other content (keeps there) next

  stub_from-there :
      (shards : List ShardInfo) (start i : ℕ) (touched : List ℕ) (disk : Disk) (s : ShardInfo)
      {n : ℕ} {after : Disk}
      → get_elem? shards i ≡ some s
      → is_in (start + i) touched ≡ false
      → stub_from payload_size shards start touched disk ≡ ok (n, after)
      → (own : Text) × (after (bin_path s.prefix) ≡ some own)
  stub_from-there [] start i touched disk s at free done = cc
  stub_from-there (shard ∷ shards) start zero touched disk s at free done =
      let here : start + 0 ≡ start = omega arith in
      let one = some-injective _ _ at in
      let (mid, more, own, keeps, next) = stub_step shard shards start touched disk [] [] done in
      let (content, there) = own (ap (λ (t : ℕ). is_in t touched) (sym here) ∙ free) in
      let there' = ap (λ (t : ShardInfo). mid (bin_path t.prefix)) (sym one) ∙ there in
      (
        content,
        stub_from-keeps shards (suc start) touched mid (bin_path s.prefix) content there' next,
      )
  stub_from-there (shard ∷ shards) start (suc i) touched disk s at free done =
      let place : suc start + i ≡ start + suc i = omega arith in
      let (mid, more, own, keeps, next) = stub_step shard shards start touched disk [] [] done in
      stub_from-there shards (suc start) i touched mid s at
        (ap (λ (t : ℕ). is_in t touched) place ∙ free) next

  -- Where the placing of placeholders does not fail, each shard that the interval does not touch has a
  -- payload file, and every file that was there is as it was.
  pub stub_untouched_bins-there :
      (shards : List ShardInfo) (touched : List ℕ) (sid : ℕ) (s : ShardInfo) (disk : Disk)
      (name content : Text) {n : ℕ} {after : Disk}
      → get_elem? shards sid ≡ some s
      → is_in sid touched ≡ false
      → disk name ≡ some content
      → stub_untouched_bins payload_size shards touched disk ≡ ok (n, after)
      → ((own : Text) × (after (bin_path s.prefix) ≡ some own)) × (after name ≡ some content)
  unfolding stub_untouched_bins
  stub_untouched_bins-there shards touched sid s disk name content at free there done =
      let place : 0 + sid ≡ sid = omega arith in
      (
        stub_from-there shards 0 sid touched disk s at
            (ap (λ (t : ℕ). is_in t touched) place ∙ free) done,
        stub_from-keeps shards 0 touched disk name content there done,
      )

-- With the verification on, where neither the fetch of the touched shards nor the placing of the
-- placeholders fails, each touched shard whose digest is recorded has a payload with that digest,
-- whatever stood on the disk before, placeholders of other intervals included, and whatever the mirror
-- gives; shards with one prefix are one shard.
pub stub_untouched_bins-Good :
    (blake2b : Text → Text) (mirror : Text → Result Text) (basename : Text)
    (payload_size : Text → Result ℕ) (shards : List ShardInfo) (ids : List ℕ) (sid : ℕ)
    (s : ShardInfo) (disk : Disk) {n m : ℕ} {mid after : Disk}
    → Distinct shards
    → is_in sid ids ≡ true
    → get_elem? shards sid ≡ some s
    → recorded s.bin_blake2b ≡ true
    → fetch_bins blake2b mirror basename true shards ids disk ≡ ok (n, mid)
    → stub_untouched_bins payload_size shards ids mid ≡ ok (m, after)
    → Good blake2b mirror basename s after
unfolding stub_untouched_bins
stub_untouched_bins-Good blake2b mirror basename payload_size shards ids sid s disk {mid} distinct
      listed at known fetched stubbed =
    let (content, here, digest) =
      fetch_bins-Good blake2b mirror basename shards ids sid s disk distinct listed at known
        fetched in
    (
      content,
      stub_from-keeps payload_size shards 0 ids mid (bin_path s.prefix) content here stubbed,
      digest,
    )
