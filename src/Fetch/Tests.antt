-- ===== src/Fetch/Tests.antt =====
-- The theorems on src/pretrain/data/fetch_interval.py on two shards, with a digest that is the last byte.
use mathlib.Core.Option.{some-injective}
use open_transformers.Prelude.{
  ℕ, zero, suc, sym, ap, ◌∙◌, arith, ◌≡◌, ◌≢◌, refl, true, List, [], ◌∷◌, none, some, Result, ok,
  raise, runtime_error, if◌then◌else◌,
}
use open_transformers.Prelude.Disk.{Text, Disk, text_eq, set_file}
use open_transformers.StateHash.Sorted.{sorted, insert}
use open_transformers.Fetch.Shards.{
  ShardInfo, bin_path, object_name, fetch_bin, fetch_bins, fetch_each, keep_or_download,
  download_bin, download, stub_from, stub_bin, keep_or_stub, name_from, stub_untouched_bins,
  path_name,
}
use open_transformers.Fetch.Payloads.{Good}
use open_transformers.Fetch.Touched.{Distinct}
use open_transformers.Fetch.Stubs.{stub_untouched_bins-Good}
use open_transformers.Fetch.Honest.{fetch_bins-Honest, fetch_bin-refuses}

abbrev last_byte : Text → Text
last_byte [] = []
last_byte (byte ∷ []) = byte ∷ []
last_byte (byte ∷ next ∷ bytes) = last_byte (next ∷ bytes)

abbrev first_shard : ShardInfo
first_shard = record { prefix = 97 ∷ []; bin_blake2b = 7 ∷ []; idx_blake2b = [] }

abbrev second_shard : ShardInfo
second_shard = record { prefix = 98 ∷ []; bin_blake2b = 9 ∷ []; idx_blake2b = [] }

abbrev both_shards : List ShardInfo
both_shards = first_shard ∷ second_shard ∷ []

abbrev source : Text
source = 115 ∷ []

abbrev serve : Text → Result Text
serve name =
    if text_eq name (object_name source (bin_path (97 ∷ []))) then ok (1 ∷ 7 ∷ []) else ok (9 ∷ [])

-- A placeholder of zeros stands where the first shard's payload belongs.
abbrev stubbed_disk : Disk
stubbed_disk name = if text_eq name (bin_path (97 ∷ [])) then some (0 ∷ 0 ∷ []) else some (3 ∷ [])

abbrev fetched_disk : Disk
fetched_disk =
    set_file (bin_path (97 ∷ [])) (some (1 ∷ 7 ∷ []))
      (set_file (bin_path (97 ∷ [])) none stubbed_disk)

fetched :
    fetch_bins last_byte serve source true both_shards (0 ∷ []) stubbed_disk ≡ ok (2, fetched_disk)
unfolding fetch_bins fetch_each fetch_bin keep_or_download download_bin download sorted insert
fetched = refl

abbrev size_of : Text → Result ℕ
size_of index = ok 4

placed : stub_untouched_bins size_of both_shards (0 ∷ []) fetched_disk ≡ ok (0, fetched_disk)
unfolding stub_untouched_bins stub_from stub_bin keep_or_stub
placed = refl

abbrev first_byte : Text → ℕ
first_byte [] = 0
first_byte (byte ∷ text) = byte

clash :
    {s t : ShardInfo} → some first_shard ≡ some s → some second_shard ≡ some t → s.prefix ≢ t.prefix
clash a b e =
    let left = ap (λ (u : ShardInfo). first_byte u.prefix) (some-injective _ _ a) in
    let right = ap (λ (u : ShardInfo). first_byte u.prefix) (some-injective _ _ b) in
    let bad : 97 ≡ 98 = left ∙ ap first_byte e ∙ sym right in absurd (omega (arith, bad))

two_Distinct : Distinct both_shards
two_Distinct zero zero s t a b e = sym (some-injective _ _ a) ∙ some-injective _ _ b
two_Distinct zero (suc zero) s t a b e = absurd (clash a b e)
two_Distinct (suc zero) zero s t a b e = absurd (clash b a (sym e))
two_Distinct (suc zero) (suc zero) s t a b e = sym (some-injective _ _ a) ∙ some-injective _ _ b
two_Distinct zero (suc (suc j)) s t a b e = cc
two_Distinct (suc zero) (suc (suc j)) s t a b e = cc
two_Distinct (suc (suc i)) j s t a b e = cc

stub_untouched_bins-Good_example : Good last_byte serve source first_shard fetched_disk
stub_untouched_bins-Good_example =
    stub_untouched_bins-Good last_byte serve source size_of both_shards (0 ∷ []) 0 first_shard
      stubbed_disk two_Distinct refl refl refl fetched placed

fetch_bins-Honest_example :
    (n : ℕ) × (after : Disk) × (fetch_bins last_byte serve source true both_shards
        (0 ∷ 1 ∷ [])
        stubbed_disk
      ≡ ok (n, after))
fetch_bins-Honest_example =
    fetch_bins-Honest last_byte serve source true both_shards (0 ∷ 1 ∷ []) stubbed_disk
      ((first_shard, 1 ∷ 7 ∷ [], refl, refl, refl), ((second_shard, 9 ∷ [], refl, refl, refl), tt))

abbrev serve_zeros : Text → Result Text
serve_zeros name = ok (0 ∷ [])

zero-not_seven :
    (old : Text) → some (0 ∷ 0 ∷ []) ≡ some old → last_byte old ≢ first_shard.bin_blake2b
zero-not_seven old here e =
    let bad : 0 ≡ 7 =
      ap (λ text. first_byte (last_byte text)) (some-injective _ _ here) ∙ ap first_byte e in
    absurd (omega (arith, bad))

served-not_seven : last_byte (0 ∷ []) ≢ first_shard.bin_blake2b
served-not_seven e = let bad : 0 ≡ 7 = ap first_byte e in absurd (omega (arith, bad))

fetch_bin-refuses_example :
    fetch_bin last_byte serve_zeros source true first_shard stubbed_disk ≡ raise runtime_error
fetch_bin-refuses_example =
    fetch_bin-refuses last_byte serve_zeros source first_shard stubbed_disk (some (0 ∷ 0 ∷ []))
      (0 ∷ []) refl refl zero-not_seven refl served-not_seven

-- Paths lose their directories.
path_name_a_b : path_name (47 ∷ 97 ∷ 47 ∷ 98 ∷ []) ≡ 98 ∷ []
unfolding name_from
path_name_a_b = refl
