-- ===== src/Fetch/Payloads.antt =====
-- The payloads that `_fetch_bins` of src/pretrain/data/fetch_interval.py leaves have the digests of the
-- manifest.
use mathlib.Core.List.{append_cancel_right}
use open_transformers.Prelude.{
  ℕ, ◌≡◌, ◌≢◌, refl, sym, ap, ◌∙◌, Bool, true, false, [], ◌∷◌, Option, none, some, length, Result,
  Error, ok, raise, raise_if, runtime_error, ◌>>◌, Bool-cases, Result-cases, inl, inr,
}
use open_transformers.Prelude.Booleans.{if-cases}
use open_transformers.Prelude.Disk.{
  Text, text_eq, text_eq-eq, Disk, set_file, set_file-same, set_file-other,
}
use open_transformers.Fetch.Shards.{
  ShardInfo, recorded, bin_path, object_name, mismatch, download, download_bin, keep_or_download,
  fetch_bin,
}

pub bin_path-injective : (a b : Text) → bin_path a ≡ bin_path b → a ≡ b
bin_path-injective a b e = append_cancel_right a b (46 ∷ 98 ∷ 105 ∷ 110 ∷ []) e

value_or {ℓ} : {A : Type ℓ} → A → Result A → A
value_or a (ok b) = b
value_or a (raise error) = a

pub ok-eq {ℓ} : {A : Type ℓ} {x y : A} → ok x ≡ ok y → x ≡ y
unfolding value_or
ok-eq {x} e = ap (value_or x) e

raise-not_ok {ℓ} : {A : Type ℓ} {error : Error} {x : A} → raise error ≢ ok x
raise-not_ok e = cc

-- Inversion of a guarded result.
raise_if-ok {ℓ} :
    {A : Type ℓ} (bad : Bool) (error : Error) {x y : A}
    → (raise_if bad error >> ok x) ≡ ok y
    → (bad ≡ false) × (x ≡ y)
raise_if-ok true error e = cc
raise_if-ok false error e = (refl, ok-eq e)

module _ (blake2b : Text → Text) (mirror : Text → Result Text) (basename : Text) where
  -- The payload has the digest of the manifest.
  abbrev pub Good : ShardInfo → Disk → Type 0
  Good shard disk =
      (content : Text) × (disk (bin_path shard.prefix) ≡ some content)
      × (blake2b content ≡ shard.bin_blake2b)

  pub match :
      (digest content : Text)
      → recorded digest ≡ true
      → mismatch blake2b mirror basename true digest content ≡ false
      → blake2b content ≡ digest
  match digest content known same = elim (Bool-cases (text_eq (blake2b content) digest)) [
    | inl e ↦ text_eq-eq (blake2b content) digest e
    | inr e ↦ let bad : true ≡ false = sym (rw (known, e) refl) ∙ same in cc
  ]

  pub download_bin-run :
      (verify : Bool) (shard : ShardInfo) (disk : Disk) (content : Text)
      → mirror (object_name basename (bin_path shard.prefix)) ≡ ok content
      → download_bin blake2b mirror basename verify shard disk ≡ (
          raise_if (mismatch blake2b mirror basename verify shard.bin_blake2b content) runtime_error
          >> ok (length content, set_file (bin_path shard.prefix) (some content) disk))
  unfolding download_bin download
  download_bin-run verify shard disk content e =
      rw (e, set_file-same (bin_path shard.prefix) (some content) disk) refl

  download_bin-raise :
      (verify : Bool) (shard : ShardInfo) (disk : Disk) {error : Error}
      → mirror (object_name basename (bin_path shard.prefix)) ≡ raise error
      → download_bin blake2b mirror basename verify shard disk ≡ raise error
  unfolding download_bin download
  download_bin-raise verify shard disk e = rw e refl

  download_bin-ok :
      (verify : Bool) (shard : ShardInfo) (disk : Disk) {n : ℕ} {after : Disk}
      → download_bin blake2b mirror basename verify shard disk ≡ ok (n, after)
      → (content : Text) × (mismatch blake2b mirror basename verify shard.bin_blake2b content
          ≡ false)
        × (after ≡ set_file (bin_path shard.prefix) (some content) disk)
  unfolding download_bin download
  download_bin-ok verify shard disk done =
      elim (Result-cases (mirror (object_name basename (bin_path shard.prefix)))) [
        | inl (content, e) ↦
            let (fine, same) =
              raise_if-ok (mismatch blake2b mirror basename verify shard.bin_blake2b content)
                runtime_error (sym (download_bin-run verify shard disk content e) ∙ done) in
            (content, fine, sym (ap (λ made. made.1) same))
        | inr (error, e) ↦
            absurd (raise-not_ok (sym (download_bin-raise verify shard disk e) ∙ done))
      ]

  download_bin-Good :
      (shard : ShardInfo) (disk : Disk) {n : ℕ} {after : Disk}
      → recorded shard.bin_blake2b ≡ true
      → download_bin blake2b mirror basename true shard disk ≡ ok (n, after)
      → Good shard after
  download_bin-Good shard disk known done =
      let (content, fine, made) = download_bin-ok true shard disk done in
      (
        content,
        ap (λ d. d (bin_path shard.prefix)) made
            ∙ set_file-same (bin_path shard.prefix) (some content) disk,
        match shard.bin_blake2b content known fine,
      )

  download_bin-other :
      (verify : Bool) (shard : ShardInfo) (disk : Disk) (other : Text) {n : ℕ} {after : Disk}
      → other ≢ bin_path shard.prefix
      → download_bin blake2b mirror basename verify shard disk ≡ ok (n, after)
      → after other ≡ disk other
  download_bin-other verify shard disk other apart done =
      let (content, fine, made) = download_bin-ok verify shard disk done in
      ap (λ d. d other) made
      ∙ set_file-other (bin_path shard.prefix) other (some content) disk apart

  keep_or_download-Good :
      (shard : ShardInfo) (disk : Disk) (found : Option Text) {n : ℕ} {after : Disk}
      → disk (bin_path shard.prefix) ≡ found
      → recorded shard.bin_blake2b ≡ true
      → keep_or_download blake2b mirror basename true shard disk found ≡ ok (n, after)
      → Good shard after
  unfolding keep_or_download
  keep_or_download-Good shard disk none here known done = download_bin-Good shard disk known done
  keep_or_download-Good shard disk (some content) here known done =
      elim (if-cases (mismatch blake2b mirror basename true shard.bin_blake2b content) done) [
        | inl (bad, again) ↦ download_bin-Good shard _ known again
        | inr (fine, kept) ↦ (
          content,
          ap (λ (d : Disk). d (bin_path shard.prefix)) (sym (ap (λ made. made.1) (ok-eq kept)))
              ∙ here,
          match shard.bin_blake2b content known fine,
        )
      ]

  -- A shard's fetch leaves a payload with the digest, and every other file as it was.
  pub fetch_bin-Good :
      (shard : ShardInfo) (disk : Disk) {n : ℕ} {after : Disk}
      → recorded shard.bin_blake2b ≡ true
      → fetch_bin blake2b mirror basename true shard disk ≡ ok (n, after)
      → Good shard after
  unfolding fetch_bin
  fetch_bin-Good shard disk known done =
      keep_or_download-Good shard disk (disk (bin_path shard.prefix)) refl known done

  keep_or_download-other :
      (verify : Bool) (shard : ShardInfo) (disk : Disk) (found : Option Text) (other : Text) {n : ℕ}
      {after : Disk}
      → other ≢ bin_path shard.prefix
      → keep_or_download blake2b mirror basename verify shard disk found ≡ ok (n, after)
      → after other ≡ disk other
  unfolding keep_or_download
  keep_or_download-other verify shard disk none other apart done =
      download_bin-other verify shard disk other apart done
  keep_or_download-other verify shard disk (some content) other apart done =
      elim (if-cases (mismatch blake2b mirror basename verify shard.bin_blake2b content) done) [
        | inl (bad, again) ↦
            download_bin-other verify shard _ other apart again
            ∙ set_file-other (bin_path shard.prefix) other none disk apart
        | inr (fine, kept) ↦ ap (λ (d : Disk). d other) (sym (ap (λ made. made.1) (ok-eq kept)))
      ]

  pub fetch_bin-other :
      (verify : Bool) (shard : ShardInfo) (disk : Disk) (other : Text) {n : ℕ} {after : Disk}
      → other ≢ bin_path shard.prefix
      → fetch_bin blake2b mirror basename verify shard disk ≡ ok (n, after)
      → after other ≡ disk other
  unfolding fetch_bin
  fetch_bin-other verify shard disk other apart done =
      keep_or_download-other verify shard disk (disk (bin_path shard.prefix)) other apart done
