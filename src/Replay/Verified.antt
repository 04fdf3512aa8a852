-- ===== src/Replay/Verified.antt =====
-- A spilled payload is read back as it was, and one that was changed is refused
-- (src/pretrain/cli/audit_replay.py).
use open_transformers.Prelude.{
  ℕ, ◌+◌, ◌/◌, ◌%◌, ◌≡◌, ◌≢◌, refl, sym, ap, ap₂, ◌∙◌, true, false, not, [], ◌∷◌, Option, none,
  some, Bool-cases, inl, inr, ok, raise, raise_if, spill_corruption, ◌>>◌, arith, length,
  length-append,
}
use open_transformers.StateHash.Tags.{Bytes}
use open_transformers.StateHash.Feed.{Hashing}
use open_transformers.StateHash.Hex.{hex, hex_digit, is_space}
use open_transformers.Prelude.Disk.{
  text_eq, text_eq_refl, text_eq-eq, Disk, set_file, set_file-same, set_file-other,
}
use open_transformers.Replay.Paths.{digest_path}
use open_transformers.Replay.Spill.{
  Payload, Storage, spill_verify_enabled, rstrip, lstrip, strip, feed_payload, digest_payload,
  save_verified, check_digest, load_verified,
}

pub hex_digit_solid : (v : ℕ) → is_space (hex_digit v) ≡ false
hex_digit_solid v = ground arith

pub rstrip-hex : (bytes : Bytes) → rstrip (hex bytes) ≡ hex bytes
unfolding rstrip hex
rstrip-hex [] = refl
rstrip-hex (b ∷ bytes) =
    rw (hex_digit_solid (b / 16), hex_digit_solid (b % 16), rstrip-hex bytes) refl

pub lstrip-hex : (bytes : Bytes) → lstrip (hex bytes) ≡ hex bytes
unfolding lstrip hex
lstrip-hex [] = refl
lstrip-hex (b ∷ bytes) = rw (hex_digit_solid (b / 16)) refl

pub strip-hex : (bytes : Bytes) → strip (hex bytes) ≡ hex bytes
unfolding strip
strip-hex bytes = ap lstrip (rstrip-hex bytes) ∙ lstrip-hex bytes

hex_digit-injective : (v w : ℕ) → hex_digit v ≡ hex_digit w → v ≡ w
hex_digit-injective v w e = ground arith

pub hex-injective : (xs ys : Bytes) → hex xs ≡ hex ys → xs ≡ ys
unfolding hex
hex-injective [] [] e = refl
hex-injective [] (y ∷ ys) e = cc
hex-injective (x ∷ xs) [] e = cc
hex-injective (x ∷ xs) (y ∷ ys) e =
    let high = hex_digit-injective (x / 16) (y / 16) cc in
    let low = hex_digit-injective (x % 16) (y % 16) cc in
    let same : x ≡ y = omega arith in ap₂ (λ v vs. v ∷ vs) same (hex-injective xs ys cc)

-- A digest stands beside its file.
digest_path_apart : (path : Bytes) → path ≢ digest_path path
unfolding digest_path
digest_path_apart path e =
    let sizes : length path ≡ length path + 8 = ap length e ∙ length-append path _ in
    absurd (omega arith)

module _ (hashing : Hashing) (storage : Storage) (env : Option Bytes) where
  -- What stands on the disk behind a save.
  save_verified-file :
      (payload : Payload) (path : Bytes) (disk : Disk)
      → save_verified hashing storage env payload path disk path ≡ some (storage.save payload)
  unfolding save_verified
  save_verified-file payload path disk = elim (Bool-cases (spill_verify_enabled env)) [
    | inl on ↦
        rw
          (
            on,
            set_file-other (digest_path path) path (some (digest_payload hashing payload))
                (set_file path (some (storage.save payload)) disk) (digest_path_apart path),
          )
          (set_file-same path (some (storage.save payload)) disk)
    | inr off ↦ rw off (set_file-same path (some (storage.save payload)) disk)
  ]

  save_verified-sidecar :
      (payload : Payload) (path : Bytes) (disk : Disk)
      → spill_verify_enabled env ≡ true
      → save_verified hashing storage env payload path disk (digest_path path)
        ≡ some (digest_payload hashing payload)
  unfolding save_verified
  save_verified-sidecar payload path disk on = rw on (
      set_file-same (digest_path path) (some (digest_payload hashing payload))
        (set_file path (some (storage.save payload)) disk))

  check_digest-off :
      (want : Option Bytes) (payload : Payload)
      → spill_verify_enabled env ≡ false
      → check_digest hashing storage env want payload ≡ ok tt
  unfolding check_digest
  check_digest-off none payload off = refl
  check_digest-off (some want) payload off = rw off refl

  -- The digest of `saved` beside the payload that was loaded.
  check_digest-compare :
      (saved payload : Payload)
      → spill_verify_enabled env ≡ true
      → check_digest hashing storage env (some (digest_payload hashing saved)) payload
        ≡ raise_if
            (not (text_eq (digest_payload hashing payload) (digest_payload hashing saved)))
            spill_corruption
  unfolding check_digest digest_payload
  check_digest-compare saved payload on =
      rw (on, strip-hex (hashing.blake2b (feed_payload hashing saved))) refl

  check_digest-saved :
      (payload : Payload) (path : Bytes) (disk : Disk)
      → check_digest hashing storage env
          (save_verified hashing storage env payload path disk (digest_path path))
          payload
        ≡ ok tt
  check_digest-saved payload path disk = elim (Bool-cases (spill_verify_enabled env)) [
    | inl on ↦
        rw
          (
            save_verified-sidecar payload path disk on,
            check_digest-compare payload payload on,
            text_eq_refl (digest_payload hashing payload),
          )
          refl
    | inr off ↦ check_digest-off _ payload off
  ]

  -- A payload that was saved is loaded as it was, with the verification on or off.
  pub load_verified-save_verified :
      (payload : Payload) (path : Bytes) (disk : Disk)
      → load_verified hashing storage env path (save_verified hashing storage env payload path disk)
        ≡ ok payload
  unfolding load_verified
  load_verified-save_verified payload path disk =
      rw
        (
          save_verified-file payload path disk,
          storage.load-save payload,
          check_digest-saved payload path disk,
        )
        refl

  -- The disk on which a saved file's bytes have changed.
  abbrev pub damaged : Payload → Bytes → Bytes → Disk → Disk
  damaged saved path content disk =
      set_file path (some content) (save_verified hashing storage env saved path disk)

  pub load_verified-damaged :
      (saved read : Payload) (path content : Bytes) (disk : Disk)
      → spill_verify_enabled env ≡ true
      → storage.load content ≡ ok read
      → load_verified hashing storage env path (damaged saved path content disk) ≡ (
          raise_if
            (not (text_eq (digest_payload hashing read) (digest_payload hashing saved)))
            spill_corruption
          >> ok read)
  unfolding load_verified
  load_verified-damaged saved read path content disk on loaded =
      let after = save_verified hashing storage env saved path disk in
      rw
        (
          set_file-same path (some content) after,
          loaded,
          set_file-other path (digest_path path) (some content) after
              (λ e. digest_path_apart path (sym e)),
          save_verified-sidecar saved path disk on,
          check_digest-compare saved read on,
        )
        refl

  -- Where the verification is on, a file whose bytes have changed so that another digest belongs to
  -- what they load to is refused.
  pub load_verified-refuses :
      (saved read : Payload) (path content : Bytes) (disk : Disk)
      → spill_verify_enabled env ≡ true
      → storage.load content ≡ ok read
      → digest_payload hashing read ≢ digest_payload hashing saved
      → load_verified hashing storage env path (damaged saved path content disk)
        ≡ raise spill_corruption
  load_verified-refuses saved read path content disk on loaded differs =
      elim (Bool-cases (text_eq (digest_payload hashing read) (digest_payload hashing saved))) [
        | inl same ↦ absurd (differs (text_eq-eq _ _ same))
        | inr other ↦ load_verified-damaged saved read path content disk on loaded ∙ rw other refl
      ]
