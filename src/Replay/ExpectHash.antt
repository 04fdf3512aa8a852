-- ===== src/Replay/ExpectHash.antt =====
-- The expected hash of an audit: `_looks_like_digest`, `_read_digest_file` and `_resolve_expect_hash` of
-- src/pretrain/cli/audit_replay.py, on ASCII.
use open_transformers.Prelude.{
  ℕ, ◌*◌, ◌/◌, ◌%◌, ◌<◌, ◌≡◌, refl, ap, subst, ◌∙◌, Bool, true, false, ◌&&◌, ◌||◌, not, [], ◌∷◌,
  ◌++◌, Option, none, some, leb, ◌==◌, if◌then◌else◌, Result, Error, ok, raise, value_error,
  file_not_found_error, ◌>>=◌, All, length, length-map, arith, inl, inr, ==_iff, >>=-eq-ok,
}
use open_transformers.Prelude.Booleans.{if-cases, and-eq_true}
use open_transformers.Prelude.Disk.{Text, text_eq, Disk, read_file}
use open_transformers.StateHash.Hex.{hex, hex_digit}
use open_transformers.Replay.Spill.{lower, lower_char, strip, lstrip, rstrip}
use open_transformers.Replay.Verified.{strip-hex, lstrip-hex, hex_digit_solid}

-- `[0-9a-fA-F]`.
abbrev pub is_hex : ℕ → Bool
is_hex c = (leb 48 c && leb c 57) || ((leb 97 c && leb c 102) || (leb 65 c && leb c 70))

abbrev pub all_hex : Text → Bool
all_hex [] = true
all_hex (c ∷ text) = let rest = all_hex text in is_hex c && rest

-- `re.fullmatch(r"[0-9a-fA-F]+", s)`.
abbrev pub matches_hex : Text → Bool
matches_hex text = not (text_eq text []) && all_hex text

unfoldable pub looks_like_digest : Text → Bool
looks_like_digest text = length text == 64 && matches_hex text

unfoldable pub read_digest_file : Text → Disk → Result Text
read_digest_file path disk = do
  content ← read_file (disk path)
  let stripped = strip content
  if looks_like_digest stripped then ok (lower stripped) else raise value_error

-- `is_file` is the presence on the disk.
abbrev pub is_file : Option Text → Bool
is_file none = false
is_file (some content) = true

unfoldable pub resolve_expect_hash : Text → Disk → Result Text
resolve_expect_hash expect_hash disk =
    let text = strip expect_hash in
    let missing = if matches_hex text then raise value_error else raise file_not_found_error in
    if looks_like_digest text
    then ok (lower text)
    else if is_file (disk expect_hash)
    then read_digest_file expect_hash disk
    else missing

-- A digit of a printed digest.
abbrev pub is_lower_hex : ℕ → Bool
is_lower_hex c = (leb 48 c && leb c 57) || (leb 97 c && leb c 102)

is_lower_hex-lower_char : (c : ℕ) → is_hex c ≡ true → is_lower_hex (lower_char c) ≡ true
is_lower_hex-lower_char c h = ground arith

All-lower_hex : (text : Text) → all_hex text ≡ true → All (λ c. is_lower_hex c ≡ true) (lower text)
All-lower_hex [] h = tt
All-lower_hex (c ∷ text) h =
    let (first, rest) = and-eq_true (is_hex c) (all_hex text) h in
    (is_lower_hex-lower_char c first, All-lower_hex text rest)

-- The text of a digest of 32 bytes.
abbrev pub Canonical : Text → Type 0
Canonical text = (length text ≡ 64) × All (λ c. is_lower_hex c ≡ true) text

lower-Canonical : (text : Text) → looks_like_digest text ≡ true → Canonical (lower text)
unfolding looks_like_digest
lower-Canonical text h =
    let (size, matched) = and-eq_true (length text == 64) (matches_hex text) h in
    let (some_text, digits) = and-eq_true (not (text_eq text [])) (all_hex text) matched in
    (length-map text lower_char ∙ (==_iff (length text) 64).0 size, All-lower_hex text digits)

ok-text_eq : (a b : Text) → ok a ≡ ok b → a ≡ b
ok-text_eq a b e = cc

raise-not_text : {error : Error} {a : Text} → raise error ≡ ok a → Canonical a
raise-not_text e = cc

checked-Canonical :
    (text found : Text)
    → (if looks_like_digest text then ok (lower text) else raise value_error) ≡ ok found
    → Canonical found
checked-Canonical text found e = elim (if-cases (looks_like_digest text) e) [
  | inl (fits, same) ↦
      subst Canonical (ok-text_eq (lower text) found same) (lower-Canonical text fits)
  | inr (_, failed) ↦ raise-not_text failed
]

read_digest_file-Canonical :
    (path : Text) (disk : Disk) (found : Text)
    → read_digest_file path disk ≡ ok found
    → Canonical found
unfolding read_digest_file
read_digest_file-Canonical path disk found e =
    let (content, read, rest) = >>=-eq-ok (read_file (disk path)) _ e in
    checked-Canonical (strip content) found rest

-- Whatever the option and the file that it may name hold, an expected hash that is resolved is the text
-- of a digest of 32 bytes: 64 hexadecimal digits, the letters in lower case.
pub resolve_expect_hash-Canonical :
    (expect_hash : Text) (disk : Disk) (found : Text)
    → resolve_expect_hash expect_hash disk ≡ ok found
    → Canonical found
unfolding resolve_expect_hash
resolve_expect_hash-Canonical expect_hash disk found e =
    let text = strip expect_hash in
    elim (if-cases (looks_like_digest text) e) [
      | inl (fits, same) ↦
          subst Canonical (ok-text_eq (lower text) found same) (lower-Canonical text fits)
      | inr (_, other) ↦ elim (if-cases (is_file (disk expect_hash)) other) [
        | inl (_, read) ↦ read_digest_file-Canonical expect_hash disk found read
        | inr (_, missing) ↦ elim (if-cases (matches_hex text) missing) [
          | inl (_, failed) ↦ raise-not_text failed
          | inr (_, failed) ↦ raise-not_text failed
        ]
      ]
    ]

lower-hex_digit : (v : ℕ) → lower_char (hex_digit v) ≡ hex_digit v
lower-hex_digit v = ground arith

lower-hex : (bytes : Text) → lower (hex bytes) ≡ hex bytes
unfolding hex
lower-hex [] = refl
lower-hex (b ∷ bytes) =
    rw (lower-hex_digit (b / 16), lower-hex_digit (b % 16), lower-hex bytes) refl

is_hex-hex_digit : (v : ℕ) → v < 16 → is_hex (hex_digit v) ≡ true
is_hex-hex_digit v h = ground arith

all_hex-hex : (bytes : Text) → All (λ b. b < 256) bytes → all_hex (hex bytes) ≡ true
unfolding hex
all_hex-hex [] h = refl
all_hex-hex (b ∷ bytes) h =
    let high : b / 16 < 16 = omega (arith, h.0) in
    let low : b % 16 < 16 = omega arith in
    rw (is_hex-hex_digit (b / 16) high, is_hex-hex_digit (b % 16) low, all_hex-hex bytes h.1) refl

length-hex : (bytes : Text) → length (hex bytes) ≡ 2 * length bytes
unfolding hex
length-hex [] = refl
length-hex (b ∷ bytes) = omega (arith, length-hex bytes)

long_text : (text : Text) → length text ≡ 64 → text_eq text [] ≡ false
long_text [] size = absurd (omega (arith, size))
long_text (c ∷ text) size = refl

looks_like_digest-hex :
    (digest : Text)
    → length digest ≡ 32
    → All (λ b. b < 256) digest
    → looks_like_digest (hex digest) ≡ true
unfolding looks_like_digest
looks_like_digest-hex digest size bytes =
    let long : length (hex digest) ≡ 64 = omega (arith, length-hex digest) in
    rw
      (
        (==_iff (length (hex digest)) 64).1 long,
        long_text (hex digest) long,
        all_hex-hex digest bytes,
      )
      refl

-- A newline behind a printed digest goes.
rstrip-newline : (bytes : Text) → rstrip (hex bytes ++ 10 ∷ []) ≡ hex bytes
unfolding rstrip hex
rstrip-newline [] = refl
rstrip-newline (b ∷ bytes) =
    rw (hex_digit_solid (b / 16), hex_digit_solid (b % 16), rstrip-newline bytes) refl

strip-newline : (bytes : Text) → strip (hex bytes ++ 10 ∷ []) ≡ hex bytes
unfolding strip
strip-newline bytes = ap lstrip (rstrip-newline bytes) ∙ lstrip-hex bytes

-- A digest of 32 bytes that was printed is resolved to itself, from the option and from a file that holds
-- it in a line, whose name does not look like a digest.
pub resolve_expect_hash-hex :
    (digest path : Text) (disk : Disk)
    → length digest ≡ 32
    → All (λ b. b < 256) digest
    → looks_like_digest (strip path) ≡ false
    → disk path ≡ some (hex digest ++ 10 ∷ [])
    → (resolve_expect_hash (hex digest) disk ≡ ok (hex digest))
      × (resolve_expect_hash path disk ≡ ok (hex digest))
unfolding resolve_expect_hash read_digest_file
resolve_expect_hash-hex digest path disk size bytes name here =
    let fits = looks_like_digest-hex digest size bytes in
    (
      rw (strip-hex digest, fits, lower-hex digest) refl,
      rw (name, here, strip-newline digest, fits, lower-hex digest) refl,
    )
