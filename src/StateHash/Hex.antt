-- ===== src/StateHash/Hex.antt =====
-- `bytes.hex` and `bytes.fromhex`, between which src/pretrain/train/state_hash.py hands a hash on, and
-- `_coerce_prev`, which takes the previous hash in either form.
use open_transformers.Prelude.{
  ℕ, ◌+◌, ◌-◌, ◌*◌, ◌/◌, ◌%◌, ◌<◌, ◌≡◌, refl, ap, Bool, false, ◌||◌, ◌&&◌, [], ◌∷◌, ◌++◌, Option,
  none, some, ltb, leb, ◌==◌, if◌then◌else◌, length, length-append, length-replicate, length-take,
  take, replicate, All, Result, ok, raise, value_error, ◌>>=◌, Bool-cases, inl, inr, ltb-false,
  ltb→lt, arith,
}
use open_transformers.Prelude.Slices.{take_of_length-le}
use open_transformers.StateHash.Tags.{Bytes}

-- The digits are the ASCII characters `0` to `9` and `a` to `f`.
abbrev pub hex_digit : ℕ → ℕ
hex_digit value = if ltb value 10 then 48 + value else 87 + value

unfoldable pub hex : Bytes → Bytes
hex [] = []
hex (byte ∷ bytes) = hex_digit (byte / 16) ∷ hex_digit (byte % 16) ∷ hex bytes

-- The value of a digit, in either case.
abbrev pub digit_value : ℕ → Option ℕ
digit_value c =
    if leb 48 c && leb c 57
    then some (c - 48)
    else if leb 97 c && leb c 102
    then some (c - 87)
    else if leb 65 c && leb c 70
    then some (c - 55)
    else none

-- ASCII white space, which `fromhex` skips between bytes.
abbrev pub is_space : ℕ → Bool
is_space c = c == 32 || (leb 9 c && leb c 13)

abbrev pub byte_of : Option ℕ → Option ℕ → Result ℕ
byte_of (some high) (some low) = ok (high * 16 + low)
byte_of (some high) none = raise value_error
byte_of none low = raise value_error

unfoldable pub from_hex : Bytes → Result Bytes
from_hex [] = ok []
from_hex (c ∷ []) = if is_space c then ok [] else raise value_error
from_hex (c ∷ d ∷ text) =
    let behind = from_hex (d ∷ text) in
    let rest = from_hex text in
    if is_space c
    then behind
    else (do byte ← byte_of (digit_value c) (digit_value d); bytes ← rest; ok (byte ∷ bytes))

-- The previous hash: none, a hexadecimal text, or bytes.
pub data PrevHash : Type 0 where
  no_hash : PrevHash
  hash_text hash_bytes : Bytes → PrevHash

abbrev pub fit : Bytes → Bytes
fit raw = if ltb (length raw) 32 then raw ++ replicate (32 - length raw) 0 else take 32 raw

unfoldable pub coerce_prev : PrevHash → Result Bytes
coerce_prev no_hash = ok (replicate 32 0)
coerce_prev (hash_text text) = do raw ← from_hex text; ok (fit raw)
coerce_prev (hash_bytes raw) = ok (fit raw)

digit_value-hex_digit : (v : ℕ) → v < 16 → digit_value (hex_digit v) ≡ some v
digit_value-hex_digit v h = ground arith

space-hex_digit : (v : ℕ) → v < 16 → is_space (hex_digit v) ≡ false
space-hex_digit v h = ground arith

from_hex-hex : (bytes : Bytes) → All (λ b. b < 256) bytes → from_hex (hex bytes) ≡ ok bytes
unfolding from_hex hex
from_hex-hex [] h = refl
from_hex-hex (b ∷ bytes) h =
    let high : b / 16 < 16 = omega (arith, h.0) in
    let low : b % 16 < 16 = omega arith in
    let whole : b / 16 * 16 + b % 16 ≡ b = omega arith in
    rw
      (
        space-hex_digit (b / 16) high,
        digit_value-hex_digit (b / 16) high,
        digit_value-hex_digit (b % 16) low,
        from_hex-hex bytes h.1,
        whole,
      )
      refl

pub length-fit : (raw : Bytes) → length (fit raw) ≡ 32
length-fit raw = elim (Bool-cases (ltb (length raw) 32)) [
  | inl short ↦
      let h = ltb→lt (length raw) 32 short in
      rw (short, length-append, length-replicate) (omega arith)
  | inr full ↦ let h = ltb-false (length raw) 32 full in rw (full, length-take) (omega arith)
]

-- A digest that was printed in hexadecimal is chained as the digest itself.
pub coerce_prev-hex :
    (digest : Bytes)
    → length digest ≡ 32
    → All (λ b. b < 256) digest
    → coerce_prev (hash_text (hex digest)) ≡ ok digest
unfolding coerce_prev
coerce_prev-hex digest size bytes =
    rw (from_hex-hex digest bytes, size) (ap ok (take_of_length-le 32 digest (omega arith)))
