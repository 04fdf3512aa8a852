-- ===== src/Prelude/Words.antt =====
-- Words of bytes, the lowest byte first.
use Prim.Native.Nat.{ℕ, zero, suc, ◌+◌, ◌*◌, ◌/◌, ◌%◌, ◌^◌, ◌<◌}
use mathlib.Core.Path.{◌≡◌, refl, ap}
use mathlib.Core.List.{List, [], ◌∷◌}
use native.Mathlib.Nat.{pow-succ'}
use native.Mathlib.Omega.{arith}
use open_transformers.Prelude.Lists.{length}

-- `n.to_bytes(count, "little")` of an `n` that fits.
unfoldable pub to_bytes : ℕ → ℕ → List ℕ
to_bytes zero n = []
to_bytes (suc count) n = n % 256 ∷ to_bytes count (n / 256)

-- `int.from_bytes(bytes, "little")`.
unfoldable pub from_bytes : List ℕ → ℕ
from_bytes [] = 0
from_bytes (byte ∷ bytes) = byte + 256 * from_bytes bytes

pub length-to_bytes : (count n : ℕ) → length (to_bytes count n) ≡ count
unfolding to_bytes
length-to_bytes zero n = refl
length-to_bytes (suc count) n = ap suc (length-to_bytes count (n / 256))

div-lt : (n bound : ℕ) → n < 256 * bound → n / 256 < bound
div-lt n bound fits = omega arith

pub from_bytes-to_bytes : (count n : ℕ) → n < 256 ^ count → from_bytes (to_bytes count n) ≡ n
unfolding to_bytes from_bytes
from_bytes-to_bytes zero n fits = omega arith
from_bytes-to_bytes (suc count) n fits =
    let high : from_bytes (to_bytes count (n / 256)) ≡ n / 256 =
      from_bytes-to_bytes count (n / 256)
        (div-lt n (256 ^ count) (rw (← pow-succ' 256 count) fits)) in
    omega (arith, high)
