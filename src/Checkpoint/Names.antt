-- ===== src/Checkpoint/Names.antt =====
-- The names of checkpoint directories (src/pretrain/train/checkpoint.py), in ASCII.
use open_transformers.Prelude.{
  ℕ, zero, suc, ◌+◌, ◌/◌, ◌%◌, ◌^◌, List, [], ◌∷◌, ◌++◌, ltb, if◌then◌else◌,
}

abbrev pub Text : Type 0
Text = List ℕ

-- The decimal digits of a number below `10 ^ width`, with leading zeros.
unfoldable pub digits : ℕ → ℕ → Text
digits zero n = []
digits (suc width) n = (48 + n / 10 ^ width) ∷ digits width (n % 10 ^ width)

-- How many digits a number has; `n` is fuel enough.
unfoldable pub digit_count : ℕ → ℕ → ℕ
digit_count zero n = 1
digit_count (suc fuel) n = let rest = digit_count fuel (n / 10) in if ltb n 10 then 1 else suc rest

-- `f"step_{step:09d}"`.
unfoldable pub dir_name : ℕ → Text
dir_name step =
    115 ∷ 116 ∷ 101 ∷ 112 ∷ 95 ∷ []
    ++ (if ltb step (10 ^ 9) then digits 9 step else digits (digit_count step step) step)
