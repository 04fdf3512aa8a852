-- ===== src/Checkpoint/NameOrder.antt =====
-- The names of checkpoint directories (src/pretrain/train/checkpoint.py) sort as their steps do.
use native.Mathlib.Nat.{mod-lt, mul-le-mul_left, mul-suc, div-add-mod}
use open_transformers.Prelude.{
  ℕ, zero, suc, ◌+◌, ◌*◌, ◌/◌, ◌%◌, ◌^◌, ◌<◌, ◌≤◌, ◌≡◌, ap₂, ◌∙◌, Bool, true, false, leb, ltb,
  lt→ltb, le→ltb-false, if◌then◌else◌, dec_lt, arith,
}
use open_transformers.StateHash.Sorted.{text_le}
use open_transformers.Checkpoint.Names.{digits, dir_name}

below : (p q q' r r' : ℕ) → q < q' → r < p → p * q + r < p * q' + r'
below p q q' r r' less small =
    let more : p * suc q ≤ p * q' = mul-le-mul_left p less in
    let next : p * suc q ≡ p * q + p = mul-suc p q in omega (arith, more, next, small)

-- The order of two numbers by quotient and remainder.
leb-div_mod :
    (p qa ra qb rb : ℕ)
    → ra < p
    → rb < p
    → (if ltb qa qb then true else if ltb qb qa then false else leb ra rb)
      ≡ leb (p * qa + ra) (p * qb + rb)
leb-div_mod p qa ra qb rb la lb = elim (dec_lt qa qb) [
  | yes less ↦ let whole = below p qa qb ra rb less la in rw (lt→ltb qa qb less) (ground arith)
  | no not_less ↦ elim (dec_lt qb qa) [
    | yes more ↦
        let whole = below p qb qa rb ra more lb in
        rw (le→ltb-false qa qb (omega arith), lt→ltb qb qa more) (ground arith)
    | no not_more ↦
        let same : qa ≡ qb = omega arith in
        rw (same, le→ltb-false qb qb (omega arith)) (ground arith)
  ]
]

head-eq :
    (c d : ℕ) (rest : Bool)
    → (if ltb (48 + c) (48 + d) then true else if ltb (48 + d) (48 + c) then false else rest)
      ≡ (if ltb c d then true else if ltb d c then false else rest)
head-eq c d rest = ground arith

pub power_pos : (width : ℕ) → 0 < 10 ^ width
power_pos zero = omega arith
power_pos (suc width) = omega (arith, power_pos width)

text_le-digits :
    (width a b : ℕ)
    → a < 10 ^ width
    → b < 10 ^ width
    → text_le (digits width a) (digits width b) ≡ leb a b
unfolding digits
text_le-digits zero a b ha hb = ground arith
text_le-digits (suc width) a b ha hb =
    let p = 10 ^ width in
    let pos : 0 < p = power_pos width in
    rw
      (
        head-eq (a / p) (b / p) (text_le (digits width (a % p)) (digits width (b % p))),
        text_le-digits width (a % p) (b % p) (mod-lt a pos) (mod-lt b pos),
      )
      (leb-div_mod p (a / p) (a % p) (b / p) (b % p) (mod-lt a pos) (mod-lt b pos)
        ∙ ap₂ leb (div-add-mod a p) (div-add-mod b p))

-- Below 10 ^ 9, names sort as steps do.
pub text_le-dir_name :
    (a b : ℕ) → a < 10 ^ 9 → b < 10 ^ 9 → text_le (dir_name a) (dir_name b) ≡ leb a b
unfolding dir_name
text_le-dir_name a b ha hb =
    rw (lt→ltb a (10 ^ 9) ha, lt→ltb b (10 ^ 9) hb) (text_le-digits 9 a b ha hb)
