-- ===== src/Replay/Paths.antt =====
-- The files that the replay spills (src/pretrain/cli/audit_replay.py): their names, in ASCII, and a disk
-- as what each name holds.
use native.Mathlib.Nat.{mod-lt, pow-suc, pow-succ', div-add-mod}
use open_transformers.Prelude.{
  ℕ, zero, suc, ◌+◌, ◌-◌, ◌*◌, ◌/◌, ◌%◌, ◌^◌, ◌≤◌, ◌<◌, ◌≡◌, ◌≢◌, refl, sym, ap, ◌∙◌, false, [],
  ◌∷◌, ◌++◌, ◌==◌, ltb, if◌then◌else◌, Bool-cases, inl, inr, arith, append_assoc,
}
use open_transformers.StateHash.Tags.{Bytes}
use open_transformers.Checkpoint.NameOrder.{power_pos}
use open_transformers.Checkpoint.Names.{digits, digit_count}

-- `f"fold_{self._seq}.pt"`.
unfoldable pub fold_path : ℕ → Bytes
fold_path seq =
    102 ∷ 111 ∷ 108 ∷ 100 ∷ 95 ∷ [] ++ (digits (digit_count seq seq) seq ++ 46 ∷ 112 ∷ 116 ∷ [])

-- `path.with_suffix(path.suffix + ".blake2b")`.
unfoldable pub digest_path : Bytes → Bytes
digest_path path = path ++ 46 ∷ 98 ∷ 108 ∷ 97 ∷ 107 ∷ 101 ∷ 50 ∷ 98 ∷ []

-- The text behind the first dot.
behind_dot : Bytes → Bytes
behind_dot [] = []
behind_dot (c ∷ text) = let rest = behind_dot text in if c == 46 then text else rest

-- The number that stands before a character that is no digit.
number_before : ℕ → Bytes → ℕ
number_before acc [] = acc
number_before acc (c ∷ text) =
    let rest = number_before (acc * 10 + (c - 48)) text in if ltb c 48 then acc else rest

drop_name : Bytes → Bytes
drop_name (a ∷ b ∷ c ∷ d ∷ e ∷ text) = text
drop_name text = []

number_before-digits :
    (acc width n : ℕ) (text : Bytes)
    → n < 10 ^ width
    → number_before acc (digits width n ++ 46 ∷ text) ≡ acc * 10 ^ width + n
unfolding digits number_before
number_before-digits acc zero n text h = omega arith
number_before-digits acc (suc width) n text h =
    let p = 10 ^ width in
    let small : n % p < p = mod-lt n (power_pos width) in
    let value : 48 + n / p - 48 ≡ n / p = omega arith in
    let big : ltb (48 + n / p) 48 ≡ false = ground arith in
    rw (big, number_before-digits (acc * 10 + (48 + n / p - 48)) width (n % p) text small)
      (rw (pow-succ' 10 width, value) (omega (arith, div-add-mod n p)))

behind_dot-digits : (width n : ℕ) (text : Bytes) → behind_dot (digits width n ++ 46 ∷ text) ≡ text
unfolding digits behind_dot
behind_dot-digits zero n text = refl
behind_dot-digits (suc width) n text =
    let p = 10 ^ width in
    let digit : (48 + n / p == 46) ≡ false = ground arith in
    rw (digit, behind_dot-digits width (n % p) text) refl

digit_count_bound : (fuel n : ℕ) → n ≤ fuel → n < 10 ^ digit_count fuel n
unfolding digit_count
digit_count_bound zero n h = omega arith
digit_count_bound (suc fuel) n h = elim (Bool-cases (ltb n 10)) [
  | inl small ↦ rw small (ground arith)
  | inr big ↦ rw big (rw pow-suc (ground (arith, digit_count_bound fuel (n / 10) (ground arith))))
]

fold_path_number : (seq : ℕ) → number_before 0 (drop_name (fold_path seq)) ≡ seq
unfolding fold_path drop_name
fold_path_number seq =
    number_before-digits 0 (digit_count seq seq) seq _ (digit_count_bound seq seq (omega arith))
    ∙ omega arith

-- Different numbers name different files.
pub fold_path-injective : (i j : ℕ) → fold_path i ≡ fold_path j → i ≡ j
fold_path-injective i j e =
    sym (fold_path_number i) ∙ ap (λ p. number_before 0 (drop_name p)) e ∙ fold_path_number j

fold_path_kind : (seq : ℕ) → behind_dot (fold_path seq) ≡ 112 ∷ 116 ∷ []
unfolding fold_path behind_dot
fold_path_kind seq = behind_dot-digits (digit_count seq seq) seq (112 ∷ 116 ∷ [])

digest_path_kind :
    (seq : ℕ)
    → behind_dot (digest_path (fold_path seq))
      ≡ 112 ∷ 116 ∷ 46 ∷ 98 ∷ 108 ∷ 97 ∷ 107 ∷ 101 ∷ 50 ∷ 98 ∷ []
unfolding digest_path fold_path behind_dot
digest_path_kind seq =
    rw (append_assoc (digits (digit_count seq seq) seq) (46 ∷ 112 ∷ 116 ∷ []) _)
      (behind_dot-digits (digit_count seq seq) seq _)

-- No digest is a spilled file, and different files have different digests.
pub fold_path-digest_path : (i j : ℕ) → fold_path i ≢ digest_path (fold_path j)
fold_path-digest_path i j e =
    let kinds = sym (fold_path_kind i) ∙ ap behind_dot e ∙ digest_path_kind j in cc

digest_path_number : (seq : ℕ) → number_before 0 (drop_name (digest_path (fold_path seq))) ≡ seq
unfolding digest_path fold_path drop_name
digest_path_number seq =
    rw (append_assoc (digits (digit_count seq seq) seq) (46 ∷ 112 ∷ 116 ∷ []) _) (
      number_before-digits 0 (digit_count seq seq) seq _ (digit_count_bound seq seq (omega arith))
      ∙ omega arith)

pub digest_path-injective :
    (i j : ℕ) → digest_path (fold_path i) ≡ digest_path (fold_path j) → i ≡ j
digest_path-injective i j e =
    sym (digest_path_number i) ∙ ap (λ p. number_before 0 (drop_name p)) e ∙ digest_path_number j
