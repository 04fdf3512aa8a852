-- ===== src/Replay/Carry.antt =====
-- The binary-carry fold of `_tree_push` and `_DiskTreeFold` (src/pretrain/cli/audit_replay.py) on
-- values that are added by a function, and why it is the sum over the binary blocks.
use native.Mathlib.Nat.{pow-succ'}
use open_transformers.Prelude.{
  ℕ, zero, suc, ◌+◌, ◌*◌, ◌^◌, ◌≤◌, ◌<◌, ◌≡◌, refl, sym, ap, ap₂, subst, ◌∙◌, List, [], ◌∷◌, ◌==◌,
  if◌then◌else◌, Option, none, some, ==_iff, arith, false, map, Bool-cases, inl, inr, ℕ_discrete,
}
use open_transformers.Reduce.Tree.{tree, join}

module _ {ℓ} {A : Type ℓ} (add : A → A → A) where
  -- A part meets the stack, whose top stands first: two entries of one level become one of the next.
  unfoldable pub carry : ℕ → A → List (ℕ × A) → List (ℕ × A)
  carry level part [] = (level, part) ∷ []
  carry level part ((top, lower) ∷ stack) =
      let rest = carry (suc level) (add lower part) stack in
      if top == level then rest else (level, part) ∷ (top, lower) ∷ stack

  unfoldable pub carry_all : (ℕ → A) → ℕ → List (ℕ × A)
  carry_all g zero = []
  carry_all g (suc n) = carry 0 (g n) (carry_all g n)

  -- The entries added from the bottom of the stack.
  unfoldable pub total : List (ℕ × A) → Option A
  total [] = none
  total ((level, x) ∷ below) = some (join add (total below) x)

  -- The stack covers the values before `stop`, each entry a balanced tree over a power of two of
  -- them, with levels from `low` on that grow towards the bottom.
  pub data Stacked (g : ℕ → A) : ℕ → ℕ → List (ℕ × A) → Type ℓ where
    nothing : {low : ℕ} → Stacked g low 0 []
    on_top :
        {low start : ℕ} {below : List (ℕ × A)} (e : ℕ)
        → low ≤ e
        → Stacked g (suc e) start below
        → Stacked g low (start + 2 ^ e) ((e, tree add (λ i. g (start + i)) e 0) ∷ below)

module _ {ℓ} {A : Type ℓ} (add : A → A → A) where
  -- A tree behind the first trees of its size is the tree over the values behind theirs.
  tree-shift :
      (g : ℕ → A) (start e j : ℕ)
      → tree add (λ i. g (start + i)) e j ≡ tree add (λ i. g (start + j * 2 ^ e + i)) e 0
  unfolding tree
  tree-shift g start zero j = let e : start + j ≡ start + j * 1 + 0 = omega arith in ap g e
  tree-shift g start (suc e) j =
      let p : 2 ^ suc e ≡ 2 * 2 ^ e = pow-succ' 2 e in
      let left : start + 2 * j * 2 ^ e ≡ start + j * 2 ^ suc e = rw p (omega arith) in
      let right : start + (2 * j + 1) * 2 ^ e ≡ start + j * 2 ^ suc e + 1 * 2 ^ e =
        rw p (omega arith) in
      let at = λ (s : ℕ). tree add (λ i. g (s + i)) e 0 in
      ap₂ add (tree-shift g start e (2 * j) ∙ ap at left) (
        tree-shift g start e (2 * j + 1)
        ∙ ap at right
        ∙ sym (tree-shift g (start + j * 2 ^ suc e) e 1))

  -- Two neighbours of one level.
  tree-join :
      (g : ℕ → A) (start e : ℕ)
      → add (tree add (λ i. g (start + i)) e 0) (tree add (λ i. g (start + 2 ^ e + i)) e 0)
        ≡ tree add (λ i. g (start + i)) (suc e) 0
  unfolding tree
  tree-join g start e =
      let one : start + 2 ^ e ≡ start + 1 * 2 ^ e = omega arith in
      ap (add (tree add (λ i. g (start + i)) e 0))
        (ap (λ (s : ℕ). tree add (λ i. g (s + i)) e 0) one ∙ sym (tree-shift g start e 1))

  Stacked-low :
      {g : ℕ → A} {low low' stop : ℕ} {stack : List (ℕ × A)}
      → Stacked add g low stop stack
      → low' ≤ low
      → Stacked add g low' stop stack
  Stacked-low nothing h = nothing
  Stacked-low (on_top e k below) h = on_top e (omega arith) below

  carry-same :
      (e : ℕ) (x y : A) (stack : List (ℕ × A))
      → carry add e y ((e, x) ∷ stack) ≡ carry add (suc e) (add x y) stack
  unfolding carry
  carry-same e x y stack = let same = (==_iff e e).1 refl in rw same

  carry-Stacked :
      (g : ℕ → A) {level start : ℕ} {stack : List (ℕ × A)}
      → Stacked add g level start stack
      → Stacked add g level
          (start + 2 ^ level)
          (carry add level (tree add (λ i. g (start + i)) level 0) stack)
  unfolding carry
  carry-Stacked g {level} nothing = on_top level (omega arith) nothing
  carry-Stacked g {level} (on_top {start} {below = stack} e k below) = elim (ℕ_discrete e level) [
    | yes same ↦
        let at = λ (s d : ℕ). tree add (λ i. g (s + i)) d 0 in
        let whole : start + 2 ^ suc e ≡ start + 2 ^ e + 2 ^ e = rw (pow-succ' 2 e) (omega arith) in
        let joined =
          carry-same e (at start e) (at (start + 2 ^ e) e) stack
          ∙ ap (λ x. carry add (suc e) x stack) (tree-join g start e) in
        subst
          (λ l.
            Stacked add g l (start + 2 ^ e + 2 ^ l)
              (carry add l (at (start + 2 ^ e) l) ((e, at start e) ∷ stack)))
          same (rw (joined, ← whole) (Stacked-low (carry-Stacked g below) (omega arith)))
    | no other ↦
        let differs : (e == level) ≡ false = ground arith in
        rw differs (on_top level (omega arith) (on_top e (omega arith) below))
  ]

  -- The stack behind `n` parts.
  pub carry_all-Stacked : (g : ℕ → A) (n : ℕ) → Stacked add g 0 n (carry_all add g n)
  unfolding carry_all tree
  carry_all-Stacked g zero = nothing
  carry_all-Stacked g (suc n) =
      let next : n + 1 ≡ suc n = omega arith in
      let one : n + 0 ≡ n = omega arith in
      rw (← next) (
        subst (λ x. Stacked add g 0 (n + 1) (carry add 0 (g x) (carry_all add g n))) one
          (carry-Stacked g (carry_all-Stacked g n)))

-- Behind a part, the stack is not empty.
module _ {ℓ} {A : Type ℓ} (add : A → A → A) where
  total-carry :
      (level : ℕ) (x : A) (stack : List (ℕ × A))
      → (sum : A) × (total add (carry add level x stack) ≡ some sum)
  unfolding carry total
  total-carry level x [] = (_, refl)
  total-carry level x ((top, y) ∷ stack) = elim (Bool-cases (top == level)) [
    | inl same ↦ rw same (total-carry (suc level) (add y x) stack)
    | inr other ↦ rw other (_, refl)
  ]

  pub total-some :
      (n : ℕ) (g : ℕ → A) → 0 < n → (sum : A) × (total add (carry_all add g n) ≡ some sum)
  unfolding carry_all
  total-some zero g pos = absurd (omega arith)
  total-some (suc n) g pos = total-carry 0 (g n) (carry_all add g n)

-- Values and their images under a map that keeps the addition go through the same stacks.
module _ {ℓ κ} {A : Type ℓ} {B : Type κ} (add : A → A → A) (add' : B → B → B) (φ : A → B)
    (keeps : (x y : A) → φ (add x y) ≡ add' (φ x) (φ y)) where
  abbrev images : List (ℕ × A) → List (ℕ × B)
  images stack = map (λ entry. (entry.0, φ entry.1)) stack

  carry-map :
      (level : ℕ) (x : A) (stack : List (ℕ × A))
      → carry add' level (φ x) (images stack) ≡ images (carry add level x stack)
  unfolding carry
  carry-map level x [] = refl
  carry-map level x ((top, y) ∷ stack) = elim (Bool-cases (top == level)) [
    | inl same ↦ rw (same, ← keeps y x) (carry-map (suc level) (add y x) stack)
    | inr other ↦ rw other refl
  ]

  carry_all-map : (g : ℕ → A) (n : ℕ) → carry_all add' (λ i. φ (g i)) n ≡ images (carry_all add g n)
  unfolding carry_all
  carry_all-map g zero = refl
  carry_all-map g (suc n) = rw (carry_all-map g n) (carry-map 0 (g n) (carry_all add g n))

  abbrev image : Option A → Option B
  image none = none
  image (some x) = some (φ x)

  join-map : (acc : Option A) (x : A) → join add' (image acc) (φ x) ≡ φ (join add acc x)
  unfolding join
  join-map none x = refl
  join-map (some acc) x = sym (keeps acc x)

  total-map : (stack : List (ℕ × A)) → total add' (images stack) ≡ image (total add stack)
  unfolding total
  total-map [] = refl
  total-map ((level, x) ∷ stack) = ap some (rw (total-map stack) (join-map (total add stack) x))

  -- The sum of the images is the image of the sum.
  pub total-carry_all-map :
      (g : ℕ → A) (n : ℕ) {sum : A}
      → total add (carry_all add g n) ≡ some sum
      → total add' (carry_all add' (λ i. φ (g i)) n) ≡ some (φ sum)
  total-carry_all-map g n e =
      ap (total add') (carry_all-map g n) ∙ total-map (carry_all add g n) ∙ ap image e
