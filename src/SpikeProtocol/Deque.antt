-- ===== src/SpikeProtocol/Deque.antt =====
-- The deque of src/pretrain/train/spike_protocol.py as a list: what its `while` loop drops from an
-- ascending history, and which calls of `record_skip` are fresh events.
use open_transformers.Prelude.{
  ℕ, zero, suc, ◌+◌, ◌-◌, ◌≤◌, ◌≡◌, refl, List, [], ◌∷◌, ◌++◌, ltb, leb, keep, keep-append, All,
  All-append, All-keep, Bool-cases, Bool, ltb-false, ap, inl, inr, arith, ◌∙◌,
}
use open_transformers.SpikeProtocol.{pop_expired}

abbrev pub Ascending : List ℕ → Type 0
Ascending [] = Unit
Ascending (x ∷ xs) = All (λ y. x ≤ y) xs × Ascending xs

-- The last item, or 0.
abbrev pub latest : List ℕ → ℕ
latest [] = 0
latest (x ∷ []) = x
latest (x ∷ y ∷ xs) = latest (y ∷ xs)

-- Of a history of events, those at most `window` steps before the last.
unfoldable pub in_window : ℕ → List ℕ → List ℕ
in_window window events = keep (λ s. leb (latest events) (s + window)) events

-- Of the calls of `record_skip`, those outside a cooldown: of `wait + 1` calls the last, and from
-- there every `every`-th.
unfoldable pub fresh : ℕ → ℕ → List ℕ → List ℕ
fresh every wait [] = []
fresh every zero (step ∷ steps) = step ∷ fresh every (every - 1) steps
fresh every (suc wait) (step ∷ steps) = fresh every wait steps

-- The calls that the cooldown still takes behind them.
unfoldable pub waiting : ℕ → ℕ → List ℕ → ℕ
waiting every wait [] = wait
waiting every zero (step ∷ steps) = waiting every (every - 1) steps
waiting every (suc wait) (step ∷ steps) = waiting every wait steps

latest-append : (xs : List ℕ) (s : ℕ) → latest (xs ++ s ∷ []) ≡ s
latest-append [] s = refl
latest-append (x ∷ []) s = refl
latest-append (x ∷ y ∷ xs) s = latest-append (y ∷ xs) s

All-latest : (xs : List ℕ) (s : ℕ) → All (λ x. x ≤ s) xs → latest xs ≤ s
All-latest [] s h = omega arith
All-latest (x ∷ []) s h = h.0
All-latest (x ∷ y ∷ xs) s h = All-latest (y ∷ xs) s h.1

-- On an ascending deque, what `popleft` leaves is what the cutoff admits.
keep-All : (w s : ℕ) (xs : List ℕ) → All (λ x. s ≤ x + w) xs → keep (λ x. leb s (x + w)) xs ≡ xs
keep-All w s [] h = refl
keep-All w s (x ∷ xs) h = ground (arith, keep-All w s xs h.1)

All-mono : (w s x : ℕ) (xs : List ℕ) → s ≤ x + w → All (λ y. x ≤ y) xs → All (λ y. s ≤ y + w) xs
All-mono w s x [] h k = tt
All-mono w s x (y ∷ xs) h k = (omega arith, All-mono w s x xs h k.1)

pop_expired-keep :
    (w s : ℕ) (xs : List ℕ) → Ascending xs → pop_expired w s xs ≡ keep (λ x. leb s (x + w)) xs
unfolding pop_expired
pop_expired-keep w s [] h = refl
pop_expired-keep w s (x ∷ xs) h = elim (Bool-cases (ltb (x + w) s)) [
  | inl out ↦ rw out (pop_expired-keep w s xs h.1 ∙ ground arith)
  | inr stays ↦
      let le : s ≤ x + w = ltb-false (x + w) s stays in
      rw stays (ground (arith, keep-All w s xs (All-mono w s x xs le h.0)))
]

Ascending-keep : (p : ℕ → Bool) (xs : List ℕ) → Ascending xs → Ascending (keep p xs)
Ascending-keep p [] h = tt
Ascending-keep p (x ∷ xs) h = elim (Bool-cases (p x)) [
  | inl e ↦ rw e (All-keep (λ y. x ≤ y) p xs h.0, Ascending-keep p xs h.1)
  | inr e ↦ rw e (Ascending-keep p xs h.1)
]

pub Ascending-append :
    (xs : List ℕ) (s : ℕ) → Ascending xs → All (λ x. x ≤ s) xs → Ascending (xs ++ s ∷ [])
Ascending-append [] s h k = (tt, tt)
Ascending-append (x ∷ xs) s h k =
    (All-append (λ y. x ≤ y) xs (s ∷ []) h.0 (k.0, tt), Ascending-append xs s h.1 k.1)

-- A later cutoff admits nothing that an earlier one has dropped.
keep_later :
    (w l s : ℕ) (xs : List ℕ)
    → l ≤ s
    → keep (λ x. leb s (x + w)) (keep (λ x. leb l (x + w)) xs) ≡ keep (λ x. leb s (x + w)) xs
keep_later w l s [] h = refl
keep_later w l s (x ∷ xs) h = ground (arith, keep_later w l s xs h)

-- An event that is appended and the window that moves with it.
pub pop_expired-in_window :
    (w s : ℕ) (events : List ℕ)
    → Ascending events
    → All (λ x. x ≤ s) events
    → pop_expired w s (in_window w events ++ s ∷ []) ≡ in_window w (events ++ s ∷ [])
unfolding in_window
pop_expired-in_window w s events h k =
    let p = λ (x : ℕ). leb (latest events) (x + w) in
    pop_expired-keep w s (keep p events ++ s ∷ []) (
      Ascending-append (keep p events) s (Ascending-keep p events h)
        (All-keep (λ x. x ≤ s) p events k))
    ∙ rw (latest-append events s, keep-append, keep-append)
        (ap (λ l. l ++ keep (λ x. leb s (x + w)) (s ∷ []))
          (keep_later w (latest events) s events (All-latest events s k)))

pub All-later :
    (events : List ℕ) (s : ℕ) (steps : List ℕ)
    → All (λ s'. All (λ x. x ≤ s') events) steps
    → All (λ s'. s ≤ s') steps
    → All (λ s'. All (λ x. x ≤ s') (events ++ s ∷ [])) steps
All-later events s [] h k = tt
All-later events s (s' ∷ steps) h k =
    (All-append (λ x. x ≤ s') events (s ∷ []) h.0 (k.0, tt), All-later events s steps h.1 k.1)

pub All-fresh {κ} :
    (P : ℕ → Type κ) (every wait : ℕ) (steps : List ℕ)
    → All P steps
    → All P (fresh every wait steps)
unfolding fresh
All-fresh P every wait [] h = tt
All-fresh P every zero (s ∷ steps) h = (h.0, All-fresh P every (every - 1) steps h.1)
All-fresh P every (suc wait) (s ∷ steps) h = All-fresh P every wait steps h.1

pub All-tt : (steps : List ℕ) → All (λ s'. All (λ x. x ≤ s') []) steps
All-tt [] = tt
All-tt (s ∷ steps) = (tt, All-tt steps)

All-last : (x step : ℕ) (steps : List ℕ) → All (λ y. x ≤ y) (steps ++ step ∷ []) → x ≤ step
All-last x step [] h = h.0
All-last x step (s ∷ steps) h = All-last x step steps h.1

All-init :
    (x step : ℕ) (steps : List ℕ) → All (λ y. x ≤ y) (steps ++ step ∷ []) → All (λ y. x ≤ y) steps
All-init x step [] h = tt
All-init x step (s ∷ steps) h = (h.0, All-init x step steps h.1)

pub Ascending-parts :
    (steps : List ℕ) (step : ℕ)
    → Ascending (steps ++ step ∷ [])
    → Ascending steps × All (λ x. x ≤ step) steps
Ascending-parts [] step h = (tt, tt)
Ascending-parts (s ∷ steps) step h =
    let (up, le) = Ascending-parts steps step h.1 in
    ((All-init s step steps h.0, up), (All-last s step steps h.0, le))
