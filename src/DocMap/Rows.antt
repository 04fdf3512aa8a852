-- ===== src/DocMap/Rows.antt =====
-- `step_rows` of src/pretrain/data/doc_map.py. The columns are held as rows.
use native.Mathlib.Nat.{mod-lt, div-add-mod', div-lt_iff_lt-mul}
use open_transformers.Prelude.{
  ℕ, suc, ◌+◌, ◌*◌, ◌-◌, ◌/◌, ◌%◌, ◌<◌, ◌≤◌, ◌≡◌, refl, ap, List, [], ◌∷◌, map, Option, none, some,
  ◌==◌, if◌then◌else◌, Result, ok, ◌>>=◌, All, arith, dec_lt,
}
use open_transformers.Prelude.Disk.{Text}
use open_transformers.BatchSchedule.{StepPlan, owner_rank, window_position}
use open_transformers.BatchSchedule.Plans.{window_position_lem}

-- A fragment of a document in a window: the tokens from `tok_start` to `tok_end`.
pub record Span : Type 0 where
  pub global_window : ℕ
  pub source : Text
  pub shard_id : ℕ
  pub local_doc : ℕ
  pub tok_start : ℕ
  pub tok_end : ℕ

pub record Row : Type 0 where
  pub step : ℕ
  pub microbatch : ℕ
  pub slot : ℕ
  pub frag_idx : ℕ
  pub dp_rank : ℕ
  pub span : Span

-- The number of a span in its window, behind a span of window `prev_window` with number `frag`;
-- `none` is the `-1` before the first span.
abbrev pub next_frag : Option ℕ → ℕ → ℕ → ℕ
next_frag none frag gw = 0
next_frag (some prev_window) frag gw = if gw == prev_window then suc frag else 0

unfoldable pub rows_from :
    StepPlan → (micro_batch_size dp_world_size : ℕ) → Option ℕ → ℕ → List Span → Result (List Row)
rows_from plan mb world prev frag [] = ok []
rows_from plan mb world prev frag (span ∷ spans) = do
  let number = next_frag prev frag span.global_window
  (microbatch, slot) ← window_position span.global_window plan mb
  rest ← rows_from plan mb world (some span.global_window) number spans
  ok (
      record {
        step = plan.step;
        microbatch = microbatch;
        slot = slot;
        frag_idx = number;
        dp_rank = owner_rank microbatch world;
        span = span;
      }
      ∷ rest)

unfoldable pub step_rows :
    StepPlan → List Span → (micro_batch_size dp_world_size : ℕ) → Result (List Row)
step_rows plan spans mb world = rows_from plan mb world none 0 spans

mb_positive :
    (w mb : ℕ) (plan : StepPlan)
    → plan.base_window ≤ w
    → w < plan.base_window + plan.microbatches * mb
    → 0 < mb
mb_positive w mb plan lo hi = elim (dec_lt 0 mb) [
  | yes positive ↦ positive
  | no not_positive ↦
      let none_left : mb ≡ 0 = omega arith in
      let empty = ap (λ (t : ℕ). plan.microbatches * t) none_left in absurd (omega arith)
]

-- The place of a window of the plan.
place-of :
    (w mb : ℕ) (plan : StepPlan)
    → plan.base_window ≤ w
    → w < plan.base_window + plan.microbatches * mb
    → (row : ℕ) × (slot : ℕ) × (window_position w plan mb ≡ ok (row, slot))
      × (row < plan.microbatches)
      × (slot < mb)
      × (w ≡ plan.base_window + (row * mb + slot))
place-of w mb plan lo hi =
    let rel = w - plan.base_window in
    let positive = mb_positive w mb plan lo hi in
    let whole = div-add-mod' rel mb in
    let bounds : (rel / mb < plan.microbatches)
        × (rel % mb < mb)
        × (w ≡ plan.base_window + (rel / mb * mb + rel % mb)) =
      ((div-lt_iff_lt-mul positive).1 (omega arith), mod-lt rel positive, omega arith) in
    (
      rel / mb,
      rel % mb,
      ((window_position_lem w mb plan).0 (rel / mb) (rel % mb)).1 bounds,
      bounds.0,
      bounds.1,
      bounds.2,
    )

-- What a row says of its span.
abbrev pub Placed : StepPlan → ℕ → ℕ → Row → Type 0
Placed plan mb world row =
    (row.step ≡ plan.step)
    × (row.microbatch < plan.microbatches)
    × (row.slot < mb)
    × (row.span.global_window ≡ plan.base_window + (row.microbatch * mb + row.slot))
    × (row.dp_rank ≡ owner_rank row.microbatch world)

abbrev pub Inside : StepPlan → ℕ → Span → Type 0
Inside plan mb span =
    (plan.base_window ≤ span.global_window)
    × (span.global_window < plan.base_window + plan.microbatches * mb)

rows_from-Placed :
    (plan : StepPlan) (mb world : ℕ) (prev : Option ℕ) (frag : ℕ) (spans : List Span)
    → All (Inside plan mb) spans
    → (rows : List Row) × (rows_from plan mb world prev frag spans ≡ ok rows)
      × (map (λ (row : Row). row.span) rows ≡ spans)
      × All (Placed plan mb world) rows
unfolding rows_from
rows_from-Placed plan mb world prev frag [] inside = ([], refl, refl, tt)
rows_from-Placed plan mb world prev frag (span ∷ spans) inside =
    let w = span.global_window in
    let (row, slot, found, low, small, at) = place-of w mb plan inside.0.0 inside.0.1 in
    let number = next_frag prev frag w in
    let (rows, made, same, placed) =
      rows_from-Placed plan mb world (some w) number spans inside.1 in
    (
      record {
        step = plan.step;
        microbatch = row;
        slot = slot;
        frag_idx = number;
        dp_rank = owner_rank row world;
        span = span;
      }
          ∷ rows,
      rw (found, made) refl,
      ap (λ rest. span ∷ rest) same,
      ((refl, low, small, at, refl), placed),
    )

-- Where every span lies in a window of the plan, the rows of a step are made without an exception: they
-- are the spans in their order, each with the plan's step, with the micro-batch and slot at which its
-- window stands in the plan, and with the rank that owns that micro-batch.
pub step_rows-Placed :
    (plan : StepPlan) (spans : List Span) (mb world : ℕ)
    → All (Inside plan mb) spans
    → (rows : List Row) × (step_rows plan spans mb world ≡ ok rows)
      × (map (λ (row : Row). row.span) rows ≡ spans)
      × All (Placed plan mb world) rows
unfolding step_rows
step_rows-Placed plan spans mb world inside = rows_from-Placed plan mb world none 0 spans inside
