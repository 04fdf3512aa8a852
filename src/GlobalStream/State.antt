-- ===== src/GlobalStream/State.antt =====
-- The state of a stream in src/pretrain/data/global_stream.py: what a checkpoint keeps, how `state`
-- of either class makes it, and the position that the constructors set from it.
use open_transformers.Prelude.{
  ℕ, ◌-◌, ltb, List, [], ◌∷◌, ◌++◌, map, range, Option, none, some, length, take, drop,
  if◌then◌else◌,
}
use open_transformers.GlobalStream.Corpus.{Position, Corpus}
use open_transformers.GlobalStream.View.{Seg, doc, eos, lit, View}
use open_transformers.GlobalStream.Windows.{Stream}

-- `x if` a decision holds, `else y`.
abbrev pub choice {ℓ κ} : {A : Type ℓ} {B : Type κ} → Dec A → B → B → B
choice (yes a) x y = x
choice (no na) x y = y

module _ (corpus : Corpus) where
  open corpus use {Name, name_discrete, Rng, sources, name, tokens}

  -- `dict.get(key, default)` of a dict that these items were put in, in their order.
  abbrev pub dict_get : List (Name × ℕ) → Name → ℕ → ℕ
  dict_get [] key default = default
  dict_get ((k, value) ∷ items) key default =
      dict_get items key (choice (name_discrete k key) value default)

  pub record GlobalStreamState : Type 0 where
    pub consumed_documents_per_source : List (Name × ℕ)
    pub epoch_per_source : List (Name × ℕ)
    pub mix_rng_state : Option Rng
    pub carry_over : List ℕ
    pub windows_emitted : ℕ

  abbrev pub per_source : (Position → ℕ) → (ℕ → Position) → List (Name × ℕ)
  per_source counter walkers = map (λ i. (name i, counter (walkers i))) (range 0 sources)

  unfoldable pub stream_state : Stream corpus → GlobalStreamState
  stream_state self = record {
    consumed_documents_per_source = per_source Position.consumed self.walkers;
    epoch_per_source = per_source Position.epoch self.walkers;
    mix_rng_state = some self.rng;
    carry_over = self.buf;
    windows_emitted = self.windows_emitted;
  }

  module _ (eos_id : ℕ) where
    -- `_materialize_buffer`, from the segments with the offset into the first.
    unfoldable pub materialize_buffer : List Seg → ℕ → List ℕ
    materialize_buffer [] off = []
    materialize_buffer (doc src ref doc_len ∷ segs) off =
        take (doc_len - off) (drop off (tokens src ref)) ++ materialize_buffer segs 0
    materialize_buffer (eos ∷ segs) off =
        (if ltb off 1 then eos_id ∷ [] else []) ++ materialize_buffer segs 0
    materialize_buffer (lit xs ∷ segs) off =
        take (length xs - off) (drop off xs) ++ materialize_buffer segs 0

    unfoldable pub view_state : View corpus → GlobalStreamState
    view_state self = record {
      consumed_documents_per_source = per_source Position.consumed self.walkers;
      epoch_per_source = per_source Position.epoch self.walkers;
      mix_rng_state = some self.rng;
      carry_over = materialize_buffer self.segs self.head_off;
      windows_emitted = self.windows_emitted;
    }

  -- The walkers that the constructors start: their counters from the state, or 0.
  unfoldable pub start_walkers : Option GlobalStreamState → ℕ → Position
  start_walkers none i = record { consumed = 0; epoch = 0 }
  start_walkers (some state) i = record {
    consumed = dict_get state.consumed_documents_per_source (name i) 0;
    epoch = dict_get state.epoch_per_source (name i) 0;
  }

  -- The generator: `fresh` is the one just seeded.
  unfoldable pub start_rng : Rng → Option GlobalStreamState → Rng
  start_rng fresh none = fresh
  start_rng fresh (some state) = saved state.mix_rng_state
    where
      saved : Option Rng → Rng
      saved none = fresh
      saved (some rng) = rng

  unfoldable pub start_stream : Rng → Option GlobalStreamState → Stream corpus
  start_stream fresh state = record {
    rng = start_rng fresh state;
    walkers = start_walkers state;
    buf = elim state [ none ↦ [] | some st ↦ st.carry_over ];
    windows_emitted = elim state [ none ↦ 0 | some st ↦ st.windows_emitted ];
  }

  abbrev pub carried : List ℕ → List Seg
  carried [] = []
  carried (x ∷ xs) = lit (x ∷ xs) ∷ []

  unfoldable pub start_view : Rng → Option GlobalStreamState → View corpus
  start_view fresh state = record {
    rng = start_rng fresh state;
    walkers = start_walkers state;
    segs = elim state [ none ↦ [] | some st ↦ carried st.carry_over ];
    head_off = 0;
    buf_len = elim state [ none ↦ 0 | some st ↦ length st.carry_over ];
    windows_emitted = elim state [ none ↦ 0 | some st ↦ st.windows_emitted ];
  }
