-- ===== src/Replay/Pushes.antt =====
-- `_DiskTreeFold.push` (src/pretrain/cli/audit_replay.py) keeps its stack in step with the carry fold.
use open_transformers.Prelude.{
  ℕ, suc, ◌≡◌, refl, ap, ◌∙◌, List, ◌∷◌, Option, Bool-cases, inl, inr, ok, arith,
}
use open_transformers.StateHash.Tags.{Bytes}
use open_transformers.StateHash.Feed.{Hashing, Tensor}
use open_transformers.Prelude.Disk.{Disk}
use open_transformers.Replay.Paths.{fold_path}
use open_transformers.Replay.Spill.{Storage}
use open_transformers.Replay.Verified.{load_verified-save_verified}
use open_transformers.Replay.Carry.{carry}
use open_transformers.Replay.Fold.{in_ram, on_disk, as_payload, store, DiskTreeFold, push}
use open_transformers.Replay.Files.{Values, dict, add_values}
use open_transformers.Replay.Removed.{
  remove_entry, remove_entries, Fresh, saved, Agree-saved, Fresh-saved, removed-saved,
}
use open_transformers.Replay.Simulation.{Spilled, ram, file, Spilled-agree, carry_loop-Carried}

module _ (hashing : Hashing) (storage : Storage) (env : Option Bytes) (names : List Bytes) where
  module _ (add : Tensor → Tensor → Tensor) where
    -- A fold whose stack holds the values, over a disk that is `clean` but for its files.
    pub record Folded (values : List (ℕ × Values)) (clean : Disk) (self : DiskTreeFold)
        (disk : Disk) : Type 0 where
      pub held : Spilled hashing storage env names disk self.seq self.stack values
      pub unused : Fresh self.seq disk
      pub cleaned : remove_entries self.stack disk ≡ clean

    -- A push into a fold that holds values.
    pub push-Folded :
        (f : Values) {values : List (ℕ × Values)} (clean : Disk) (self : DiskTreeFold) (disk : Disk)
        → Folded values clean self disk
        → (next : DiskTreeFold) × (after : Disk) × (push hashing storage env add
              (dict names f)
              self
              disk
            ≡ ok (next, after))
          × Folded (carry (add_values add) 0 f values) clean next after
    unfolding push store remove_entries remove_entry
    push-Folded f clean self disk h =
        let run = carry_loop-Carried hashing storage env names add self.stack 0 f h.held in
        let unused = run.fresh self.seq (omega arith) h.unused in
        let sum = dict names run.sum in
        elim (Bool-cases self.spills) [
          | inl spills ↦ (
            record {
              spills = self.spills;
              stack = (run.up, on_disk (fold_path self.seq)) ∷ run.left;
              seq = suc self.seq;
            },
            saved hashing storage env self.seq sum run.after,
            rw (run.runs, spills) refl,
            rw run.carries (record {
              held =
                  file run.up self.seq run.sum (omega arith)
                    (load_verified-save_verified hashing storage env (as_payload sum)
                      (fold_path self.seq) run.after)
                    (Spilled-agree hashing storage env names run.held
                      (Agree-saved hashing storage env self.seq sum run.after));
              unused = Fresh-saved hashing storage env self.seq sum run.after unused;
              cleaned =
                  ap (remove_entries run.left)
                    (removed-saved hashing storage env self.seq sum run.after unused)
                  ∙ run.cleaned
                  ∙ h.cleaned;
            }),
          )
          | inr keeps ↦ (
            record {
              spills = self.spills;
              stack = (run.up, in_ram sum) ∷ run.left;
              seq = self.seq;
            },
            run.after,
            rw (run.runs, keeps) refl,
            rw run.carries (record {
              held = ram run.up run.sum run.held;
              unused = unused;
              cleaned = run.cleaned ∙ h.cleaned;
            }),
          )
        ]
