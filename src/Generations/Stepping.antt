-- ===== src/Generations/Stepping.antt =====
-- storage/incremental_hash.py, _migrate_step: the loop over the source slots and the checks behind it.
use durable_infinite_context.Prelude.{
  ℕ, zero, suc, ◌+◌, ◌/◌, String, Bool, true, false, not, none, some, List, [], ◌==◌, ltb,
  if◌then◌else◌, length, get_or, Outcome, ok, err, ◌>>=◌,
}
use durable_infinite_context.Probing.{Table, touch, place}
use durable_infinite_context.Generations.{
  Settings, HashIndex, Fault, generation_full, budget_failed, copied_mismatch, size_mismatch,
  StepTrace,
}

-- the locals of `_migrate_step` beside the index
pub record Moves : Type 0 where
  pub index : HashIndex
  pub pages : List ℕ
  pub scanned : ℕ
  pub copied : ℕ
  pub destination_slot_probes : ℕ
  pub destination_page_probes : ℕ

abbrev pub no_step : StepTrace
no_step = record {
  scanned = 0;
  source_pages = 0;
  copied = 0;
  destination_slot_probes = 0;
  destination_page_probes = 0;
  completed = false;
  source_capacity = 0;
  source_rows = 0;
}

abbrev pub no_moves : HashIndex → Moves
no_moves x = record {
  index = x;
  pages = [];
  scanned = 0;
  copied = 0;
  destination_slot_probes = 0;
  destination_page_probes = 0;
}

module _ (s : Settings) where
  -- the checks after the loop
  unfoldable pub finish_step : Table → ℕ → Moves → Outcome Fault (StepTrace × HashIndex)
  finish_step old source_rows m =
      let x = m.index in
      let trace : Bool → StepTrace = λ completed. record {
        scanned = m.scanned;
        source_pages = length m.pages;
        copied = m.copied;
        destination_slot_probes = m.destination_slot_probes;
        destination_page_probes = m.destination_page_probes;
        completed = completed;
        source_capacity = old.capacity;
        source_rows = source_rows;
      } in
      if s.over_limit x.current.size x.current.capacity
      then err budget_failed
      else if ltb x.migration_cursor old.capacity
      then ok (trace false, x)
      else if not (x.migration_copied_total == x.migration_source_rows)
      then err copied_mismatch
      else if not (x.current.size == x.live_size)
      then err size_mismatch
      else ok (
        trace true,
        record x {
          old = none;
          migration_cursor = 0;
          migration_source_rows = 0;
          migration_copied_total = 0;
        },
      )

module _ (hash : String → ℕ) where
  unfoldable pub place_current : String → HashIndex → Outcome Fault (ℕ × ℕ × Bool × HashIndex)
  place_current key x = elim (place hash key x.current) [
    | err full ↦ err generation_full
    | ok (probes, pages, inserted, t) ↦ ok (probes, pages, inserted, record x { current = t })
  ]

  -- one round of the loop of `_migrate_step`
  unfoldable pub move_one : Table → Moves → Outcome Fault Moves
  unfolding place_current touch
  move_one old m =
      let p = m.index.migration_cursor in
      let m' : Moves = record m {
        index = record m.index { migration_cursor = p + 1 };
        scanned = m.scanned + 1;
        pages = touch (p / old.slots_per_page) m.pages;
      } in
      elim (get_or old.slots p none) [
        | none ↦ ok m'
        | some key ↦ place_current key m'.index >>= λ (probes, pages, inserted, x). ok (record m' {
          index =
              if inserted
              then record x { migration_copied_total = x.migration_copied_total + 1 }
              else x;
          copied = if inserted then m'.copied + 1 else m'.copied;
          destination_slot_probes = m'.destination_slot_probes + probes;
          destination_page_probes = m'.destination_page_probes + pages;
        })
      ]

  -- The loop, on the part of the budget that is left.
  unfoldable pub move_all : ℕ → Table → Moves → Outcome Fault Moves
  unfolding move_one
  move_all zero old m = ok m
  move_all (suc n) old m =
      if ltb m.index.migration_cursor old.capacity then move_one old m >>= move_all n old else ok m

  module _ (s : Settings) where
    unfoldable pub migrate_step : HashIndex → Outcome Fault (StepTrace × HashIndex)
    unfolding move_all finish_step
    migrate_step x = elim x.old [
      | none ↦ ok (no_step, x)
      | some old ↦
          move_all s.migration_slot_budget old (no_moves x)
          >>= finish_step s old x.migration_source_rows
    ]
