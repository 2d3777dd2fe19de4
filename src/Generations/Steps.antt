-- ===== src/Generations/Steps.antt =====
-- `_migrate_step`: the loop and the checks behind it.
use durable_infinite_context.Prelude.{
  ℕ, ◌+◌, ◌≤◌, ◌<◌, ◌≡◌, ◌⊎◌, inl, inr, refl, ap, ◌∙◌, String, Bool, true, false, none, some, arith,
  length, drop_all, ok, err, ltb, ltb→lt, Bool-cases,
}
use durable_infinite_context.Prelude.Slots.{copies, filled}
use durable_infinite_context.Probing.{Table}
use durable_infinite_context.Generations.{Settings, budget_failed, HashIndex, StepTrace, is_some}
use durable_infinite_context.Generations.Stepping.{
  Moves, no_moves, move_all, finish_step, migrate_step,
}
use durable_infinite_context.Generations.Invariant.{
  rest, held_moving, held, held_underway, IsMoving, IsIndex, IsUnderway-IsIndex,
}
use durable_infinite_context.Generations.Migration.{move_all-Advances}

module _ (hash : String → ℕ) (s : Settings) where
  -- What a step that returned did to an index whose old table is `o`.
  pub record Steps (o : Table) (x : HashIndex) (trace : StepTrace) (x' : HashIndex) : Type 0 where
    pub index : IsIndex hash x'
    pub holds : (q : String) → held x' q ≡ held_moving o x q
    pub live : x'.live_size ≡ x.live_size
    pub scanned : trace.scanned ≤ s.migration_slot_budget
    pub paged : trace.source_pages ≤ trace.scanned
    pub within : is_some x'.old ≡ true → s.over_limit x'.current.size x'.current.capacity ≡ false
    pub counted : is_some x'.old ≡ false → x'.current.size ≡ x'.live_size
    pub progress :
        (x'.old ≡ none)
        ⊎ ((x'.old ≡ some o)
            × (x'.migration_cursor ≡ x.migration_cursor + s.migration_slot_budget)
            × (x'.migration_id ≡ x.migration_id))

  step_trace : Table → ℕ → Moves → Bool → StepTrace
  step_trace o rows m completed = record {
    scanned = m.scanned;
    source_pages = length m.pages;
    copied = m.copied;
    destination_slot_probes = m.destination_slot_probes;
    destination_page_probes = m.destination_page_probes;
    completed = completed;
    source_capacity = o.capacity;
    source_rows = rows;
  }

  -- The assertions of the source hold at the end of the old table.
  finish_step-completes :
      (o : Table) (rows : ℕ) (m : Moves)
      → IsMoving hash o m.index
      → s.over_limit m.index.current.size m.index.current.capacity ≡ false
      → m.index.migration_cursor ≡ o.capacity
      → (filled (rest o m.index) ≡ 0)
        × (finish_step s o rows m
            ≡ ok (
              step_trace o rows m true,
              record m.index {
                old = none;
                migration_cursor = 0;
                migration_source_rows = 0;
                migration_copied_total = 0;
              },
            ))
  unfolding finish_step step_trace
  finish_step-completes o rows m v within end =
      let gone : filled (rest o m.index) ≡ 0 =
        ap filled
          (drop_all o.slots m.index.migration_cursor (omega (arith, v.source.shape.width))) in
      (gone, ground (arith, within, v.moved, v.rows, v.live, v.current.count, gone))

  -- What a step fails on: behind its loop the current table exceeds its load limit.
  pub record OverLimit (o : Table) (x : HashIndex) : Type 0 where
    pub moves : Moves
    pub moved : move_all hash s.migration_slot_budget o (no_moves x) ≡ ok moves
    pub over : s.over_limit moves.index.current.size moves.index.current.capacity ≡ true

  -- A step either fails because the load of the current table exceeds its limit, or it returns: it moves
  -- the cursor on by the budget, or completes the migration.
  pub migrate_step-Steps :
      (o : Table) (x : HashIndex)
      → x.old ≡ some o
      → IsMoving hash o x
      → x.migration_cursor < o.capacity
      → x.live_size ≤ x.migration_source_rows + x.migration_cursor + 1
      → x.migration_source_rows < o.capacity
      → 0 < s.migration_slot_budget
      → (OverLimit o x × (migrate_step hash s x ≡ err budget_failed))
        ⊎ ((trace : StepTrace) × (x' : HashIndex) × (migrate_step hash s x ≡ ok (trace, x'))
            × Steps o x trace x')
  unfolding migrate_step finish_step step_trace
  migrate_step-Steps o x there v unfinished paced fitted positive =
      let (m, n, run, a, le, ends) =
        move_all-Advances hash s.migration_slot_budget o (no_moves x) v in
      let reach : migrate_step hash s x ≡ finish_step s o x.migration_source_rows m =
        rw (there, run, migrate_step) refl in
      elim (Bool-cases (s.over_limit m.index.current.size m.index.current.capacity)) [
        | inl over ↦
            inl (record { moves = m; moved = run; over = over }, reach ∙ ground (arith, over))
        | inr within ↦ elim (Bool-cases (ltb m.index.migration_cursor o.capacity)) [
          | inl on ↦
              let same = a.old ∙ there in
              let moved : n ≡ s.migration_slot_budget = ground (arith, ends) in
              inr (
                step_trace o x.migration_source_rows m false,
                m.index,
                reach ∙ ground (arith, within, on),
                record {
                  index = IsUnderway-IsIndex hash m.index same (record {
                    moving = a.moving;
                    unfinished = ltb→lt m.index.migration_cursor o.capacity on;
                    paced = omega (arith, a.live, a.rows, a.cursor);
                    fitted = omega (arith, a.rows);
                  });
                  holds = λ q. held_underway m.index q same ∙ a.held q;
                  live = a.live;
                  scanned = omega (arith, a.scanned);
                  paged = omega (arith, a.paged, a.scanned);
                  within = λ h. within;
                  counted = λ h. cc (ap is_some same);
                  progress = inr (same, a.cursor ∙ ap (λ k. x.migration_cursor + k) moved, a.id);
                },
              )
          | inr off ↦
              let end : m.index.migration_cursor ≡ o.capacity = ground (arith, a.moving.bound) in
              let (gone, out) =
                finish_step-completes o x.migration_source_rows m a.moving within end in
              let none_left : (q : String) → copies q (rest o m.index) ≡ 0 = λ q. ap (copies q) (
                drop_all o.slots m.index.migration_cursor
                  (omega (arith, a.moving.source.shape.width))) in
              inr (
                step_trace o x.migration_source_rows m true,
                record m.index {
                  old = none;
                  migration_cursor = 0;
                  migration_source_rows = 0;
                  migration_copied_total = 0;
                },
                reach ∙ out,
                record {
                  index = record {
                    current = a.moving.current;
                    live = omega (arith, a.moving.live, gone);
                    room = a.moving.room;
                    single = λ q. omega (arith, a.moving.single q);
                  };
                  holds = λ q. omega (arith, a.held q, none_left q);
                  live = a.live;
                  scanned = omega (arith, a.scanned);
                  paged = omega (arith, a.paged, a.scanned);
                  within = λ h. cc;
                  counted = λ h. omega (arith, a.moving.live, a.moving.current.count, gone);
                  progress = inl refl;
                },
              )
        ]
      ]
