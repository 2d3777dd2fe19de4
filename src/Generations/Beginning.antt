-- ===== src/Generations/Beginning.antt =====
-- The steps of an insertion that depend on whether a migration is active.
use native.Mathlib.Nat.{pow-suc}
use durable_infinite_context.Prelude.{
  ℕ, suc, ◌+◌, ◌*◌, ◌^◌, ◌≡◌, refl, sym, subst, String, true, false, none, some, arith, ok,
  if◌then◌else◌,
}
use durable_infinite_context.Prelude.Slots.{copies, filled, copies-replicate, filled-replicate}
use durable_infinite_context.Probing.{Table, new_table}
use durable_infinite_context.Probing.Chains.{IsProbed, new_table-IsProbed}
use durable_infinite_context.Generations.{Settings, HashIndex, start_migration}
use durable_infinite_context.Generations.Operations.{begin_insert}
use durable_infinite_context.Generations.Stepping.{no_step, migrate_step}
use durable_infinite_context.Generations.Invariant.{IsResting, IsUnderway}

module _ (hash : String → ℕ) (s : Settings) where
  pub migrate_step-resting :
      (x : HashIndex) → x.old ≡ none → migrate_step hash s x ≡ ok (no_step, x)
  unfolding migrate_step
  migrate_step-resting x there = ground (arith, there)

  -- the index after `_start_migration`
  abbrev pub migrating : HashIndex → HashIndex
  migrating x = record x {
    old = some x.current;
    current = new_table (x.current.capacity * 2) s.slots_per_page;
    migration_cursor = 0;
    migration_id = x.migration_id + 1;
    migration_source_rows = x.current.size;
    migration_copied_total = 0;
  }

  pub migrating-IsUnderway :
      (x : HashIndex) → IsResting hash x → IsUnderway hash x.current (migrating x)
  unfolding new_table
  migrating-IsUnderway x v =
      let shape = v.current.shape in
      let power : x.current.capacity * 2 ≡ 2 ^ suc shape.bits =
        rw (pow-suc 2 shape.bits) (omega (arith, shape.sized)) in
      let blank : (q : String) → copies q (migrating x).current.slots ≡ 0 =
        λ q. copies-replicate q (x.current.capacity * 2) in
      let empty : filled (migrating x).current.slots ≡ 0 =
        filled-replicate (x.current.capacity * 2) in
      record {
        moving = record {
          current =
              subst (λ n. IsProbed hash (new_table n s.slots_per_page)) (sym power)
                (new_table-IsProbed hash (suc shape.bits) s.slots_per_page);
          source = v.current;
          doubled = refl;
          bound = omega arith;
          rows = v.current.count;
          moved = omega arith;
          live = omega (arith, v.live, empty);
          room = omega (arith, v.room);
          single = λ q. omega (arith, v.single q, blank q);
          kept = λ q. omega (arith, blank q);
        };
        unfinished = omega (arith, v.room);
        paced = omega (arith, v.live, v.current.count);
        fitted = omega (arith, v.live, v.current.count, v.room);
      }

  pub begin_insert-underway :
      (x : HashIndex) {o : Table} → x.old ≡ some o → begin_insert s x ≡ ok (false, x)
  unfolding begin_insert
  begin_insert-underway x there = ground (arith, there)

  pub begin_insert-resting :
      (x : HashIndex)
      → x.old ≡ none
      → (begin_insert s x ≡ (
          if s.load_exceeded (x.live_size + 1) x.current.capacity
          then ok (true, migrating x)
          else ok (false, x)))
  unfolding begin_insert start_migration
  begin_insert-resting x there = ground (arith, there)
