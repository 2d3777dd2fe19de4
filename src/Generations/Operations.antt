-- ===== src/Generations/Operations.antt =====
-- storage/incremental_hash.py, lookup and insert over the two generations.
use durable_infinite_context.Prelude.{
  ℕ, ◌+◌, String, Bool, true, false, ◌&&◌, not, Option, none, some, ◌==◌, if◌then◌else◌, Outcome,
  ok, err, ◌>>=◌,
}
use durable_infinite_context.Probing.{lookup}
use durable_infinite_context.Generations.{
  Settings, HashIndex, Fault, duplicate_key, already_placed, size_mismatch, load_exceeded_during,
  StepTrace, FoundIn, in_current, in_old, nowhere, IncrementalLookupTrace, IncrementalInsertTrace,
  is_some, allocated_capacity_slots, start_migration,
}
use durable_infinite_context.Generations.Stepping.{place_current, migrate_step}

module _ (s : Settings) where
  -- a migration starts if none is active and the insertion would exceed the load
  unfoldable pub begin_insert : HashIndex → Outcome Fault (Bool × HashIndex)
  unfolding start_migration
  begin_insert x =
      if not (is_some x.old) && s.load_exceeded (x.live_size + 1) x.current.capacity
      then (start_migration s x >>= λ x'. ok (true, x'))
      else ok (false, x)

  -- the checks and the trace at the end of `insert`
  unfoldable pub finish_insert :
      String
      → HashIndex
      → Option ℕ
      → Bool
      → ℕ
      → ℕ
      → StepTrace × HashIndex
      → Outcome Fault (IncrementalInsertTrace × HashIndex)
  unfolding allocated_capacity_slots
  finish_insert key before id started probes pages (step, x) =
      if is_some x.old && s.over_limit x.current.size x.current.capacity
      then err load_exceeded_during
      else if not (is_some x.old) && not (x.current.size == x.live_size)
      then err size_mismatch
      else ok (
        record {
          inserted_key = key;
          live_size_before = before.live_size;
          live_size_after = x.live_size;
          current_capacity_before = before.current.capacity;
          current_capacity_after = x.current.capacity;
          migration_id = id;
          migration_started = started;
          migration = step;
          insert_slot_probes = probes;
          insert_page_probes = pages;
          mutation_slot_work = probes + step.scanned + step.destination_slot_probes;
          allocated_capacity_slots = allocated_capacity_slots x;
          capacity_amplification_vs_current = (allocated_capacity_slots x, x.current.capacity);
        },
        x,
      )

module _ (hash : String → ℕ) where
  unfoldable pub lookup_index : String → HashIndex → IncrementalLookupTrace
  lookup_index key x =
      let (found, slots, pages) = lookup hash key x.current in
      let trace : Bool → FoundIn → ℕ → ℕ → ℕ → IncrementalLookupTrace =
        λ found place touched slots pages. record {
          key = key;
          found = found;
          found_in = place;
          generations_touched = touched;
          slot_probes = slots;
          page_probes = pages;
        } in
      if found then trace true in_current 1 slots pages else elim x.old [
        | none ↦ trace false nowhere 1 slots pages
        | some old ↦
            let (old_found, old_slots, old_pages) = lookup hash key old in
            trace old_found (if old_found then in_old else nowhere) 2 (slots + old_slots)
              (pages + old_pages)
      ]

  module _ (s : Settings) where
    unfoldable pub insert_index :
        String → HashIndex → Outcome Fault (IncrementalInsertTrace × HashIndex)
    unfolding lookup_index begin_insert place_current migrate_step finish_insert
    insert_index key x =
        if (lookup_index key x).found
        then err duplicate_key
        else (begin_insert s x >>= λ (started, x1).
            place_current hash key x1 >>= λ (probes, pages, inserted, x2).
            if not inserted
            then err already_placed
            else (migrate_step hash s (record x2 { live_size = x2.live_size + 1 }) >>= λ r.
                finish_insert s key x (if is_some x1.old then some x1.migration_id else none)
                  started probes pages r))
