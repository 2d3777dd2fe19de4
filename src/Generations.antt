-- ===== src/Generations.antt =====
-- storage/incremental_hash.py, IncrementalHashIndex: a hash index that grows into a second table, a
-- bounded number of source slots at each insertion. The floating-point comparisons with `max_load` are
-- the fields `load_exceeded` and `over_limit` of Settings, given by numerator and denominator.
pub mod Invariant
pub mod Lookup
pub mod Migration
pub mod Operations
pub mod Stepping
pub mod Beginning
pub mod Rounds
pub mod Outcomes
pub mod Runs
pub mod Steps
pub mod Insertion
use durable_infinite_context.Prelude.{
  ℕ, zero, suc, ◌+◌, ◌*◌, ◌/◌, String, Bool, true, false, ◌&&◌, not, Option, none, some, List, [],
  ◌∷◌, ◌==◌, leb, ltb, if◌then◌else◌, length, get_or, Outcome, ok, err, ◌>>=◌,
}
use durable_infinite_context.Prelude.Bits.{no_power}
use durable_infinite_context.Probing.{Table, new_table, touch, lookup, place}

pub record Settings : Type 0 where
  pub slots_per_page : ℕ
  pub migration_slot_budget : ℕ
  -- `n / capacity > max_load`, and `n / capacity > max_load + 1e-12`
  pub load_exceeded : ℕ → ℕ → Bool
  pub over_limit : ℕ → ℕ → Bool

pub record HashIndex : Type 0 where
  pub current : Table
  pub old : Option Table
  pub migration_cursor : ℕ
  pub migration_id : ℕ
  pub migration_source_rows : ℕ
  pub migration_copied_total : ℕ
  pub live_size : ℕ

pub data Fault : Type 0 where
  bad_capacity : Fault
  bad_page : Fault
  bad_budget : Fault
  duplicate_key : Fault
  overlapping_migration : Fault
  generation_full : Fault
  already_placed : Fault
  budget_failed : Fault
  copied_mismatch : Fault
  size_mismatch : Fault
  load_exceeded_during : Fault

-- `__init__`; the check of `max_load` is on a number that is not kept here
unfoldable pub new_index : Settings → (initial_capacity : ℕ) → Outcome Fault HashIndex
new_index s initial_capacity =
    if no_power initial_capacity
    then err bad_capacity
    else if s.slots_per_page == 0
    then err bad_page
    else if s.migration_slot_budget == 0
    then err bad_budget
    else ok (record {
      current = new_table initial_capacity s.slots_per_page;
      old = none;
      migration_cursor = 0;
      migration_id = 0;
      migration_source_rows = 0;
      migration_copied_total = 0;
      live_size = 0;
    })

abbrev pub is_some {ℓ} : {A : Type ℓ} → Option A → Bool
is_some none = false
is_some (some x) = true

unfoldable pub start_migration : Settings → HashIndex → Outcome Fault HashIndex
unfolding new_table
start_migration s x =
    if is_some x.old
    then err overlapping_migration
    else ok (record x {
      old = some x.current;
      current = new_table (x.current.capacity * 2) s.slots_per_page;
      migration_cursor = 0;
      migration_id = x.migration_id + 1;
      migration_source_rows = x.current.size;
      migration_copied_total = 0;
    })

-- what `_migrate_step` returns
pub record StepTrace : Type 0 where
  pub scanned : ℕ
  pub source_pages : ℕ
  pub copied : ℕ
  pub destination_slot_probes : ℕ
  pub destination_page_probes : ℕ
  pub completed : Bool
  pub source_capacity : ℕ
  pub source_rows : ℕ

pub data FoundIn : Type 0 where
  in_current : FoundIn
  in_old : FoundIn
  nowhere : FoundIn

pub record IncrementalLookupTrace : Type 0 where
  pub key : String
  pub found : Bool
  pub found_in : FoundIn
  pub generations_touched : ℕ
  pub slot_probes : ℕ
  pub page_probes : ℕ

-- `capacity_amplification_vs_current` is kept as the pair of the two numbers that are divided.
pub record IncrementalInsertTrace : Type 0 where
  pub inserted_key : String
  pub live_size_before : ℕ
  pub live_size_after : ℕ
  pub current_capacity_before : ℕ
  pub current_capacity_after : ℕ
  pub migration_id : Option ℕ
  pub migration_started : Bool
  pub migration : StepTrace
  pub insert_slot_probes : ℕ
  pub insert_page_probes : ℕ
  pub mutation_slot_work : ℕ
  pub allocated_capacity_slots : ℕ
  pub capacity_amplification_vs_current : ℕ × ℕ

unfoldable pub allocated_capacity_slots : HashIndex → ℕ
allocated_capacity_slots x = x.current.capacity + elim x.old [ none ↦ 0 | some o ↦ o.capacity ]
