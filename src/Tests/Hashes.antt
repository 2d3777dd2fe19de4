-- ===== src/Tests/Hashes.antt =====
-- A hash index of two slots that grows to four, and a linear-probing table.
use durable_infinite_context.Prelude.{
  ℕ, ◌+◌, ◌*◌, ◌≤◌, ◌<◌, ◌≡◌, refl, String, Bool, true, false, ◌&&◌, ◌||◌, Option, none, some, List,
  [], ◌∷◌, ◌++◌, ltb, ltb→lt, leb→le, str_eq, if◌then◌else◌, arith, ok, err,
}
use durable_infinite_context.Probing.{Table, new_table, touch, lookup, place}
use durable_infinite_context.Probing.Chains.{IsProbed}
use durable_infinite_context.Probing.Resize.{
  HashInsertTrace, new_resizing, insert_resizing, lookup_resizing,
}
use durable_infinite_context.Probing.Resize.Rehash.{
  IsTable, new_resizing-IsTable, insert_resizing-lookup_resizing,
}
use durable_infinite_context.Probing.Linear.{
  start, new_index, insert_linear, lookup_linear, new_index-IsProbed, insert_linear-lookup_linear,
}
use durable_infinite_context.Generations.{
  Settings, HashIndex, StepTrace, IncrementalInsertTrace, duplicate_key,
}
use durable_infinite_context.Generations.Operations.{insert_index, lookup_index}
use durable_infinite_context.Generations.Stepping.{no_step}
use durable_infinite_context.Generations.Invariant.{held, IsIndex, new_index-IsIndex}
use durable_infinite_context.Generations.Lookup.{lookup_index-held}
use durable_infinite_context.Generations.Outcomes.{Returns, insert_index-IsIndex}
use durable_infinite_context.Generations.Runs.{
  insert_all, insert_index-lookup_index, insert_index_work, insert_all_completes,
}

-- a hash with a collision
abbrev hash : String → ℕ
hash key = if str_eq key "c" then 3 else 0

-- `max_load` of three quarters
abbrev crowded : ℕ → ℕ → Bool
crowded n capacity = ltb (3 * capacity) (4 * n)

abbrev settings : Settings
settings = record {
  slots_per_page = 2;
  migration_slot_budget = 1;
  load_exceeded = crowded;
  over_limit = crowded;
}

crowded_lem : (n capacity : ℕ) → 0 < capacity → crowded n capacity ≡ false → n < capacity
crowded_lem n capacity positive h = ground arith

abbrev table : List (Option String) → ℕ → ℕ → Table
table slots capacity size = record {
  capacity = capacity;
  slots_per_page = 2;
  slots = slots;
  size = size;
}

abbrev small : Table
small = table (some "a" ∷ none ∷ []) 2 1

abbrev at_rest : Table → ℕ → ℕ → HashIndex
at_rest t id live = record {
  current = t;
  old = none;
  migration_cursor = 0;
  migration_id = id;
  migration_source_rows = 0;
  migration_copied_total = 0;
  live_size = live;
}

abbrev empty : HashIndex
empty = at_rest (table (none ∷ none ∷ []) 2 0) 0 0

abbrev one_key : HashIndex
one_key = at_rest small 0 1

-- "b" took the first slot of the new table, and "a" was moved behind it
abbrev growing : HashIndex
growing = record {
  current = table (some "b" ∷ some "a" ∷ none ∷ none ∷ []) 4 2;
  old = some small;
  migration_cursor = 1;
  migration_id = 1;
  migration_source_rows = 1;
  migration_copied_total = 1;
  live_size = 2;
}

abbrev grown : HashIndex
grown = at_rest (table (some "b" ∷ some "a" ∷ none ∷ some "c" ∷ []) 4 3) 1 3

abbrev trace_a : IncrementalInsertTrace
trace_a = record {
  inserted_key = "a";
  live_size_before = 0;
  live_size_after = 1;
  current_capacity_before = 2;
  current_capacity_after = 2;
  migration_id = none;
  migration_started = false;
  migration = no_step;
  insert_slot_probes = 1;
  insert_page_probes = 1;
  mutation_slot_work = 1;
  allocated_capacity_slots = 2;
  capacity_amplification_vs_current = (2, 2);
}

abbrev trace_b : IncrementalInsertTrace
trace_b = record {
  inserted_key = "b";
  live_size_before = 1;
  live_size_after = 2;
  current_capacity_before = 2;
  current_capacity_after = 4;
  migration_id = some 1;
  migration_started = true;
  migration = record {
    scanned = 1;
    source_pages = 1;
    copied = 1;
    destination_slot_probes = 2;
    destination_page_probes = 1;
    completed = false;
    source_capacity = 2;
    source_rows = 1;
  };
  insert_slot_probes = 1;
  insert_page_probes = 1;
  mutation_slot_work = 4;
  allocated_capacity_slots = 6;
  capacity_amplification_vs_current = (6, 4);
}

empty-IsIndex : IsIndex hash empty
unfolding durable_infinite_context.Generations.new_index new_table
empty-IsIndex = (new_index-IsIndex hash settings 2 empty refl).0

run_a : insert_index hash settings "a" empty ≡ ok (trace_a, one_key)
unfolding insert_index touch lookup place
run_a = refl

run_b : insert_index hash settings "b" one_key ≡ ok (trace_b, growing)
unfolding insert_index touch new_table lookup place
run_b = refl

one_key-IsIndex : IsIndex hash one_key
one_key-IsIndex =
    (insert_index-lookup_index hash settings (ltb→lt 0 1 refl) crowded_lem "a" empty one_key trace_a
      empty-IsIndex run_a).0

insert_index-lookup_index_example :
    IsIndex hash growing
    × ((q : String)
        → (lookup_index hash q growing).found
          ≡ (str_eq "b" q || (lookup_index hash q one_key).found))
    × (2 ≡ 1 + 1)
insert_index-lookup_index_example =
    insert_index-lookup_index hash settings (ltb→lt 0 1 refl) crowded_lem "b" one_key growing
      trace_b one_key-IsIndex run_b

growing-IsIndex : IsIndex hash growing
growing-IsIndex = insert_index-lookup_index_example.0

insert_index_work_example : (1 ≤ 1) × (1 ≤ 1) × (2 * 6 ≤ 3 * 4)
insert_index_work_example =
    insert_index_work hash settings (ltb→lt 0 1 refl) crowded_lem "b" one_key growing trace_b
      one_key-IsIndex run_b

insert_index-IsIndex_example :
    (0 < held growing "c" → insert_index hash settings "c" growing ≡ err duplicate_key)
    × (held growing "c" ≡ 0 → Returns hash settings "c" growing)
insert_index-IsIndex_example =
    insert_index-IsIndex hash settings "c" growing growing-IsIndex (ltb→lt 0 1 refl) crowded_lem

lookup_index-held_example : (lookup_index hash "a" growing).found ≡ ltb 0 (held growing "a")
lookup_index-held_example = lookup_index-held hash "a" growing growing-IsIndex

insert_all_completes_example :
    (before : List String) × (after : List String) × (y : HashIndex) × ("c" ∷ [] ≡ before ++ after)
    × (insert_all hash settings before growing ≡ ok y)
    × (y.old ≡ none)
    × IsIndex hash y
unfolding insert_all insert_index touch lookup place
insert_all_completes_example =
    insert_all_completes hash settings (ltb→lt 0 1 refl) crowded_lem ("c" ∷ []) growing grown small
      growing-IsIndex refl refl (leb→le 2 2 refl)

small-IsProbed : IsProbed (start hash none) (new_table 2 2)
unfolding new_index new_table
small-IsProbed = (new_index-IsProbed hash none 2 2 (new_table 2 2) refl).0

insert_linear-lookup_linear_example :
    IsProbed (start hash none) (insert_linear hash none "a" (new_table 2 2)).1
    × ((insert_linear hash none "a" (new_table 2 2)).0.success ≡ ltb 0 2)
    × ((q : String)
        → (lookup_linear hash none q (insert_linear hash none "a" (new_table 2 2)).1).0 ≡ (
            (insert_linear hash none "a" (new_table 2 2)).0.success && str_eq "a" q
            || (lookup_linear hash none q (new_table 2 2)).0))
    × ((insert_linear hash none "a" (new_table 2 2)).0.slot_probes ≤ 2)
    × ((q : String) → (lookup_linear hash none q (new_table 2 2)).1 ≤ 2)
unfolding new_table
insert_linear-lookup_linear_example =
    insert_linear-lookup_linear hash none "a" (new_table 2 2) small-IsProbed

blank-IsTable : IsTable hash (new_table 2 2)
unfolding new_resizing new_table
blank-IsTable = new_resizing-IsTable hash 2 2 (new_table 2 2) refl

insert_resizing-lookup_resizing_example :
    (trace : HashInsertTrace) × (t' : Table) × (insert_resizing hash crowded "a" (new_table 2 2)
      ≡ ok (trace, t'))
    × IsTable hash t'
    × ((q : String)
        → (lookup_resizing hash q t').found
          ≡ (str_eq q "a" || (lookup_resizing hash q (new_table 2 2)).found))
    × (t'.capacity ≡ (if trace.resized then 2 * 2 else 2))
unfolding new_table
insert_resizing-lookup_resizing_example =
    insert_resizing-lookup_resizing hash crowded "a" (new_table 2 2) crowded_lem blank-IsTable
