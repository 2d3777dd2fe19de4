-- ===== src/Tests/Cuckoo.antt =====
-- Placement at concrete indexes: four buckets of two slots, and two buckets of one slot with no stash.
use Prim.Native.String.{count}
use durable_infinite_context.Prelude.{
  ok, ℕ, ◌+◌, ◌*◌, ◌≤◌, ◌≡◌, refl, String, Bool, true, false, ◌&&◌, ◌||◌, ◌⊎◌, none, some, [], ◌∷◌,
  str_eq, length, replicate,
}
use durable_infinite_context.Placement.{
  Hashing, Config, Index, InsertTrace, max_slot_work, new, first_empty, bucket_pair, victim_slot,
}
use durable_infinite_context.Placement.Insert.{
  insert, kicks, kick_round, evict, finish, direct, undo,
}
use durable_infinite_context.Placement.Lookup.{lookup}
use durable_infinite_context.Placement.Invariant.{IsConfig, IsIndex, held}
use durable_infinite_context.Placement.Construction.{new-IsIndex}
use durable_infinite_context.Placement.Totality.{insert-IsIndex, insert_work, insert-held}
use durable_infinite_context.Placement.Membership.{lookup-insert}
use durable_infinite_context.Placement.Rollback.{insert_failure_restores}

-- a digest that is the length of the text
abbrev hashing : Hashing
hashing = record { blake2b = λ k s. count s; text_key = λ key kick. key }

abbrev config : ℕ → ℕ → ℕ → ℕ → ℕ → Config
config capacity size n kicks stash = record {
  capacity_slots = capacity;
  bucket_size = size;
  bucket_count = n;
  max_kicks = kicks;
  stash_capacity = stash;
  hash_key_1 = "h1";
  hash_key_2 = "h2";
  choice_key = "choice";
  victim_key = "victim";
  bucket_pair_override = none;
}

abbrev wide : Config
wide = config 8 2 4 3 1

abbrev fresh : Index
fresh = record { buckets = replicate 4 (replicate 2 none); stash = []; size = 0 }

new-wide : new 8 2 3 1 "h1" "h2" "choice" "victim" none ≡ ok (wide, fresh)
unfolding new
new-wide = refl

new-IsIndex_example :
    IsConfig wide × IsIndex hashing wide fresh × (4 * 2 ≡ 8) × (held fresh "a" ≡ 0)
new-IsIndex_example =
    new-IsIndex hashing 8 2 3 1 "h1" "h2" "choice" "victim" none wide fresh "a" new-wide

insert-IsIndex_example :
    (t : InsertTrace) × (x : Index) × (insert hashing wide "a" fresh ≡ (ok t, x))
    × IsIndex hashing wide x
insert-IsIndex_example =
    insert-IsIndex hashing wide "a" fresh new-IsIndex_example.0 new-IsIndex_example.1

-- "a" goes to the first slot of its first bucket.
abbrev one_key : Index
one_key = record {
  buckets = replicate 2 none ∷ (some "a" ∷ none ∷ []) ∷ replicate 2 none ∷ replicate 2 none ∷ [];
  stash = [];
  size = 1;
}

abbrev trace : String → Bool → ℕ → ℕ → ℕ → ℕ → InsertTrace
trace key success inspections relocations rollback work = record {
  key = key;
  success = success;
  stashed = false;
  bucket_slot_inspections = inspections;
  relocations = relocations;
  stash_write = 0;
  rollback_writes = rollback;
  mutation_slot_work = work;
}

insert_a : insert hashing wide "a" fresh ≡ (ok (trace "a" true 1 0 0 1), one_key)
unfolding insert bucket_pair first_empty direct
insert_a = refl

insert_work_example : (1 ≤ max_slot_work wide) × (0 ≤ 3)
insert_work_example =
    insert_work hashing wide "a" fresh (trace "a" true 1 0 0 1) one_key new-IsIndex_example.0
      new-IsIndex_example.1 insert_a

insert-held_example :
    (held one_key "a" ≡ held fresh "a" + 1)
    × (1 ≡ 0 + 1)
    × ((true ≡ true) ⊎ (1 ≤ length fresh.stash))
insert-held_example =
    insert-held hashing wide "a" fresh "a" (trace "a" true 1 0 0 1) one_key new-IsIndex_example.0
      new-IsIndex_example.1 insert_a

lookup-insert_example :
    (lookup hashing wide "b" one_key).found
    ≡ ((true && str_eq "a" "b") || (lookup hashing wide "b" fresh).found)
lookup-insert_example =
    lookup-insert hashing wide fresh one_key "a" "b" (trace "a" true 1 0 0 1) new-IsIndex_example.0
      new-IsIndex_example.1 insert_a

-- Two full buckets: the third key moves a victim, finds no place, and is rolled back.
abbrev narrow : Config
narrow = config 2 1 2 1 0

abbrev full_index : Index
full_index = record { buckets = (some "bb" ∷ []) ∷ (some "a" ∷ []) ∷ []; stash = []; size = 2 }

insert_c : insert hashing narrow "c" full_index ≡ (ok (trace "c" false 3 1 1 5), full_index)
unfolding insert bucket_pair first_empty direct kicks kick_round evict victim_slot finish undo
insert_c = refl

insert_failure_restores_example : full_index ≡ full_index
insert_failure_restores_example =
    insert_failure_restores hashing narrow "c" full_index full_index (trace "c" false 3 1 1 5)
      insert_c refl
