-- ===== src/Generations/Insertion.antt =====
-- insert of a two-generation index, from a well-formed index to a well-formed one.
use durable_infinite_context.Prelude.{
  ℕ, ◌+◌, ◌≤◌, ◌<◌, ◌≡◌, ◌⊎◌, inl, inr, refl, ap, ◌∙◌, String, Bool, true, false, Option, none,
  some, arith, Outcome, ok, ◌>>=◌, if◌then◌else◌, Bool-cases, str_eq, eq_iff,
}
use durable_infinite_context.Prelude.Slots.{to_nat, copies, filled}
use durable_infinite_context.Probing.{Table}
use durable_infinite_context.Probing.Chains.{IsProbed}
use durable_infinite_context.Probing.Tables.{place-Placed}
use durable_infinite_context.Generations.{
  Settings, Fault, HashIndex, StepTrace, IncrementalInsertTrace, is_some, allocated_capacity_slots,
}
use durable_infinite_context.Generations.Operations.{
  begin_insert, finish_insert, lookup_index, insert_index,
}
use durable_infinite_context.Generations.Stepping.{place_current, migrate_step}
use durable_infinite_context.Generations.Invariant.{held, IsIndex}
use durable_infinite_context.Generations.Rounds.{place_current_lem}

-- a key that is not held may come once
pub single_more :
    (key q : String) (f : String → ℕ) → f key ≡ 0 → f q ≤ 1 → to_nat (str_eq key q) + f q ≤ 1
single_more key q f absent once = elim (Bool-cases (str_eq key q)) [
  | inl same ↦ ground (arith, ap f ((eq_iff key q).0 same))
  | inr other ↦ ground arith
]

module _ (hash : String → ℕ) (s : Settings) where
  -- A new key goes into a current table that has room.
  pub record Places (key : String) (x : HashIndex) : Type 0 where
    pub probes : ℕ
    pub pages : ℕ
    pub table : Table
    pub run : place_current hash key x ≡ ok (probes, pages, true, record x { current = table })
    pub probed : IsProbed hash table
    pub capacity : table.capacity ≡ x.current.capacity
    pub copied :
        (q : String) → copies q table.slots ≡ to_nat (str_eq key q) + copies q x.current.slots
    pub count : filled table.slots ≡ 1 + filled x.current.slots

  pub place_current-Places :
      (key : String) (x : HashIndex)
      → IsProbed hash x.current
      → copies key x.current.slots ≡ 0
      → filled x.current.slots < x.current.capacity
      → Places key x
  place_current-Places key x v missing room = elim (place-Placed hash x.current key v) [
    | inr (run, full, gone) ↦ absurd (omega (arith, v.count))
    | inl (probes, pages, new, t, run, placed, probed) ↦ elim (Bool-cases new) [
      | inr known ↦ absurd (omega (arith, placed.known known))
      | inl fresh ↦ record {
        probes = probes;
        pages = pages;
        table = t;
        run = place_current_lem hash key x (run ∙ ap (λ b. ok (probes, pages, b, t)) fresh);
        probed = probed;
        capacity = placed.capacity;
        copied = λ q.
            placed.copied q
            ∙ ap (λ b. (if b then to_nat (str_eq key q) else 0) + copies q x.current.slots) fresh;
        count =
            let counted : t.size ≡ 1 + x.current.size =
              placed.counted ∙ ap (λ b. to_nat b + x.current.size) fresh in
            omega (arith, counted, probed.count, v.count);
      }
    ]
  ]

  -- the index between the placement and the step
  abbrev pub placed_index : {key : String} (x : HashIndex) → Places key x → HashIndex
  placed_index x p = record x { current = p.table; live_size = x.live_size + 1 }

  -- What an insertion that returned did.
  pub record Inserts (key : String) (x : HashIndex) (trace : IncrementalInsertTrace)
      (x' : HashIndex) : Type 0 where
    pub index : IsIndex hash x'
    pub holds : (q : String) → held x' q ≡ to_nat (str_eq key q) + held x q
    pub live : x'.live_size ≡ x.live_size + 1
    pub scanned : trace.migration.scanned ≤ s.migration_slot_budget
    pub paged : trace.migration.source_pages ≤ trace.migration.scanned
    pub allocated : trace.allocated_capacity_slots ≡ allocated_capacity_slots x'
    pub progress :
        (o : Table)
        → x.old ≡ some o
        → (x'.old ≡ none)
          ⊎ ((x'.old ≡ some o)
              × (x'.migration_cursor ≡ x.migration_cursor + s.migration_slot_budget))

  -- the checks at the end never fail
  pub finish_insert-returns :
      (key : String) (x : HashIndex) (id : Option ℕ) (started : Bool) (probes pages : ℕ)
      (step : StepTrace) (x' : HashIndex)
      → (is_some x'.old ≡ true → s.over_limit x'.current.size x'.current.capacity ≡ false)
      → (is_some x'.old ≡ false → x'.current.size ≡ x'.live_size)
      → (trace : IncrementalInsertTrace) × (finish_insert s key x id started probes pages (step, x')
          ≡ ok (trace, x'))
        × (trace.migration ≡ step)
        × (trace.allocated_capacity_slots ≡ allocated_capacity_slots x')
  unfolding finish_insert
  finish_insert-returns key x id started probes pages step x' within counted = (
    record {
      inserted_key = key;
      live_size_before = x.live_size;
      live_size_after = x'.live_size;
      current_capacity_before = x.current.capacity;
      current_capacity_after = x'.current.capacity;
      migration_id = id;
      migration_started = started;
      migration = step;
      insert_slot_probes = probes;
      insert_page_probes = pages;
      mutation_slot_work = probes + step.scanned + step.destination_slot_probes;
      allocated_capacity_slots = allocated_capacity_slots x';
      capacity_amplification_vs_current = (allocated_capacity_slots x', x'.current.capacity);
    },
    elim (Bool-cases (is_some x'.old)) [
      | inl active ↦ ground (arith, within active)
      | inr resting ↦ ground (arith, counted resting)
    ],
    refl,
    refl,
  )

  -- the way through `insert` up to the step
  pub insert_index-reaches :
      (key : String) (x x1 : HashIndex) (started : Bool) (p : Places key x1)
      {r : Outcome Fault (StepTrace × HashIndex)}
      → (lookup_index hash key x).found ≡ false
      → begin_insert s x ≡ ok (started, x1)
      → migrate_step hash s (placed_index x1 p) ≡ r
      → insert_index hash s key x ≡ (
          r
          >>= finish_insert s key x
              (if is_some x1.old then some x1.migration_id else none)
              started
              p.probes
              p.pages)
  unfolding insert_index
  insert_index-reaches key x x1 started p missing begin step =
      rw (missing, begin, p.run, step, insert_index) refl
