-- ===== src/Incremental.antt =====
-- state/incremental.py: the maintenance of the current state cell when one assertion arrives. The
-- source's tests on the old cell are kept in order; `none` of `fast_cell` is the fall-through to full
-- reconciliation. `same` is Python's equality of values, `repr` its representation.
pub mod Agreement
pub mod Candidates
pub mod Cells
pub mod Updates
use durable_infinite_context.Prelude.{
  ℕ, ◌+◌, String, Bool, true, false, ◌&&◌, ◌||◌, not, Option, none, some, List, [], ◌∷◌, ◌++◌, keep,
  str_eq, if◌then◌else◌, length, Outcome, ok, err, ◌>>=◌,
}
use durable_infinite_context.Prelude.Ids.{has, union, from_keys}
use durable_infinite_context.Prelude.Dicts.{triple_key, get, put}
use durable_infinite_context.Models.{
  StateStatus, resolved, contested, RelationType, corrects, supersedes, Assertion,
  AssertionRelation, StateCell, Cardinality, single, multi, registry, Key, key_of,
}
use durable_infinite_context.Reconciliation.{targets, collect_values, ids, reconcile}
use durable_infinite_context.Store.{MemoryStore, assertions_for_key, relations_for_assertions}

pub record MaintenanceCost : Type 0 where
  pub state_reads : ℕ
  pub state_writes : ℕ
  pub assertion_reads : ℕ
  pub relation_reads : ℕ
  pub fallbacks : ℕ

abbrev pub logical_ops : MaintenanceCost → ℕ
logical_ops c = c.state_reads + c.state_writes + c.assertion_reads + c.relation_reads

abbrev pub add : MaintenanceCost → MaintenanceCost → MaintenanceCost
add c o = record {
  state_reads = c.state_reads + o.state_reads;
  state_writes = c.state_writes + o.state_writes;
  assertion_reads = c.assertion_reads + o.assertion_reads;
  relation_reads = c.relation_reads + o.relation_reads;
  fallbacks = c.fallbacks + o.fallbacks;
}

-- the KeyErrors: of the registry, and of an index that names a missing assertion
pub data Fault : Type 0 where
  unknown_predicate : String → Fault
  missing_assertion : Fault

abbrev pub is_replacement : RelationType → Bool
is_replacement corrects = true
is_replacement supersedes = true
is_replacement _ = false

abbrev pub is_resolved : StateStatus → Bool
is_resolved resolved = true
is_resolved _ = false

-- `a.issubset(b)`
unfoldable pub subset : List String → List String → Bool
subset [] b = true
subset (k ∷ a) b = has k b && subset a b

abbrev pub is_empty : {A : Type 0} → List A → Bool
is_empty [] = true
is_empty (x ∷ l) = false

module _ {V : Type 0} where
  abbrev pub outgoing : Assertion V → List AssertionRelation → List AssertionRelation
  outgoing a rels = keep (λ r. str_eq r.source_assertion_id a.id) rels

  abbrev pub active_ids : StateCell V → List String
  active_ids c = union c.supporting_assertion_ids c.competing_assertion_ids

  abbrev pub first_cell : Key → Assertion V → StateCell V
  first_cell key a = record {
    key = key;
    operative_values = a.object_value ∷ [];
    status = resolved;
    supporting_assertion_ids = a.id ∷ [];
    competing_assertion_ids = [];
    historical_assertion_ids = [];
    version = 1;
  }

  -- every active assertion is replaced
  unfoldable pub replaced_cell : Key → StateCell V → Assertion V → StateCell V
  replaced_cell key old a = record {
    key = key;
    operative_values = a.object_value ∷ [];
    status = resolved;
    supporting_assertion_ids = a.id ∷ [];
    competing_assertion_ids = [];
    historical_assertion_ids = from_keys [] (
        old.historical_assertion_ids
        ++ (old.supporting_assertion_ids ++ old.competing_assertion_ids));
    version = old.version + 1;
  }

  -- one more assertion of the value that the cell has
  unfoldable pub supported_cell : Key → StateCell V → Assertion V → StateCell V
  supported_cell key old a = record {
    key = key;
    operative_values = old.operative_values;
    status = resolved;
    supporting_assertion_ids = old.supporting_assertion_ids ++ a.id ∷ [];
    competing_assertion_ids = [];
    historical_assertion_ids = old.historical_assertion_ids;
    version = old.version + 1;
  }

  -- the first conflict
  unfoldable pub contested_cell : Key → StateCell V → Assertion V → StateCell V
  contested_cell key old a = record {
    key = key;
    operative_values = [];
    status = contested;
    supporting_assertion_ids = [];
    competing_assertion_ids = old.supporting_assertion_ids ++ a.id ∷ [];
    historical_assertion_ids = old.historical_assertion_ids;
    version = old.version + 1;
  }

  module _ (repr : V → String) (same : V → V → Bool) where
    unfoldable pub extended_cell : Key → StateCell V → Assertion V → StateCell V
    extended_cell key old a = record {
      key = key;
      operative_values = collect_values repr same old.operative_values (a ∷ []);
      status = resolved;
      supporting_assertion_ids = old.supporting_assertion_ids ++ a.id ∷ [];
      competing_assertion_ids = [];
      historical_assertion_ids = old.historical_assertion_ids;
      version = old.version + 1;
    }

    -- `old.operative_values == [value]`
    abbrev pub only_value : List V → V → Bool
    only_value [] v = false
    only_value (w ∷ []) v = same w v
    only_value (w ∷ x ∷ l) v = false

    unfoldable pub fast_cell :
        Key → StateCell V → Assertion V → List AssertionRelation → Option (StateCell V)
    fast_cell key old a rels =
        let replaced = targets is_replacement rels in
        if not (is_empty (active_ids old)) && subset (active_ids old) replaced
        then some (replaced_cell key old a)
        else if is_resolved old.status && only_value old.operative_values a.object_value
        then some (supported_cell key old a)
        else if is_resolved old.status && is_empty (keep (λ r. is_replacement r.relation) rels)
        then some (contested_cell key old a)
        else none

    -- the slow path: the stored assertions of the key are reconciled
    unfoldable pub fall_back :
        Key
        → StateCell V
        → MemoryStore V
        → MaintenanceCost
        → Outcome Fault (MaintenanceCost × StateCell V)
    fall_back key old s cost = elim (assertions_for_key key s) [
      | none ↦ err missing_assertion
      | some l ↦
          let rels = relations_for_assertions (from_keys [] (ids l)) s in
          elim (reconcile repr same l rels none none) [
            | err p ↦ err (unknown_predicate p)
            | ok cell ↦ ok (
              record cost {
                assertion_reads = cost.assertion_reads + length l;
                relation_reads = cost.relation_reads + length rels;
                fallbacks = cost.fallbacks + 1;
              },
              record cell { version = old.version + 1 },
            )
          ]
    ]

    unfoldable pub updated_cell :
        Cardinality
        → Key
        → StateCell V
        → Assertion V
        → List AssertionRelation
        → MemoryStore V
        → MaintenanceCost
        → Outcome Fault (MaintenanceCost × StateCell V)
    unfolding fall_back fast_cell extended_cell
    updated_cell multi key old a rels s cost = ok (cost, extended_cell key old a)
    updated_cell single key old a rels s cost = elim (fast_cell key old a rels) [
      | some cell ↦ ok (cost, cell)
      | none ↦ fall_back key old s cost
    ]

    unfoldable pub apply_incremental_current_state :
        MemoryStore V
        → Assertion V
        → List AssertionRelation
        → Outcome Fault (MaintenanceCost × MemoryStore V)
    unfolding updated_cell
    apply_incremental_current_state s a new_relations =
        let key = key_of a in
        let rels = outgoing a new_relations in
        let cost : ℕ → MaintenanceCost = λ reads. record {
          state_reads = reads;
          state_writes = 0;
          assertion_reads = 0;
          relation_reads = length rels;
          fallbacks = 0;
        } in
        elim (registry a.predicate) [
          | none ↦ err (unknown_predicate a.predicate)
          | some cardinality ↦
              (elim (get key s.state) [
                | none ↦ ok (cost 0, first_cell key a)
                | some old ↦ updated_cell cardinality key old a rels s (cost 1)
              ])
              >>= λ (r : MaintenanceCost × StateCell V).
                  ok (record r.0 { state_writes = 1 }, record s { state = put key r.1 s.state })
        ]
