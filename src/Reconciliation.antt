-- ===== src/Reconciliation.antt =====
-- state/reconciliation.py: the state cell that a set of assertions and relations comes to, as of a
-- valid time and a recorded sequence number. `repr` and `==` of the values are Python's: parameters.
-- Python's sets of ids are lists without repetition. The error is the KeyError, with its predicate.
pub mod Accounting
pub mod Knowledge
use durable_infinite_context.Prelude.{
  keep, Outcome, err, ok, ◌>>=◌, ℕ, ◌+◌, String, Bool, true, false, ◌&&◌, ◌||◌, not, Option, none,
  some, List, [], ◌∷◌, ◌++◌, map, ltb, str_eq, leb, ◌==◌, if◌then◌else◌, length,
}
use durable_infinite_context.Prelude.Ids.{has, add_id, union, sort_texts}
use durable_infinite_context.Models.{
  StateStatus, resolved, contested, unknown, RelationType, corrects, supersedes, contradicts,
  refines, Assertion, Key, key_of, AssertionRelation, StateCell, Cardinality, single, multi,
  registry,
}

abbrev before : Option ℕ → ℕ → Bool
before none t = false
before (some from) t = ltb t from

abbrev past : Option ℕ → ℕ → Bool
past none t = false
past (some to) t = ltb to t

-- the targets of the relations of one kind, as a set
unfoldable pub targets : (RelationType → Bool) → List AssertionRelation → List String
targets kind [] = []
targets kind (r ∷ rs) =
    let rest = targets kind rs in
    if kind r.relation then add_id r.target_assertion_id rest else rest

abbrev pub is_corrects : RelationType → Bool
is_corrects corrects = true
is_corrects _ = false

abbrev pub is_supersedes : RelationType → Bool
is_supersedes supersedes = true
is_supersedes _ = false

-- both ends are among the ids
abbrev pub within : List String → AssertionRelation → Bool
within known r = has r.source_assertion_id known && has r.target_assertion_id known

module _ {V : Type 0} where
  unfoldable pub active_at : Assertion V → Option ℕ → Bool
  active_at a none = true
  active_at a (some t) = not (before a.valid_from t) && not (past a.valid_to t)

  unfoldable pub visible_by : Assertion V → Option ℕ → Bool
  visible_by a none = true
  visible_by a (some s) = leb a.recorded_seq s

  unfoldable pub insert_by_seq : Assertion V → List (Assertion V) → List (Assertion V)
  insert_by_seq a [] = a ∷ []
  insert_by_seq a (b ∷ l) =
      if leb a.recorded_seq b.recorded_seq then a ∷ b ∷ l else b ∷ insert_by_seq a l

  -- `sorted(l, key=recorded_seq)`: stable
  unfoldable pub sort_by_seq : List (Assertion V) → List (Assertion V)
  sort_by_seq [] = []
  sort_by_seq (a ∷ l) = insert_by_seq a (sort_by_seq l)

  abbrev pub ids : List (Assertion V) → List String
  ids [] = []
  ids (a ∷ l) = a.id ∷ ids l

  abbrev pub last_value : V → List (Assertion V) → V
  last_value v [] = v
  last_value v (a ∷ l) = last_value a.object_value l

  abbrev pub cell :
      Key → List V → StateStatus → List String → List String → List String → StateCell V
  cell key values status support competing historical = record {
    key = key;
    operative_values = values;
    status = status;
    supporting_assertion_ids = support;
    competing_assertion_ids = competing;
    historical_assertion_ids = historical;
    version = 1;
  }

  -- the assertions that are neither corrected nor superseded
  abbrev pub candidates : List (Assertion V) → List AssertionRelation → List (Assertion V)
  candidates assertions rels =
      let defeated = targets is_corrects rels in
      let superseded = targets is_supersedes rels in
      keep (λ a. not (has a.id defeated) && not (has a.id superseded)) assertions

  module _ (repr : V → String) (same : V → V → Bool) where
    value_in : V → List V → Bool
    value_in v [] = false
    value_in v (w ∷ l) = same w v || value_in v l

    -- the loop over the candidates of a multi-valued predicate
    unfoldable pub collect_values : List V → List (Assertion V) → List V
    unfolding value_in
    collect_values values [] = values
    collect_values values (a ∷ l) =
        collect_values
          (if value_in a.object_value values then values else values ++ a.object_value ∷ []) l

    -- the keys of `unique_values`
    unfoldable pub unique_reprs : List (Assertion V) → List String
    unique_reprs [] = []
    unique_reprs (a ∷ l) = add_id (repr a.object_value) (unique_reprs l)

    -- the cell of the surviving candidates
    unfoldable pub settle : Key → Cardinality → List String → List (Assertion V) → StateCell V
    unfolding collect_values unique_reprs
    settle key cardinality historical [] = cell key [] unknown [] [] historical
    settle key multi historical (c ∷ cs) =
        cell key (collect_values [] (c ∷ cs)) resolved (ids (c ∷ cs)) [] historical
    settle key single historical (c ∷ cs) =
        if length (unique_reprs (c ∷ cs)) == 1
        then cell key (last_value c.object_value cs ∷ []) resolved (ids (c ∷ cs)) [] historical
        else cell key [] contested [] (ids (c ∷ cs)) historical

    -- from the sorted assertions and the relations among them
    unfoldable pub weigh :
        Key → Cardinality → List (Assertion V) → List AssertionRelation → StateCell V
    weigh key cardinality assertions rels =
        let defeated = targets is_corrects rels in
        let superseded = targets is_supersedes rels in
        settle key cardinality (sort_texts (union defeated superseded)) (candidates assertions rels)

    unfoldable pub decide_cell :
        List (Assertion V) → List AssertionRelation → Outcome String (StateCell V)
    decide_cell [] rels = ok (cell ("", "", "default") [] unknown [] [] [])
    decide_cell (a ∷ l) rels = elim (registry a.predicate) [
      | none ↦ err a.predicate
      | some cardinality ↦
          ok (weigh (key_of a) cardinality (a ∷ l) (keep (within (ids (a ∷ l))) rels))
    ]

    unfoldable pub reconcile :
        List (Assertion V)
        → List AssertionRelation
        → Option ℕ
        → Option ℕ
        → Outcome String (StateCell V)
    reconcile assertions rels valid_time recorded_seq =
        decide_cell
          (sort_by_seq (keep (λ a. active_at a valid_time && visible_by a recorded_seq) assertions))
          rels

-- how the newer assertion relates to the older one
unfoldable pub classify_relation : List AssertionRelation → String → String → Option String
classify_relation [] newer older = none
classify_relation (r ∷ rels) newer older =
    let rest = classify_relation rels newer older in
    if str_eq r.source_assertion_id newer && str_eq r.target_assertion_id older
    then elim r.relation [
      | corrects ↦ some "correction"
      | supersedes ↦ some "transition"
      | contradicts ↦ rest
      | refines ↦ rest
    ]
    else rest
