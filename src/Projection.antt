-- ===== src/Projection.antt =====
-- state/projection.py: answers to queries, from the assertions or from the stored state cell. A KeyError
-- is a value of Fault.
pub mod Agreement
use durable_infinite_context.Prelude.{
  ℕ, ◌+◌, String, Bool, true, false, ◌&&◌, ◌||◌, Option, none, some, List, [], ◌∷◌, ◌++◌, keep,
  str_eq, if◌then◌else◌, length, leb, Outcome, ok, err, ◌>>=◌,
}
use durable_infinite_context.Prelude.Ids.{from_keys, sort_texts}
use durable_infinite_context.Prelude.Dicts.{text_key, triple_key, get, put}
use durable_infinite_context.Models.{
  unknown, Assertion, AssertionRelation, StateCell, Key, QueryCase, AnswerValue, one_value, values,
  no_value, Answer,
}
use durable_infinite_context.Reconciliation.{ids, visible_by, reconcile, classify_relation}
use durable_infinite_context.Store.{MemoryStore, assertions_for_key, relations_for_assertions}
use durable_infinite_context.Incremental.{Fault, unknown_predicate, missing_assertion}

abbrev pub is_given : Option ℕ → Bool
is_given none = false
is_given (some n) = true

module _ {V : Type 0} where
  abbrev pub key_of_query : QueryCase V → Key
  key_of_query q = (q.subject_id, q.predicate, "default")

  -- the operative values: a single one by itself, several as a list
  abbrev pub value_of : List V → AnswerValue V
  value_of [] = no_value
  value_of (v ∷ []) = one_value v
  value_of (v ∷ w ∷ l) = values (v ∷ w ∷ l)

  -- the evidence of the assertions of a cell
  unfoldable pub evidence_of : List String → MemoryStore V → Outcome Fault (List String)
  evidence_of [] s = ok []
  evidence_of (q ∷ qs) s = elim (get q s.assertions) [
    | none ↦ err missing_assertion
    | some a ↦ evidence_of qs s >>= λ l. ok (a.evidence_ids ++ l)
  ]

  unfoldable pub answer_of : MemoryStore V → StateCell V → Option String → Outcome Fault (Answer V)
  unfolding evidence_of
  answer_of s cell relation =
      evidence_of (cell.supporting_assertion_ids ++ cell.competing_assertion_ids) s >>= λ evidence.
      ok (record {
        status = cell.status;
        value = value_of cell.operative_values;
        relation = relation;
        evidence_ids = sort_texts (from_keys [] evidence);
      })

  -- `classify_relation(rels, visible[-1].id, visible[-2].id)` of two or more
  unfoldable pub relation_of_last : List AssertionRelation → List (Assertion V) → Option String
  relation_of_last rels [] = none
  relation_of_last rels (a ∷ []) = none
  relation_of_last rels (a ∷ b ∷ []) = classify_relation rels b.id a.id
  relation_of_last rels (a ∷ b ∷ c ∷ l) = relation_of_last rels (b ∷ c ∷ l)

  -- the question asks for a relation, and there are two assertions
  abbrev pub relation_of : QueryCase V → List AssertionRelation → List (Assertion V) → Option String
  relation_of q rels l =
      if str_eq q.question_type "relation_classification" && leb 2 (length l)
      then relation_of_last rels (keep (λ a. visible_by a q.as_of_recorded_seq) l)
      else none

  -- the version of a new cell, or one more than that of the stored one
  abbrev pub next_version : StateCell V → Option (StateCell V) → ℕ
  next_version cell none = cell.version
  next_version cell (some old) = old.version + 1

  module _ (repr : V → String) (same : V → V → Bool) where
    -- the assertions of a key with their relations, and the cell that they reconcile to
    unfoldable pub reconciled :
        Key
        → Option ℕ
        → Option ℕ
        → MemoryStore V
        → Outcome Fault (List (Assertion V) × List AssertionRelation × StateCell V)
    reconciled key valid_time recorded_seq s = elim (assertions_for_key key s) [
      | none ↦ err missing_assertion
      | some l ↦
          let rels = relations_for_assertions (from_keys [] (ids l)) s in
          elim (reconcile repr same l rels valid_time recorded_seq) [
            | err p ↦ err (unknown_predicate p)
            | ok cell ↦ ok (l, rels, cell)
          ]
    ]

    unfoldable pub answer_from_assertions : MemoryStore V → QueryCase V → Outcome Fault (Answer V)
    unfolding reconciled answer_of relation_of_last
    answer_from_assertions s q =
        reconciled (key_of_query q) q.as_of_valid_time q.as_of_recorded_seq s >>= λ (l, rels, cell).
        answer_of s cell (relation_of q rels l)

    unfoldable pub answer_from_persistent_state :
        MemoryStore V → QueryCase V → Outcome Fault (Answer V)
    unfolding answer_from_assertions answer_of
    answer_from_persistent_state s q =
        if is_given q.as_of_valid_time
          || is_given q.as_of_recorded_seq
          || str_eq q.question_type "relation_classification"
        then answer_from_assertions s q
        else elim (get (key_of_query q) s.state) [
          | none ↦
              ok (record { status = unknown; value = no_value; relation = none; evidence_ids = [] })
          | some cell ↦ answer_of s cell none
        ]

    unfoldable pub refresh_current_state : MemoryStore V → Key → Outcome Fault (MemoryStore V)
    unfolding reconciled
    refresh_current_state s key = reconciled key none none s >>= λ (l, rels, cell). ok (record s {
      state = put key (record cell { version = next_version cell (get key s.state) }) s.state;
    })
