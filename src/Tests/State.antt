-- ===== src/Tests/State.antt =====
-- Concrete inputs for the reconciliation of assertions.
use durable_infinite_context.Prelude.{
  keep, ok, ℕ, ◌≡◌, refl, ◌⊎◌, String, Bool, true, ◌&&◌, not, none, some, List, [], ◌∷◌, ◌++◌,
  arith,
}
use durable_infinite_context.Prelude.Ids.{has, add_id, sort_texts, union, insert_text}
use durable_infinite_context.Models.{
  resolved, contested, RelationType, corrects, supersedes, Assertion, AssertionRelation, StateCell,
  single, registry,
}
use durable_infinite_context.Reconciliation.{
  active_at, visible_by, ids, settle, reconcile, decide_cell, sort_by_seq, insert_by_seq, weigh,
  targets,
}
use durable_infinite_context.Reconciliation.Knowledge.{reconcile_as_of}
use durable_infinite_context.Reconciliation.Accounting.{
  Agree, active, reconcile-active, settle_single,
}

abbrev text_of : String → String
text_of v = v

abbrev same_text : String → String → Bool
same_text v w = true

abbrev fact : String → String → ℕ → Assertion String
fact id value seq = record {
  id = id;
  subject_id = "p1";
  predicate = "deadline";
  object_value = value;
  recorded_seq = seq;
  valid_from = some 10;
  valid_to = none;
  modality = "asserted";
  polarity = "positive";
  evidence_ids = [];
  extraction_version = "oracle-v1";
}

abbrev link : String → RelationType → String → AssertionRelation
link from kind to = record { source_assertion_id = from; relation = kind; target_assertion_id = to }

abbrev first_facts : List (Assertion String)
first_facts = fact "a2" "May" 2 ∷ fact "a1" "June" 1 ∷ []

abbrev first_links : List AssertionRelation
first_links = link "a2" corrects "a1" ∷ []

abbrev late_facts : List (Assertion String)
late_facts = fact "a3" "July" 3 ∷ []

abbrev late_links : List AssertionRelation
late_links = link "a3" supersedes "a2" ∷ []

reconcile_as_of_example :
    reconcile text_of same_text
      (first_facts ++ late_facts)
      (first_links ++ late_links)
      (some 12)
      (some 2)
    ≡ reconcile text_of same_text first_facts first_links (some 12) (some 2)
unfolding has
reconcile_as_of_example =
    reconcile_as_of text_of same_text first_facts late_facts first_links late_links (some 12) 2
      (ground arith, tt) (refl, tt)

abbrev settled : StateCell String
settled = record {
  key = ("p1", "deadline", "default");
  operative_values = "May" ∷ [];
  status = resolved;
  supporting_assertion_ids = "a2" ∷ [];
  competing_assertion_ids = [];
  historical_assertion_ids = "a1" ∷ [];
  version = 1;
}

first_run : reconcile text_of same_text first_facts first_links (some 12) none ≡ ok settled
unfolding reconcile decide_cell sort_by_seq keep active_at visible_by insert_by_seq registry weigh
    settle has targets add_id sort_texts union insert_text
first_run = refl

reconcile-active_example : has "a2" (active text_of same_text settled) ≡ (
    has "a2" (ids (keep (λ a. active_at a (some 12) && visible_by a none) first_facts))
    && not (has "a2" settled.historical_assertion_ids))
reconcile-active_example =
    reconcile-active text_of same_text "a2" first_facts first_links (some 12) none settled first_run

settle_single_example :
    let cell = settle text_of same_text ("p1", "deadline", "default") single [] first_facts in
    ((cell.status ≡ resolved)
      × Agree text_of same_text (fact "a2" "May" 2) (fact "a1" "June" 1 ∷ [])
      × (cell.supporting_assertion_ids ≡ ids first_facts))
    ⊎ ((cell.status ≡ contested)
        × ¬ (Agree text_of same_text (fact "a2" "May" 2) (fact "a1" "June" 1 ∷ []))
        × (cell.competing_assertion_ids ≡ ids first_facts))
settle_single_example =
    settle_single text_of same_text ("p1", "deadline", "default") [] (fact "a2" "May" 2)
      (fact "a1" "June" 1 ∷ [])
