-- ===== src/Tests/Answers.antt =====
-- A query of a store with one assertion, before and after its state is refreshed.
use durable_infinite_context.Prelude.{◌≡◌, refl, String, none, some, [], ◌∷◌, str_eq, ok, keep}
use durable_infinite_context.Prelude.Ids.{has, from_keys, add_id, sort_texts, union}
use durable_infinite_context.Prelude.Dicts.{get, put}
use durable_infinite_context.Prelude.Buckets.{set_at}
use durable_infinite_context.Reconciliation.{
  active_at, visible_by, reconcile, decide_cell, sort_by_seq, insert_by_seq, weigh, settle, targets,
}
use durable_infinite_context.Models.{registry, resolved, QueryCase}
use durable_infinite_context.Store.{
  MemoryStore, assertions_for_key, fetch, sort_assertions, insert_assertion, relations_within,
}
use durable_infinite_context.Projection.{
  answer_from_assertions, answer_from_persistent_state, refresh_current_state,
}
use durable_infinite_context.Projection.Agreement.{refresh_current_state-answers}
use durable_infinite_context.Tests.Stores.{bare, fact, text_of}

abbrev stored : MemoryStore String
stored = record bare {
  assertions = ("a1", fact "a1" "May" 1) ∷ [];
  assertions_by_key = (("p1", "deadline", "default"), "a1" ∷ []) ∷ [];
}

abbrev question : QueryCase String
question = record {
  id = "q1";
  scenario_type = "linear";
  question_type = "current";
  subject_id = "p1";
  predicate = "deadline";
  as_of_valid_time = none;
  as_of_recorded_seq = none;
  expected_status = resolved;
  expected_value = some "May";
  expected_relation = none;
  relevant_evidence_ids = [];
  question_text = none;
}

abbrev fresh : MemoryStore String
fresh = record stored {
  state =
      (
        ("p1", "deadline", "default"),
        record {
          key = ("p1", "deadline", "default");
          operative_values = "May" ∷ [];
          status = resolved;
          supporting_assertion_ids = "a1" ∷ [];
          competing_assertion_ids = [];
          historical_assertion_ids = [];
          version = 1;
        },
      )
      ∷ [];
}

refreshed_fresh :
    refresh_current_state text_of str_eq stored ("p1", "deadline", "default") ≡ ok fresh
unfolding refresh_current_state assertions_for_key fetch set_at get put reconcile sort_assertions
    insert_assertion keep has from_keys relations_within registry active_at visible_by decide_cell
    sort_by_seq insert_by_seq weigh settle targets add_id sort_texts union
refreshed_fresh = refl

refresh_current_state-answers_example :
    answer_from_persistent_state text_of str_eq fresh question
    ≡ answer_from_assertions text_of str_eq fresh question
refresh_current_state-answers_example =
    refresh_current_state-answers text_of str_eq stored fresh question refl refl refl
      refreshed_fresh
