-- ===== src/Tests/Stores.antt =====
-- A store with two assertions, and one update of a state cell.
use durable_infinite_context.Prelude.{
  ℕ, ◌≡◌, refl, String, true, none, some, List, [], ◌∷◌, All, ltb, str_eq, eq_iff, keep,
}
use durable_infinite_context.Prelude.Ids.{has}
use durable_infinite_context.Prelude.Dicts.{text_key, triple_key, get}
use durable_infinite_context.Prelude.Buckets.{set_at}
use durable_infinite_context.Models.{resolved, corrects, Assertion, AssertionRelation, StateCell}
use durable_infinite_context.Reconciliation.{ids}
use durable_infinite_context.Store.{
  MemoryStore, add_assertion, remove_assertion, assertions_for_key, subjects_for_evidence,
}
use durable_infinite_context.Store.Rebuild.{rebuild_locality_indexes}
use durable_infinite_context.Store.Invariant.{IsIndexed, cited, with_key}
use durable_infinite_context.Store.Preservation.{
  add_assertion-IsIndexed, remove_assertion-IsIndexed,
}
use durable_infinite_context.Store.Queries.{
  Stored, assertions_for_key_exact, subjects_for_evidence-cited,
}
use durable_infinite_context.Store.Rehydration.{rebuild_locality_indexes-IsIndexed}

abbrev pub fact : String → String → ℕ → Assertion String
fact id value seq = record {
  id = id;
  subject_id = "p1";
  predicate = "deadline";
  object_value = value;
  recorded_seq = seq;
  valid_from = none;
  valid_to = none;
  modality = "asserted";
  polarity = "positive";
  evidence_ids = "e1" ∷ [];
  extraction_version = "oracle-v1";
}

abbrev pub bare : MemoryStore String
bare = record {
  evidence = [];
  assertions = [];
  relations = [];
  state = [];
  assertions_by_key = [];
  assertions_by_subject = [];
  evidence_subject_refcounts = [];
  relations_by_source = [];
}

bare-IsIndexed : IsIndexed bare
unfolding get set_at has keep cited
bare-IsIndexed = record {
  named = λ q a at. cc;
  distinct = tt;
  by_key = λ k q. refl;
  by_subject = λ k q. refl;
  by_source = λ q. refl;
  counts = λ e q. refl;
}

abbrev stored : MemoryStore String
stored = add_assertion (fact "a1" "May" 1) bare

add_assertion-IsIndexed_example : IsIndexed stored
add_assertion-IsIndexed_example = add_assertion-IsIndexed (fact "a1" "May" 1) bare bare-IsIndexed

abbrev without : MemoryStore String
without = (remove_assertion "a1" stored).1

remove_assertion-IsIndexed_example : IsIndexed without × (get "a1" without.assertions ≡ none)
remove_assertion-IsIndexed_example =
    remove_assertion-IsIndexed "a1" stored add_assertion-IsIndexed_example

assertions_for_key_exact_example :
    (l : List (Assertion String)) × (assertions_for_key ("p1", "deadline", "default") stored
      ≡ some l)
    × All (Stored stored.assertions) l
    × ((q : String)
        → has q (ids l) ≡ with_key ("p1", "deadline", "default") (get q stored.assertions))
assertions_for_key_exact_example =
    assertions_for_key_exact ("p1", "deadline", "default") stored add_assertion-IsIndexed_example

subjects_for_evidence-cited_example :
    has "p1" (subjects_for_evidence "e1" stored) ≡ ltb 0 (cited "e1" "p1" stored.assertions)
subjects_for_evidence-cited_example =
    subjects_for_evidence-cited "e1" "p1" stored add_assertion-IsIndexed_example

-- the canonical records, with indexes that are out of date
abbrev stale : MemoryStore String
stale = record bare {
  assertions = ("a1", fact "a1" "May" 1) ∷ ("a2", fact "a2" "June" 2) ∷ [];
  assertions_by_subject = ("p9", "a7" ∷ []) ∷ [];
}

rebuild_locality_indexes-IsIndexed_example :
    IsIndexed (rebuild_locality_indexes stale)
    × ((rebuild_locality_indexes stale).assertions ≡ stale.assertions)
    × ((rebuild_locality_indexes stale).relations ≡ stale.relations)
unfolding get
rebuild_locality_indexes-IsIndexed_example =
    rebuild_locality_indexes-IsIndexed stale (refl, (refl, tt)) (refl, (refl, tt))

abbrev pub text_of : String → String
text_of v = v

abbrev may : StateCell String
may = record {
  key = ("p1", "deadline", "default");
  operative_values = "May" ∷ [];
  status = resolved;
  supporting_assertion_ids = "a1" ∷ "a2" ∷ [];
  competing_assertion_ids = [];
  historical_assertion_ids = [];
  version = 2;
}

abbrev two_facts : List (Assertion String)
two_facts = fact "a1" "May" 1 ∷ fact "a2" "May" 2 ∷ []

abbrev june : Assertion String
june = fact "a3" "June" 3

abbrev correction : String → AssertionRelation
correction target = record {
  source_assertion_id = "a3";
  relation = corrects;
  target_assertion_id = target;
}

abbrev corrections : List AssertionRelation
corrections = correction "a1" ∷ correction "a2" ∷ []

abbrev june_cell : StateCell String
june_cell = record {
  key = ("p1", "deadline", "default");
  operative_values = "June" ∷ [];
  status = resolved;
  supporting_assertion_ids = "a3" ∷ [];
  competing_assertion_ids = [];
  historical_assertion_ids = "a1" ∷ "a2" ∷ [];
  version = 3;
}

abbrev texts_determine : (v w : String) → (str_eq v w ≡ true → v ≡ w) × (v ≡ w → str_eq v w ≡ true)
texts_determine v w = ((eq_iff v w).0, (eq_iff v w).1)
