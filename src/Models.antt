-- ===== src/Models.antt =====
-- core/models.py and core/predicates.py: assertions, their relations, state cells and the predicate
-- registry. The object value is a type parameter, since the source has `Any`; times are natural
-- numbers.
use durable_infinite_context.Prelude.{
  ℕ, String, ◌||◌, Option, none, some, List, str_eq, if◌then◌else◌,
}

pub data StateStatus : Type 0 where
  resolved contested unknown : StateStatus

pub data RelationType : Type 0 where
  corrects supersedes contradicts refines : RelationType

pub record EvidenceRecord : Type 0 where
  pub id : String
  pub payload : String
  pub source_id : String
  pub recorded_seq : ℕ
  pub source_event_time : Option ℕ
  pub scope : String
  pub lifecycle : String

pub record Assertion (V : Type 0) : Type 0 where
  pub id : String
  pub subject_id : String
  pub predicate : String
  pub object_value : V
  pub recorded_seq : ℕ
  pub valid_from : Option ℕ
  pub valid_to : Option ℕ
  pub modality : String
  pub polarity : String
  pub evidence_ids : List String
  pub extraction_version : String

-- (subject, predicate, scope)
abbrev pub Key : Type 0
Key = String × String × String

abbrev pub key_of : {V : Type 0} → Assertion V → Key
key_of a = (a.subject_id, a.predicate, "default")

pub record AssertionRelation : Type 0 where
  pub source_assertion_id : String
  pub relation : RelationType
  pub target_assertion_id : String

pub record StateCell (V : Type 0) : Type 0 where
  pub key : Key
  pub operative_values : List V
  pub status : StateStatus
  pub supporting_assertion_ids : List String
  pub competing_assertion_ids : List String
  pub historical_assertion_ids : List String
  pub version : ℕ

-- `expected_value` is None or a value
pub record QueryCase (V : Type 0) : Type 0 where
  pub id : String
  pub scenario_type : String
  pub question_type : String
  pub subject_id : String
  pub predicate : String
  pub as_of_valid_time : Option ℕ
  pub as_of_recorded_seq : Option ℕ
  pub expected_status : StateStatus
  pub expected_value : Option V
  pub expected_relation : Option String
  pub relevant_evidence_ids : List String
  pub question_text : Option String

-- the value of an answer: one, several, or None
pub data AnswerValue (V : Type 0) : Type 0 where
  one_value : V → AnswerValue V
  values : List V → AnswerValue V
  no_value : AnswerValue V

pub record Answer (V : Type 0) : Type 0 where
  pub status : StateStatus
  pub value : AnswerValue V
  pub relation : Option String
  pub evidence_ids : List String

pub data Cardinality : Type 0 where
  single multi : Cardinality

-- `REGISTRY.get(predicate)`, of which the cardinality is read
unfoldable pub registry : String → Option Cardinality
registry p =
    if str_eq p "deadline" || str_eq p "project_status" || str_eq p "lives_in" || str_eq p "value"
    then some single
    else if str_eq p "works_at" || str_eq p "depends_on" || str_eq p "approved"
    then some multi
    else none
