-- ===== src/Store.antt =====
-- core/storage.py, MemoryStore: the canonical records and the four indexes that are derived from them.
-- A `defaultdict` that is read with `get` or through its own methods behaves as a dictionary here.
pub mod Invariant
pub mod Preservation
pub mod Queries
pub mod Rebuild
pub mod References
pub mod Rehydration
use durable_infinite_context.Prelude.{
  ℕ, ◌+◌, ◌-◌, String, Bool, true, false, ◌&&◌, ◌||◌, Option, none, some, List, [], ◌∷◌, ◌++◌, keep,
  leb, ltb, ◌==◌, str_eq, if◌then◌else◌,
}
use durable_infinite_context.Prelude.Ids.{has, sort_texts, text_le}
use durable_infinite_context.Prelude.Dicts.{text_key, triple_key, Dict, get, put, pop}
use durable_infinite_context.Prelude.Buckets.{append_at, set_at, add_at, discard_at}
use durable_infinite_context.Models.{
  EvidenceRecord, Assertion, AssertionRelation, StateCell, Key, key_of,
}

pub record MemoryStore (V : Type 0) : Type 0 where
  pub evidence : Dict String EvidenceRecord
  pub assertions : Dict String (Assertion V)
  pub relations : List AssertionRelation
  pub state : Dict Key (StateCell V)
  pub assertions_by_key : Dict Key (List String)
  pub assertions_by_subject : Dict String (List String)
  pub evidence_subject_refcounts : Dict String (Dict String ℕ)
  pub relations_by_source : Dict String (List AssertionRelation)

-- `counts.get(subject, 0)`
unfoldable pub count_at : String → Dict String ℕ → ℕ
count_at subject counts = elim (get subject counts) [ none ↦ 0 | some n ↦ n ]

-- `refcounts[evidence][subject] += 1`
unfoldable pub add_ref : String → String → Dict String (Dict String ℕ) → Dict String (Dict String ℕ)
add_ref evidence subject d =
    let counts = set_at evidence d in
    put evidence (put subject (count_at subject counts + 1) counts) d

-- One reference less: a count that reaches 0 is popped, and so are counts that run empty.
unfoldable pub one_less : String → Dict String ℕ → Dict String ℕ
one_less subject counts =
    let count = count_at subject counts in
    if leb count 1 then pop subject counts else put subject (count - 1) counts

unfoldable pub drop_ref :
    String → String → Dict String (Dict String ℕ) → Dict String (Dict String ℕ)
drop_ref evidence subject d = elim (get evidence d) [
  | none ↦ d
  | some counts ↦ elim (one_less subject counts) [
    | [] ↦ pop evidence d
    | c ∷ cs ↦ put evidence (c ∷ cs) d
  ]
]

unfoldable pub add_refs :
    List String → String → Dict String (Dict String ℕ) → Dict String (Dict String ℕ)
unfolding add_ref
add_refs [] subject d = d
add_refs (e ∷ es) subject d = add_refs es subject (add_ref e subject d)

unfoldable pub drop_refs :
    List String → String → Dict String (Dict String ℕ) → Dict String (Dict String ℕ)
unfolding drop_ref one_less
drop_refs [] subject d = d
drop_refs (e ∷ es) subject d = drop_refs es subject (drop_ref e subject d)

-- `sorted(ids, key=lambda a: (a.recorded_seq, a.id))`
module _ {V : Type 0} where
  abbrev pub earlier : Assertion V → Assertion V → Bool
  earlier a b =
      ltb a.recorded_seq b.recorded_seq || a.recorded_seq == b.recorded_seq && text_le a.id b.id

  unfoldable pub insert_assertion : Assertion V → List (Assertion V) → List (Assertion V)
  insert_assertion a [] = a ∷ []
  insert_assertion a (b ∷ l) = if earlier a b then a ∷ b ∷ l else b ∷ insert_assertion a l

  unfoldable pub sort_assertions : List (Assertion V) → List (Assertion V)
  sort_assertions [] = []
  sort_assertions (a ∷ l) = insert_assertion a (sort_assertions l)

  -- the assertions of the ids; `none` is the KeyError of an id that is missing
  unfoldable pub fetch : Dict String (Assertion V) → List String → Option (List (Assertion V))
  fetch d [] = some []
  fetch d (q ∷ qs) = elim (get q d) [
    | none ↦ none
    | some a ↦ elim (fetch d qs) [ none ↦ none | some l ↦ some (a ∷ l) ]
  ]

  unfoldable pub remove_assertion_indexes : Assertion V → MemoryStore V → MemoryStore V
  remove_assertion_indexes item s = record s {
    assertions_by_key = discard_at (key_of item) item.id s.assertions_by_key;
    assertions_by_subject = discard_at item.subject_id item.id s.assertions_by_subject;
    evidence_subject_refcounts =
        drop_refs item.evidence_ids item.subject_id s.evidence_subject_refcounts;
  }

  unfoldable pub add_assertion_indexes : Assertion V → MemoryStore V → MemoryStore V
  add_assertion_indexes item s = record s {
    assertions_by_key = add_at (key_of item) item.id s.assertions_by_key;
    assertions_by_subject = add_at item.subject_id item.id s.assertions_by_subject;
    evidence_subject_refcounts =
        add_refs item.evidence_ids item.subject_id s.evidence_subject_refcounts;
  }

  unfoldable pub add_evidence : EvidenceRecord → MemoryStore V → MemoryStore V
  add_evidence item s = record s { evidence = put item.id item s.evidence }

  unfoldable pub remove_evidence : String → MemoryStore V → Option EvidenceRecord × MemoryStore V
  remove_evidence q s = (get q s.evidence, record s { evidence = pop q s.evidence })

  unfoldable pub add_assertion : Assertion V → MemoryStore V → MemoryStore V
  unfolding remove_assertion_indexes add_assertion_indexes
  add_assertion item s =
      let cleared : MemoryStore V = elim (get item.id s.assertions) [
        | none ↦ s
        | some previous ↦ remove_assertion_indexes previous s
      ] in
      add_assertion_indexes item (record cleared { assertions = put item.id item s.assertions })

  unfoldable pub remove_assertion : String → MemoryStore V → Option (Assertion V) × MemoryStore V
  unfolding remove_assertion_indexes
  remove_assertion q s = elim (get q s.assertions) [
    | none ↦ (none, s)
    | some item ↦
        (some item, remove_assertion_indexes item (record s { assertions = pop q s.assertions }))
  ]

  unfoldable pub add_relation : AssertionRelation → MemoryStore V → MemoryStore V
  add_relation rel s = record s {
    relations = s.relations ++ rel ∷ [];
    relations_by_source = append_at rel.source_assertion_id rel s.relations_by_source;
  }

  unfoldable pub assertions_for_key : Key → MemoryStore V → Option (List (Assertion V))
  assertions_for_key key s = elim (fetch s.assertions (set_at key s.assertions_by_key)) [
    | none ↦ none
    | some l ↦ some (sort_assertions l)
  ]

  unfoldable pub assertions_for_subject : String → MemoryStore V → Option (List (Assertion V))
  assertions_for_subject q s = elim (fetch s.assertions (set_at q s.assertions_by_subject)) [
    | none ↦ none
    | some l ↦ some (sort_assertions l)
  ]

  abbrev pub relations_from : String → MemoryStore V → List AssertionRelation
  relations_from q s = set_at q s.relations_by_source

  unfoldable pub relations_to : String → MemoryStore V → List AssertionRelation
  relations_to q s = keep (λ r. str_eq r.target_assertion_id q) s.relations

  -- the relations inside a set of ids, for each of them as their source
  unfoldable pub relations_within :
      List String → List String → MemoryStore V → List AssertionRelation
  relations_within ids [] s = []
  relations_within ids (q ∷ qs) s =
      keep (λ r. has r.target_assertion_id ids) (set_at q s.relations_by_source)
      ++ relations_within ids qs s

  abbrev pub relations_for_assertions : List String → MemoryStore V → List AssertionRelation
  relations_for_assertions ids s = relations_within ids ids s

-- the keys of a dictionary, in order
unfoldable pub keys_of : {V : Type 0} → Dict String V → List String
keys_of [] = []
keys_of ((k, v) ∷ d) = k ∷ keys_of d

abbrev pub subject_ids : {V : Type 0} → MemoryStore V → List String
subject_ids s = sort_texts (keys_of s.assertions_by_subject)

abbrev pub subjects_for_evidence : {V : Type 0} → String → MemoryStore V → List String
subjects_for_evidence q s = sort_texts (keys_of (set_at q s.evidence_subject_refcounts))
