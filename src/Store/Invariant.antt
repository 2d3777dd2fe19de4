-- ===== src/Store/Invariant.antt =====
-- What the indexes of a MemoryStore say of its canonical records.
use durable_infinite_context.Prelude.{
  ℕ, ◌+◌, ◌≤◌, ◌≡◌, refl, inl, inr, String, Bool, false, Option, none, some, [], ◌∷◌, keep, str_eq,
  eq_iff, if◌then◌else◌, arith, Bool-cases,
}
use durable_infinite_context.Prelude.Ids.{has}
use durable_infinite_context.Prelude.Dicts.{
  text_key, triple_key, same_triple, Dict, get, put, pop, get-put, get-pop,
}
use durable_infinite_context.Prelude.Buckets.{set_at}
use durable_infinite_context.Models.{Assertion, Key, key_of}
use durable_infinite_context.Store.{MemoryStore}
use durable_infinite_context.Store.References.{occurrences, Follows}

-- every key once
abbrev pub Distinct : {A : Type 0} → Dict String A → Type 0
Distinct [] = Unit
Distinct ((k, v) ∷ d) = (get k d ≡ none) × Distinct d

pub Distinct-put :
    {A : Type 0} (k : String) (v : A) (d : Dict String A) → Distinct d → Distinct (put k v d)
unfolding put get
Distinct-put k v [] h = (refl, tt)
Distinct-put k v ((j, w) ∷ d) h = elim (Bool-cases (str_eq k j)) [
  | inl same ↦ rw same h
  | inr other ↦
      rw other
        (ground (arith, get-put j k v d, h.0, eq_iff j k, eq_iff k j), Distinct-put k v d h.1)
]

pub Distinct-pop : {A : Type 0} (k : String) (d : Dict String A) → Distinct d → Distinct (pop k d)
unfolding pop get
Distinct-pop k [] h = tt
Distinct-pop k ((j, w) ∷ d) h = elim (Bool-cases (str_eq k j)) [
  | inl same ↦ rw same (Distinct-pop k d h.1)
  | inr other ↦ rw other (ground (arith, get-pop j k d, h.0), Distinct-pop k d h.1)
]

pop_absent : {A : Type 0} (k : String) (d : Dict String A) → get k d ≡ none → pop k d ≡ d
unfolding pop get
pop_absent k [] h = refl
pop_absent k ((j, w) ∷ d) h = ground (arith, pop_absent k d)

module _ {V : Type 0} where
  -- how often one assertion cites the evidence for the subject
  abbrev pub cites : String → String → Assertion V → ℕ
  cites e s a = if str_eq s a.subject_id then occurrences e a.evidence_ids else 0

  abbrev pub cites? : String → String → Option (Assertion V) → ℕ
  cites? e s none = 0
  cites? e s (some a) = cites e s a

  -- how often the assertions of the subject cite the evidence
  unfoldable pub cited : String → String → Dict String (Assertion V) → ℕ
  cited e s [] = 0
  cited e s ((k, a) ∷ d) = cites e s a + cited e s d

  pub cited-put :
      (e s k : String) (a : Assertion V) (d : Dict String (Assertion V))
      → cited e s (put k a d) + cites? e s (get k d) ≡ cited e s d + cites e s a
  unfolding cited put get
  cited-put e s k a [] = omega arith
  cited-put e s k a ((j, b) ∷ d) = elim (Bool-cases (str_eq k j)) [
    | inl same ↦ ground (arith, same)
    | inr other ↦ ground (arith, other, cited-put e s k a d)
  ]

  pub cites-le-cited :
      (e s k : String) (d : Dict String (Assertion V)) → cites? e s (get k d) ≤ cited e s d
  unfolding cited get
  cites-le-cited e s k [] = omega arith
  cites-le-cited e s k ((j, b) ∷ d) = elim (Bool-cases (str_eq k j)) [
    | inl same ↦ ground (arith, same)
    | inr other ↦ ground (arith, other, cites-le-cited e s k d)
  ]

  pub cited-pop :
      (e s k : String) (d : Dict String (Assertion V))
      → Distinct d
      → cited e s (pop k d) + cites? e s (get k d) ≡ cited e s d
  unfolding cited pop get
  cited-pop e s k [] h = omega arith
  cited-pop e s k ((j, b) ∷ d) h = elim (Bool-cases (str_eq k j)) [
    | inl same ↦
        let absent : get k d ≡ none = rw ((eq_iff k j).0 same) h.0 in
        ground (arith, same, absent, pop_absent k d absent)
    | inr other ↦ ground (arith, other, cited-pop e s k d h.1)
  ]

  -- is the assertion there, with the key or the subject?
  abbrev pub with_key : Key → Option (Assertion V) → Bool
  with_key k none = false
  with_key k (some a) = same_triple k (key_of a)

  abbrev pub with_subject : String → Option (Assertion V) → Bool
  with_subject q none = false
  with_subject q (some a) = str_eq q a.subject_id

  pub record IsIndexed (s : MemoryStore V) : Type 0 where
    pub named : (q : String) (a : Assertion V) → get q s.assertions ≡ some a → a.id ≡ q
    pub distinct : Distinct s.assertions
    pub by_key :
        (k : Key) (q : String)
        → has q (set_at k s.assertions_by_key) ≡ with_key k (get q s.assertions)
    pub by_subject :
        (k q : String)
        → has q (set_at k s.assertions_by_subject) ≡ with_subject k (get q s.assertions)
    pub by_source :
        (q : String)
        → set_at q s.relations_by_source ≡ keep (λ r. str_eq r.source_assertion_id q) s.relations
    pub counts : Follows s.evidence_subject_refcounts (λ e q. cited e q s.assertions)
