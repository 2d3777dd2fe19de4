-- ===== src/Projection/Agreement.antt =====
-- The materialized state answers as the assertions do.
use durable_infinite_context.Prelude.{
  ◌≡◌, refl, sym, subst, ap, ◌∙◌, String, Bool, false, none, some, List, [], ◌∷◌, ◌++◌, keep, inl,
  inr, Option-cases, arith, str_eq, ok, ◌>>=◌, passed,
}
use durable_infinite_context.Prelude.Dicts.{
  Dict, text_key, triple_key, same_triple_iff, get, put, get-put,
}
use durable_infinite_context.Models.{Key, QueryCase, StateCell, Assertion, AssertionRelation}
use durable_infinite_context.Prelude.Ids.{has, from_keys}
use durable_infinite_context.Prelude.Buckets.{set_at}
use durable_infinite_context.Reconciliation.{ids}
use durable_infinite_context.Store.{MemoryStore, assertions_for_key, relations_within}
use durable_infinite_context.Projection.{
  key_of_query, next_version, answer_of, relation_of, reconciled, answer_from_assertions,
  answer_from_persistent_state, refresh_current_state,
}

relations_within-state :
    {V : Type 0} (among qs : List String) (s : MemoryStore V) (state : Dict Key (StateCell V))
    → relations_within among qs (record s { state = state }) ≡ relations_within among qs s
unfolding relations_within
relations_within-state among [] s state = refl
relations_within-state among (q ∷ qs) s state =
    ap (λ r. keep (λ r. has r.target_assertion_id among) (set_at q s.relations_by_source) ++ r)
      (relations_within-state among qs s state)

assertions_for_key-state :
    {V : Type 0} (key : Key) (s : MemoryStore V) (state : Dict Key (StateCell V))
    → assertions_for_key key (record s { state = state }) ≡ assertions_for_key key s
unfolding assertions_for_key
assertions_for_key-state key s state = refl

module _ {V : Type 0} (repr : V → String) (same : V → V → Bool) where
  -- reconciliation reads no state cell
  reconciled-state :
      (key : Key) (s : MemoryStore V) (state : Dict Key (StateCell V))
      → reconciled repr same key none none (record s { state = state })
        ≡ reconciled repr same key none none s
  unfolding reconciled
  reconciled-state key s state =
      let kept = assertions_for_key-state key s state in
      elim (Option-cases (assertions_for_key key s)) [
        | inl missing ↦ ground (arith, kept, missing)
        | inr (l, found) ↦ ground (
          arith,
          kept,
          found,
          relations_within-state (from_keys [] (ids l)) (from_keys [] (ids l)) s state,
        )
      ]

  answered :
      (s : MemoryStore V) (q : QueryCase V)
      → q.as_of_valid_time ≡ none
      → q.as_of_recorded_seq ≡ none
      → answer_from_assertions repr same s q ≡ (
          reconciled repr same (key_of_query q) none none s >>= λ (l, rels, cell).
          answer_of s cell (relation_of q rels l))
  unfolding answer_from_assertions
  answered s q valid seq =
      ap
        (λ t. reconciled repr same (key_of_query q) t q.as_of_recorded_seq s >>= λ (l, rels, cell).
          answer_of s cell (relation_of q rels l))
        valid
      ∙ ap
          (λ t. reconciled repr same (key_of_query q) none t s >>= λ (l, rels, cell).
            answer_of s cell (relation_of q rels l))
          seq

  module _ (s : MemoryStore V) (q : QueryCase V) (cell : StateCell V) (l : List (Assertion V))
      (rels : List AssertionRelation)
      (found : reconciled repr same (key_of_query q) none none s ≡ ok (l, rels, cell))
      (valid : q.as_of_valid_time ≡ none) (seq : q.as_of_recorded_seq ≡ none)
      (type : str_eq q.question_type "relation_classification" ≡ false) where
    abbrev refreshed : MemoryStore V
    refreshed = record s {
      state =
          put (key_of_query q)
            (record cell { version = next_version cell (get (key_of_query q) s.state) }) s.state;
    }

    stored :
        get (key_of_query q) refreshed.state
        ≡ some (record cell { version = next_version cell (get (key_of_query q) s.state) })
    stored = ground (
      arith,
      get-put (key_of_query q) (key_of_query q)
          (record cell { version = next_version cell (get (key_of_query q) s.state) }) s.state,
      same_triple_iff (key_of_query q) (key_of_query q),
    )

    -- the answer from the stored cell
    from_state : answer_from_persistent_state repr same refreshed q ≡ answer_of refreshed cell none
    unfolding answer_from_persistent_state
    from_state = rw (valid, seq, type, stored, answer_from_persistent_state) refl

    -- the refresh left the assertions and their relations as they were
    again : reconciled repr same (key_of_query q) none none refreshed ≡ ok (l, rels, cell)
    again = reconciled-state (key_of_query q) s refreshed.state ∙ found

    no_relation : relation_of q rels l ≡ none
    no_relation = rw type refl

    from_assertions : answer_from_assertions repr same refreshed q ≡ answer_of refreshed cell none
    from_assertions =
        answered refreshed q valid seq
        ∙ ap (λ r. r >>= λ (l, rels, cell). answer_of refreshed cell (relation_of q rels l)) again
        ∙ ap (answer_of refreshed cell) no_relation

  -- After the state of a query's key was refreshed, a query as of now, of any type but the
  -- classification of a relation, is answered from the stored cell as it is from the assertions.
  pub refresh_current_state-answers :
      (s s' : MemoryStore V) (q : QueryCase V)
      → q.as_of_valid_time ≡ none
      → q.as_of_recorded_seq ≡ none
      → str_eq q.question_type "relation_classification" ≡ false
      → refresh_current_state repr same s (key_of_query q) ≡ ok s'
      → answer_from_persistent_state repr same s' q ≡ answer_from_assertions repr same s' q
  unfolding refresh_current_state answer_from_persistent_state
  refresh_current_state-answers s s' q valid seq type run =
      let ((l, rels, cell), out, found) =
        passed _ (reconciled repr same (key_of_query q) none none s) run in
      let same_store : refreshed s q cell l rels found valid seq type ≡ s' = ground arith in
      subst (λ t. answer_from_persistent_state repr same t q ≡ answer_from_assertions repr same t q)
        same_store
        (from_state s q cell l rels found valid seq type
          ∙ sym (from_assertions s q cell l rels found valid seq type))
