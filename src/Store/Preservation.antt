-- ===== src/Store/Preservation.antt =====
-- The operations of a MemoryStore keep its indexes in step with its records.
use mathlib.Core.List.{append-nil}
use durable_infinite_context.Prelude.{
  ◌≡◌, ap, ◌∙◌, inl, inr, String, none, some, [], ◌∷◌, keep, keep-append, str_eq, eq_iff, arith,
  Option-cases,
}
use durable_infinite_context.Prelude.Dicts.{text_key, triple_key, get, put, pop, get-put, get-pop}
use durable_infinite_context.Prelude.Buckets.{
  set_at-append_at, discard_at, has-add_at, has-discard_at,
}
use durable_infinite_context.Models.{Assertion, AssertionRelation, key_of}
use durable_infinite_context.Store.{
  MemoryStore, remove_assertion_indexes, add_assertion_indexes, add_assertion, remove_assertion,
  add_relation,
}
use durable_infinite_context.Store.References.{counted, add_refs-Follows, drop_refs-Follows}
use durable_infinite_context.Store.Invariant.{
  cited-put, cited-pop, cites-le-cited, Distinct-put, Distinct-pop, IsIndexed,
}

module _ {V : Type 0} where
  add_relation-IsIndexed :
      (rel : AssertionRelation) (s : MemoryStore V) → IsIndexed s → IsIndexed (add_relation rel s)
  unfolding add_relation keep
  add_relation-IsIndexed rel s v = record {
    named = v.named;
    distinct = v.distinct;
    by_key = v.by_key;
    by_subject = v.by_subject;
    by_source = λ q. ground (
      arith,
      set_at-append_at q rel.source_assertion_id rel s.relations_by_source,
      v.by_source q,
      v.by_source rel.source_assertion_id,
      keep-append (λ (r : AssertionRelation). str_eq r.source_assertion_id q) s.relations
          (rel ∷ []),
      append-nil (keep (λ (r : AssertionRelation). str_eq r.source_assertion_id q) s.relations),
      eq_iff q rel.source_assertion_id,
      eq_iff rel.source_assertion_id q,
    );
    counts = v.counts;
  }

  -- An assertion with a new id.
  added :
      (item : Assertion V) (s : MemoryStore V)
      → get item.id s.assertions ≡ none
      → IsIndexed s
      → IsIndexed
          (add_assertion_indexes item (record s { assertions = put item.id item s.assertions }))
  unfolding add_assertion_indexes
  added item s new v = record {
    named = λ q a at.
        ground (arith, v.named q a, get-put q item.id item s.assertions, eq_iff q item.id);
    distinct = Distinct-put item.id item s.assertions v.distinct;
    by_key = λ k q. ground (
      arith,
      has-add_at k (key_of item) item.id q s.assertions_by_key,
      v.by_key k q,
      get-put q item.id item s.assertions,
      eq_iff q item.id,
      new,
    );
    by_subject = λ k q. ground (
      arith,
      has-add_at k item.subject_id item.id q s.assertions_by_subject,
      v.by_subject k q,
      get-put q item.id item s.assertions,
      eq_iff q item.id,
      new,
    );
    by_source = v.by_source;
    counts = λ e q.
        add_refs-Follows item.evidence_ids item.subject_id s.evidence_subject_refcounts _ v.counts e
          q
        ∙ ap counted (ground (arith, cited-put e q item.id item s.assertions, new));
  }

  -- The assertion of an id, gone.
  removed :
      (p : String) (item : Assertion V) (s : MemoryStore V)
      → get p s.assertions ≡ some item
      → IsIndexed s
      → IsIndexed (remove_assertion_indexes item (record s { assertions = pop p s.assertions }))
  unfolding remove_assertion_indexes
  removed p item s there v =
      let same = v.named p item there in
      record {
        named = λ q a at. ground (arith, v.named q a, get-pop q p s.assertions, eq_iff q p);
        distinct = Distinct-pop p s.assertions v.distinct;
        by_key = λ k q. ground (
          arith,
          has-discard_at k (key_of item) item.id q s.assertions_by_key,
          v.by_key k q,
          get-pop q p s.assertions,
          eq_iff q p,
          same,
          there,
        );
        by_subject = λ k q. ground (
          arith,
          has-discard_at k item.subject_id item.id q s.assertions_by_subject,
          v.by_subject k q,
          get-pop q p s.assertions,
          eq_iff q p,
          same,
          there,
        );
        by_source = v.by_source;
        counts = λ e q.
            drop_refs-Follows item.evidence_ids item.subject_id s.evidence_subject_refcounts _
              v.counts e q
            ∙ ap counted (ground (arith, cited-pop e q p s.assertions v.distinct, there));
      }

  -- An assertion in the place of the one that had its id.
  replaced :
      (item previous : Assertion V) (s : MemoryStore V)
      → get item.id s.assertions ≡ some previous
      → IsIndexed s
      → IsIndexed (
          add_assertion_indexes item (record (remove_assertion_indexes previous s) {
            assertions = put item.id item s.assertions;
          }))
  unfolding add_assertion_indexes remove_assertion_indexes
  replaced item previous s there v =
      let same = v.named item.id previous there in
      record {
        named = λ q a at.
            ground (arith, v.named q a, get-put q item.id item s.assertions, eq_iff q item.id);
        distinct = Distinct-put item.id item s.assertions v.distinct;
        by_key = λ k q. ground (
          arith,
          has-add_at k (key_of item) item.id q
              (discard_at (key_of previous) previous.id s.assertions_by_key),
          has-discard_at k (key_of previous) previous.id q s.assertions_by_key,
          v.by_key k q,
          get-put q item.id item s.assertions,
          eq_iff q item.id,
          eq_iff q previous.id,
          same,
          there,
        );
        by_subject = λ k q. ground (
          arith,
          has-add_at k item.subject_id item.id q
              (discard_at previous.subject_id previous.id s.assertions_by_subject),
          has-discard_at k previous.subject_id previous.id q s.assertions_by_subject,
          v.by_subject k q,
          get-put q item.id item s.assertions,
          eq_iff q item.id,
          eq_iff q previous.id,
          same,
          there,
        );
        by_source = v.by_source;
        counts = λ e q.
            add_refs-Follows item.evidence_ids item.subject_id _ _
              (drop_refs-Follows previous.evidence_ids previous.subject_id
                s.evidence_subject_refcounts _ v.counts)
              e q
            ∙ ap counted (
                ground (
                  arith,
                  cited-put e q item.id item s.assertions,
                  cites-le-cited e q item.id s.assertions,
                  there,
                ));
      }

  -- Adding an assertion, new or in the place of the one with its id, keeps every index in step.
  pub add_assertion-IsIndexed :
      (item : Assertion V) (s : MemoryStore V) → IsIndexed s → IsIndexed (add_assertion item s)
  unfolding add_assertion
  add_assertion-IsIndexed item s v = elim (Option-cases (get item.id s.assertions)) [
    | inl new ↦ rw (new, add_assertion) (added item s new v)
    | inr (previous, there) ↦ rw (there, add_assertion) (replaced item previous s there v)
  ]

  -- Removing an assertion keeps every index in step; the id is not found afterwards.
  pub remove_assertion-IsIndexed :
      (q : String) (s : MemoryStore V)
      → IsIndexed s
      → let s' = (remove_assertion q s).1 in IsIndexed s' × (get q s'.assertions ≡ none)
  unfolding remove_assertion
  remove_assertion-IsIndexed q s v = elim (Option-cases (get q s.assertions)) [
    | inl nothing ↦ rw (nothing, remove_assertion) (v, nothing)
    | inr (item, there) ↦
        rw (there, remove_assertion)
          (removed q item s there v, ground (arith, get-pop q q s.assertions, eq_iff q q))
  ]
