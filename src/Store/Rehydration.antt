-- ===== src/Store/Rehydration.antt =====
-- The rebuilt indexes of a MemoryStore.
use mathlib.Core.List.{append-nil, append_assoc}
use durable_infinite_context.Prelude.{
  ℕ, ◌+◌, ◌≡◌, refl, sym, ap, ◌∙◌, String, ◌||◌, some, List, [], ◌∷◌, ◌++◌, keep, str_eq, eq_iff,
  arith,
}
use durable_infinite_context.Prelude.Ids.{has}
use durable_infinite_context.Prelude.Dicts.{text_key, triple_key, Dict, get}
use durable_infinite_context.Prelude.Buckets.{set_at, append_at, set_at-append_at, has-add_at}
use durable_infinite_context.Models.{Assertion, AssertionRelation, Key, key_of}
use durable_infinite_context.Store.{MemoryStore, add_assertion_indexes}
use durable_infinite_context.Store.Rebuild.{index_all, index_relations, rebuild_locality_indexes}
use durable_infinite_context.Store.References.{counted, Follows, add_refs-Follows}
use durable_infinite_context.Store.Invariant.{Distinct, cited, with_key, with_subject, IsIndexed}

by_source_all :
    (rels : List AssertionRelation) (d : Dict String (List AssertionRelation)) (q : String)
    → set_at q (index_relations rels d)
      ≡ set_at q d ++ keep (λ r. str_eq r.source_assertion_id q) rels
unfolding index_relations keep
by_source_all [] d q = sym (append-nil _)
by_source_all (rel ∷ rels) d q = ground (
  arith,
  by_source_all rels (append_at rel.source_assertion_id rel d) q,
  set_at-append_at q rel.source_assertion_id rel d,
  append_assoc (set_at q d) (rel ∷ [])
      (keep (λ (r : AssertionRelation). str_eq r.source_assertion_id q) rels),
  eq_iff q rel.source_assertion_id,
  eq_iff rel.source_assertion_id q,
)

module _ {V : Type 0} where
  -- every assertion stands under its own id
  abbrev pub Named : Dict String (Assertion V) → Type 0
  Named [] = Unit
  Named ((k, a) ∷ d) = (a.id ≡ k) × Named d

  get-Named :
      (d : Dict String (Assertion V))
      → Named d
      → (q : String) (a : Assertion V) → get q d ≡ some a
      → a.id ≡ q
  unfolding get
  get-Named [] n q a at = cc
  get-Named ((k, b) ∷ d) n q a at = ground (arith, get-Named d n.1 q a, eq_iff q k)

  by_key_all :
      (d : Dict String (Assertion V)) (s : MemoryStore V) (k : Key) (q : String)
      → Named d
      → Distinct d
      → has q (set_at k (index_all d s).assertions_by_key)
        ≡ (has q (set_at k s.assertions_by_key) || with_key k (get q d))
  unfolding index_all add_assertion_indexes get
  by_key_all [] s k q n u = ground arith
  by_key_all ((j, a) ∷ d) s k q n u = ground (
    arith,
    by_key_all d (add_assertion_indexes a s) k q n.1 u.1,
    has-add_at k (key_of a) a.id q s.assertions_by_key,
    n.0,
    u.0,
    eq_iff q j,
  )

  by_subject_all :
      (d : Dict String (Assertion V)) (s : MemoryStore V) (k q : String)
      → Named d
      → Distinct d
      → has q (set_at k (index_all d s).assertions_by_subject)
        ≡ (has q (set_at k s.assertions_by_subject) || with_subject k (get q d))
  unfolding index_all add_assertion_indexes get
  by_subject_all [] s k q n u = ground arith
  by_subject_all ((j, a) ∷ d) s k q n u = ground (
    arith,
    by_subject_all d (add_assertion_indexes a s) k q n.1 u.1,
    has-add_at k a.subject_id a.id q s.assertions_by_subject,
    n.0,
    u.0,
    eq_iff q j,
  )

  counts_all :
      (d : Dict String (Assertion V)) (s : MemoryStore V) (table : String → String → ℕ)
      → Follows s.evidence_subject_refcounts table
      → Follows (index_all d s).evidence_subject_refcounts (λ e q. table e q + cited e q d)
  unfolding index_all add_assertion_indexes cited
  counts_all [] s table f e q = f e q ∙ ap counted (ground arith)
  counts_all ((j, a) ∷ d) s table f e q =
      counts_all d (add_assertion_indexes a s) _
        (add_refs-Follows a.evidence_ids a.subject_id s.evidence_subject_refcounts table f) e q
      ∙ ap counted (ground arith)

  kept_all :
      (d : Dict String (Assertion V)) (s : MemoryStore V)
      → let s' = index_all d s in
        (s'.assertions ≡ s.assertions)
        × (s'.relations ≡ s.relations)
        × (s'.relations_by_source ≡ s.relations_by_source)
  unfolding index_all add_assertion_indexes
  kept_all [] s = (refl, refl, refl)
  kept_all ((j, a) ∷ d) s = kept_all d (add_assertion_indexes a s)

  -- Rebuilding puts every index in step, whatever the indexes held before, if every assertion stands
  -- once, under its own id; the assertions and the relations stay.
  pub rebuild_locality_indexes-IsIndexed :
      (s : MemoryStore V)
      → Named s.assertions
      → Distinct s.assertions
      → let s' = rebuild_locality_indexes s in
        IsIndexed s' × (s'.assertions ≡ s.assertions) × (s'.relations ≡ s.relations)
  unfolding rebuild_locality_indexes set_at get has
  rebuild_locality_indexes-IsIndexed s n u =
      let bare : MemoryStore V = record s {
        assertions_by_key = [];
        assertions_by_subject = [];
        evidence_subject_refcounts = [];
        relations_by_source = [];
      } in
      let (same, rels, sources) = kept_all s.assertions bare in
      let at = λ (q : String). ap (get q) same in
      (
        record {
          named = λ q a h. get-Named s.assertions n q a (sym (at q) ∙ h);
          distinct = rw same u;
          by_key = λ k q. by_key_all s.assertions bare k q n u ∙ ap (with_key k) (sym (at q));
          by_subject =
              λ k q. by_subject_all s.assertions bare k q n u ∙ ap (with_subject k) (sym (at q));
          by_source = λ q.
              by_source_all s.relations (index_all s.assertions bare).relations_by_source q
              ∙ ap
                  (λ d.
                    set_at q d
                    ++ keep (λ (r : AssertionRelation). str_eq r.source_assertion_id q) s.relations)
                  sources
              ∙ ap (keep (λ (r : AssertionRelation). str_eq r.source_assertion_id q)) (sym rels);
          counts = λ e q.
              counts_all s.assertions bare (λ e q. 0) (λ e q. refl) e q
              ∙ ap counted (omega (arith, ap (cited e q) same));
        },
        same,
        rels,
      )
