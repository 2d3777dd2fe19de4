-- ===== src/Store/Rebuild.antt =====
-- MemoryStore.rebuild_locality_indexes: the indexes from nothing, one record after another.
use durable_infinite_context.Prelude.{String, List, [], ◌∷◌}
use durable_infinite_context.Prelude.Dicts.{text_key, Dict}
use durable_infinite_context.Prelude.Buckets.{append_at}
use durable_infinite_context.Models.{Assertion, AssertionRelation}
use durable_infinite_context.Store.{MemoryStore, add_assertion_indexes}

unfoldable pub index_relations :
    List AssertionRelation
    → Dict String (List AssertionRelation)
    → Dict String (List AssertionRelation)
index_relations [] d = d
index_relations (rel ∷ rels) d = index_relations rels (append_at rel.source_assertion_id rel d)

module _ {V : Type 0} where
  unfoldable pub index_all : Dict String (Assertion V) → MemoryStore V → MemoryStore V
  index_all [] s = s
  index_all ((k, item) ∷ d) s = index_all d (add_assertion_indexes item s)

  unfoldable pub rebuild_locality_indexes : MemoryStore V → MemoryStore V
  unfolding index_all index_relations
  rebuild_locality_indexes s =
      let indexed = index_all s.assertions (record s {
        assertions_by_key = [];
        assertions_by_subject = [];
        evidence_subject_refcounts = [];
        relations_by_source = [];
      }) in
      record indexed {
        relations_by_source = index_relations s.relations indexed.relations_by_source;
      }
