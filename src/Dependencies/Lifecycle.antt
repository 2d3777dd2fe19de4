-- ===== src/Dependencies/Lifecycle.antt =====
-- DependencyGraph.invalidate_nodes, mark_rebuilding and mark_fresh, DependencyTrace.absorb and
-- logical_work, and the queries on the statuses and the edges.
use durable_infinite_context.Prelude.{
  ℕ, ◌+◌, String, Option, none, some, List, [], ◌∷◌, ◌++◌, if◌then◌else◌, length, Outcome, ok, err,
}
use durable_infinite_context.Prelude.Ids.{from_keys, add_id, union, sort_texts}
use durable_infinite_context.Prelude.Buckets.{set_at}
use durable_infinite_context.Prelude.Dicts.{text_key, Dict, get, put}
use durable_infinite_context.Dependencies.{
  DerivationStatus, fresh, invalid, rebuilding, DependencyTrace, no_trace, DependencyGraph,
  is_invalid, invalidate_from,
}

abbrev pub logical_work : DependencyTrace → ℕ
logical_work t =
    t.roots_seen + t.nodes_visited + t.edges_traversed + t.nodes_invalidated + t.nodes_rebuilt
    + t.nodes_retired + t.dependency_edges_registered + t.dependency_edges_removed
    + t.assertion_reads + t.relation_reads + t.evidence_reads + t.profile_work
    + t.materialization_reads + t.materialization_writes

abbrev pub absorb : DependencyTrace → DependencyTrace → DependencyTrace
absorb t o = record {
  roots_seen = t.roots_seen + o.roots_seen;
  nodes_visited = t.nodes_visited + o.nodes_visited;
  edges_traversed = t.edges_traversed + o.edges_traversed;
  nodes_invalidated = t.nodes_invalidated + o.nodes_invalidated;
  nodes_rebuilt = t.nodes_rebuilt + o.nodes_rebuilt;
  nodes_retired = t.nodes_retired + o.nodes_retired;
  dependency_edges_registered = t.dependency_edges_registered + o.dependency_edges_registered;
  dependency_edges_removed = t.dependency_edges_removed + o.dependency_edges_removed;
  assertion_reads = t.assertion_reads + o.assertion_reads;
  relation_reads = t.relation_reads + o.relation_reads;
  evidence_reads = t.evidence_reads + o.evidence_reads;
  profile_work = t.profile_work + o.profile_work;
  materialization_reads = t.materialization_reads + o.materialization_reads;
  materialization_writes = t.materialization_writes + o.materialization_writes;
  invalidated_node_ids = union t.invalidated_node_ids o.invalidated_node_ids;
}

-- the variables of the loop over the given nodes
pub record Marking : Type 0 where
  pub status : Dict String DerivationStatus
  pub roots : List String
  pub trace : DependencyTrace

unfoldable pub mark_one : String → Marking → Marking
mark_one n m = elim (get n m.status) [
  | none ↦ m
  | some s ↦ if is_invalid (some s) then record m { roots = m.roots ++ n ∷ [] } else record {
    status = put n invalid m.status;
    roots = m.roots ++ n ∷ [];
    trace = record m.trace {
      nodes_invalidated = m.trace.nodes_invalidated + 1;
      invalidated_node_ids = add_id n m.trace.invalidated_node_ids;
    };
  }
]

unfoldable pub mark_known : List String → Marking → Marking
mark_known [] m = m
mark_known (n ∷ ns) m = mark_known ns (mark_one n m)

abbrev pub marked : DependencyGraph → List String → Marking
marked g node_ids =
    mark_known (from_keys [] node_ids) (record { status = g.status; roots = []; trace = no_trace })

unfoldable pub invalidate_nodes :
    DependencyGraph → List String → Option (DependencyTrace × DependencyGraph)
invalidate_nodes g node_ids =
    let m = marked g node_ids in
    let g' : DependencyGraph = record g { status = m.status } in
    elim m.roots [
      | [] ↦ some (m.trace, g')
      | r ∷ roots ↦ elim (invalidate_from g' (r ∷ roots)) [
        | none ↦ none
        | some (t, g'') ↦ some (absorb m.trace t, g'')
      ]
    ]

-- The error is the KeyError, with the unknown node.
unfoldable pub mark : DerivationStatus → String → DependencyGraph → Outcome String DependencyGraph
mark s node g = elim (get node g.status) [
  | none ↦ err node
  | some old ↦ ok (record g { status = put node s g.status })
]

abbrev pub mark_rebuilding : String → DependencyGraph → Outcome String DependencyGraph
mark_rebuilding = mark rebuilding

abbrev pub mark_fresh : String → DependencyGraph → Outcome String DependencyGraph
mark_fresh = mark fresh

abbrev pub dependencies_of : DependencyGraph → String → List String
dependencies_of g n = sort_texts (set_at n g.dependencies)

abbrev pub dependents_of : DependencyGraph → String → List String
dependents_of g n = sort_texts (set_at n g.dependents)

unfoldable pub with_invalid : Dict String DerivationStatus → List String
with_invalid [] = []
with_invalid ((n, s) ∷ d) =
    let rest = with_invalid d in if is_invalid (some s) then n ∷ rest else rest

abbrev pub invalid_nodes : DependencyGraph → List String
invalid_nodes g = sort_texts (with_invalid g.status)

abbrev pub edges_in : Dict String (List String) → ℕ
edges_in [] = 0
edges_in ((n, l) ∷ d) = length l + edges_in d

abbrev pub edge_count : DependencyGraph → ℕ
edge_count g = edges_in g.dependencies
