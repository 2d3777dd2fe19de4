-- ===== src/Dependencies/Edges.antt =====
-- DependencyGraph.register_derived and remove_derived: the edges of a node, kept in both directions.
use durable_infinite_context.Prelude.{String, none, some, List, [], ◌∷◌, length, Outcome, ok, err}
use durable_infinite_context.Prelude.Ids.{from_keys, difference, sort_texts}
use durable_infinite_context.Prelude.Buckets.{set_at, add_at, discard_at}
use durable_infinite_context.Prelude.Dicts.{text_key, Dict, get, put, pop}
use durable_infinite_context.Dependencies.{
  DerivationStatus, DependencyTrace, no_trace, DependencyGraph,
}

-- the node leaves the dependents of each of the ids
unfoldable pub drop_edges :
    String → List String → Dict String (List String) → Dict String (List String)
drop_edges node [] d = d
drop_edges node (k ∷ ks) d = drop_edges node ks (discard_at k node d)

unfoldable pub add_edges :
    String → List String → Dict String (List String) → Dict String (List String)
add_edges node [] d = d
add_edges node (k ∷ ks) d = add_edges node ks (add_at k node d)

unfoldable pub register_derived :
    String
    → String
    → List String
    → DerivationStatus
    → DependencyGraph
    → DependencyTrace × DependencyGraph
register_derived node kind dependencies status g =
    let old = set_at node g.dependencies in
    let new = from_keys [] dependencies in
    let gone = difference old new in
    let added = difference new old in
    (
      record no_trace {
        dependency_edges_removed = length gone;
        dependency_edges_registered = length added;
      },
      record {
        dependencies = put node new g.dependencies;
        dependents = add_edges node added (drop_edges node gone g.dependents);
        status = put node status g.status;
        kind = put node kind g.kind;
      },
    )

-- the removal of a node without dependents
unfoldable pub retire : String → DependencyGraph → DependencyTrace × DependencyGraph
retire node g =
    let dependencies = set_at node g.dependencies in
    (
      record no_trace { dependency_edges_removed = length dependencies; nodes_retired = 1 },
      record {
        dependencies = pop node g.dependencies;
        dependents = pop node (drop_edges node dependencies g.dependents);
        status = pop node g.status;
        kind = pop node g.kind;
      },
    )

-- The error is the ValueError, with the dependents that remain.
unfoldable pub remove_derived :
    String → DependencyGraph → Outcome (List String) (DependencyTrace × DependencyGraph)
unfolding retire
remove_derived node g = elim (get node g.status) [
  | none ↦ ok (no_trace, g)
  | some s ↦ elim (set_at node g.dependents) [
    | [] ↦ ok (retire node g)
    | d ∷ live ↦ err (sort_texts (d ∷ live))
  ]
]
