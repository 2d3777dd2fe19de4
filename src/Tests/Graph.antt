-- ===== src/Tests/Graph.antt =====
-- A small dependency graph with a cycle.
use durable_infinite_context.Prelude.{true, ◌≡◌, refl, ◌⊎◌, String, some, [], ◌∷◌, ok}
use durable_infinite_context.Prelude.Buckets.{set_at, add_at}
use durable_infinite_context.Prelude.Dicts.{text_key, get, put}
use durable_infinite_context.Prelude.Ids.{from_keys, has, add_id, difference}
use durable_infinite_context.Dependencies.{
  fresh, invalid, DependencyTrace, DependencyGraph, invalidate_from,
}
use durable_infinite_context.Dependencies.Edges.{
  register_derived, remove_derived, retire, add_edges, drop_edges,
}
use durable_infinite_context.Dependencies.Lifecycle.{invalidate_nodes}
use durable_infinite_context.Dependencies.Nodes.{known, invalidate_nodes_exact}
use durable_infinite_context.Dependencies.Mirrors.{
  IsMirrored, IsRetired, register_derived-IsMirrored, remove_derived-IsMirrored,
}
use durable_infinite_context.Dependencies.Exactness.{Affected, invalidate_from_exact}

abbrev cyclic : DependencyGraph
cyclic = record {
  dependencies = ("a", "e" ∷ "b" ∷ []) ∷ ("b", "a" ∷ []) ∷ [];
  dependents = ("e", "a" ∷ []) ∷ ("a", "b" ∷ []) ∷ ("b", "a" ∷ []) ∷ [];
  status = ("a", fresh) ∷ ("b", fresh) ∷ ("c", fresh) ∷ [];
  kind = ("a", "summary") ∷ ("b", "summary") ∷ ("c", "summary") ∷ [];
}

invalidate_from_exact_example :
    (t : DependencyTrace) × (g' : DependencyGraph) × (invalidate_from cyclic ("e" ∷ [])
      ≡ some (t, g'))
    × ((d : String) → Affected cyclic ("e" ∷ []) d → get d g'.status ≡ some invalid)
    × ((d : String) → (get d g'.status ≡ get d cyclic.status) ⊎ Affected cyclic ("e" ∷ []) d)
    × (g'.dependents ≡ cyclic.dependents)
    × (g'.dependencies ≡ cyclic.dependencies)
    × (g'.kind ≡ cyclic.kind)
invalidate_from_exact_example = invalidate_from_exact cyclic ("e" ∷ [])

abbrev empty_graph : DependencyGraph
empty_graph = record { dependencies = []; dependents = []; status = []; kind = [] }

abbrev registered : DependencyGraph
registered = (register_derived "a" "summary" ("e" ∷ "b" ∷ "e" ∷ []) fresh empty_graph).1

empty_graph-IsMirrored : IsMirrored empty_graph
unfolding set_at has get
empty_graph-IsMirrored n d = refl

register_derived-IsMirrored_example :
    IsMirrored registered
    × ((d : String) → has d (set_at "a" registered.dependencies) ≡ has d ("e" ∷ "b" ∷ "e" ∷ []))
register_derived-IsMirrored_example =
    register_derived-IsMirrored "a" "summary" ("e" ∷ "b" ∷ "e" ∷ []) fresh empty_graph
      empty_graph-IsMirrored

known_a : get "a" registered.status ≡ some fresh
unfolding register_derived get put
known_a = refl

removed_a : remove_derived "a" registered ≡ ok (retire "a" registered)
unfolding remove_derived register_derived set_at get put from_keys difference has add_edges add_at
    drop_edges add_id
removed_a = refl

remove_derived-IsMirrored_example : IsRetired "a" (retire "a" registered).1
remove_derived-IsMirrored_example =
    remove_derived-IsMirrored "a" registered (retire "a" registered).1 (retire "a" registered).0
      fresh register_derived-IsMirrored_example.0 known_a removed_a

invalidate_nodes_exact_example :
    (t : DependencyTrace) × (g' : DependencyGraph) × (invalidate_nodes cyclic ("a" ∷ "e" ∷ [])
      ≡ some (t, g'))
    × ((d : String) → has d (known cyclic ("a" ∷ "e" ∷ [])) ≡ true → get d g'.status ≡ some invalid)
    × ((d : String)
        → Affected cyclic (known cyclic ("a" ∷ "e" ∷ [])) d
        → get d g'.status ≡ some invalid)
    × ((d : String)
        → (get d g'.status ≡ get d cyclic.status)
          ⊎ (has d (known cyclic ("a" ∷ "e" ∷ [])) ≡ true)
          ⊎ Affected cyclic (known cyclic ("a" ∷ "e" ∷ [])) d)
invalidate_nodes_exact_example = invalidate_nodes_exact cyclic ("a" ∷ "e" ∷ [])
