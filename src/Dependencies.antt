-- ===== src/Dependencies.antt =====
-- state/dependencies.py, DependencyGraph: the dictionaries of the graph and the invalidation of what
-- depends on a set of roots. A set of ids is a list without repetition, in some order.
pub mod Edges
pub mod Lifecycle
pub mod Mirrors
pub mod Nodes
pub mod Walks
pub mod Exactness
use durable_infinite_context.Prelude.{
  ℕ, zero, suc, ◌+◌, String, Bool, true, false, Option, none, some, List, [], ◌∷◌, ◌++◌,
  if◌then◌else◌, length,
}
use durable_infinite_context.Prelude.Ids.{from_keys, has, add_id}
use durable_infinite_context.Prelude.Buckets.{set_at}
use durable_infinite_context.Prelude.Dicts.{text_key, Dict, get, put}

pub data DerivationStatus : Type 0 where
  fresh invalid rebuilding : DerivationStatus

pub record DependencyTrace : Type 0 where
  pub roots_seen : ℕ
  pub nodes_visited : ℕ
  pub edges_traversed : ℕ
  pub nodes_invalidated : ℕ
  pub nodes_rebuilt : ℕ
  pub nodes_retired : ℕ
  pub dependency_edges_registered : ℕ
  pub dependency_edges_removed : ℕ
  pub assertion_reads : ℕ
  pub relation_reads : ℕ
  pub evidence_reads : ℕ
  pub profile_work : ℕ
  pub materialization_reads : ℕ
  pub materialization_writes : ℕ
  pub invalidated_node_ids : List String

abbrev pub no_trace : DependencyTrace
no_trace = record {
  roots_seen = 0;
  nodes_visited = 0;
  edges_traversed = 0;
  nodes_invalidated = 0;
  nodes_rebuilt = 0;
  nodes_retired = 0;
  dependency_edges_registered = 0;
  dependency_edges_removed = 0;
  assertion_reads = 0;
  relation_reads = 0;
  evidence_reads = 0;
  profile_work = 0;
  materialization_reads = 0;
  materialization_writes = 0;
  invalidated_node_ids = [];
}

pub record DependencyGraph : Type 0 where
  pub dependencies : Dict String (List String)
  pub dependents : Dict String (List String)
  pub status : Dict String DerivationStatus
  pub kind : Dict String String

-- `self._dependents.get(current, set())`
unfoldable pub dependents_set : DependencyGraph → String → List String
unfolding set_at
dependents_set g q = set_at q g.dependents

abbrev pub is_invalid : Option DerivationStatus → Bool
is_invalid (some invalid) = true
is_invalid _ = false

-- the variables of the traversal, with the statuses that it changes
pub record Walk : Type 0 where
  pub status : Dict String DerivationStatus
  pub seen : List String
  pub queue : List String
  pub trace : DependencyTrace

unfoldable pub invalidate : String → Walk → Walk
invalidate d w = if is_invalid (get d w.status) then w else record w {
  status = put d invalid w.status;
  trace = record w.trace {
    nodes_invalidated = w.trace.nodes_invalidated + 1;
    invalidated_node_ids = add_id d w.trace.invalidated_node_ids;
  };
}

unfoldable pub enqueue : String → Walk → Walk
enqueue d w = if has d w.seen then w else record w { seen = d ∷ w.seen; queue = w.queue ++ d ∷ [] }

-- `for dependent in dependents`
unfoldable pub touch_all : List String → Walk → Walk
unfolding invalidate enqueue
touch_all [] w = w
touch_all (d ∷ ds) w = touch_all ds (enqueue d (invalidate d w))

-- one round of the queue, with its head taken off
unfoldable pub visit : DependencyGraph → String → List String → Walk → Walk
unfolding dependents_set touch_all
visit g q rest w =
    let ds = dependents_set g q in
    touch_all ds (record w {
      queue = rest;
      trace = record w.trace {
        nodes_visited = w.trace.nodes_visited + 1;
        edges_traversed = w.trace.edges_traversed + length ds;
      };
    })

-- `while queue`, for at most so many rounds
unfoldable pub walk : ℕ → DependencyGraph → Walk → Option Walk
walk zero g w = elim w.queue [ [] ↦ some w | q ∷ rest ↦ none ]
walk (suc n) g w = elim w.queue [ [] ↦ some w | q ∷ rest ↦ walk n g (visit g q rest w) ]

-- every dependent that the graph has, repeated for each of its dependencies
unfoldable pub all_dependents : Dict String (List String) → List String
all_dependents [] = []
all_dependents ((k, ds) ∷ d) = ds ++ all_dependents d

abbrev pub start : DependencyGraph → List String → Walk
start g roots = record {
  status = g.status;
  seen = roots;
  queue = roots;
  trace = record no_trace { roots_seen = length roots };
}

-- Each round takes a root or a dependent that was not seen before.
unfoldable pub invalidate_from :
    DependencyGraph → List String → Option (DependencyTrace × DependencyGraph)
unfolding walk from_keys all_dependents
invalidate_from g root_ids =
    let roots = from_keys [] root_ids in
    elim (walk (length roots + length (all_dependents g.dependents)) g (start g roots)) [
      | none ↦ none
      | some w ↦ some (w.trace, record g { status = w.status })
    ]
