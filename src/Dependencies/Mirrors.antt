-- ===== src/Dependencies/Mirrors.antt =====
-- The two directions of the edges.
use durable_infinite_context.Prelude.{
  List-cases, ◌≡◌, inl, inr, subst, String, false, ◌&&◌, ◌||◌, not, none, some, List, [], ◌∷◌,
  arith, str_eq, eq_iff, ok,
}
use durable_infinite_context.Prelude.Ids.{from_keys, has-from_keys, has, has-difference, difference}
use durable_infinite_context.Prelude.Buckets.{
  set_at, add_at, discard_at, set_at-put, set_at-pop, has-add_at, has-discard_at,
}
use durable_infinite_context.Prelude.Dicts.{text_key, Dict, get, get-pop}
use durable_infinite_context.Dependencies.{DerivationStatus, DependencyTrace, DependencyGraph}
use durable_infinite_context.Dependencies.Edges.{
  drop_edges, add_edges, register_derived, retire, remove_derived,
}

-- `dependents` and `dependencies` hold the same edges
abbrev pub IsMirrored : DependencyGraph → Type 0
IsMirrored g = (n d : String) → has n (set_at d g.dependents) ≡ has d (set_at n g.dependencies)

-- in step, with a node that has no status and no edge in either direction
abbrev pub IsRetired : String → DependencyGraph → Type 0
IsRetired node g =
    IsMirrored g
    × (get node g.status ≡ none)
    × ((d : String) → has node (set_at d g.dependents) ≡ false)
    × ((n : String) → has node (set_at n g.dependencies) ≡ false)

drop_edges-has :
    (n x q : String) (ks : List String) (d : Dict String (List String))
    → has x (set_at q (drop_edges n ks d)) ≡ (has x (set_at q d) && not (str_eq x n && has q ks))
unfolding drop_edges has
drop_edges-has n x q [] d = ground arith
drop_edges-has n x q (k ∷ ks) d =
    ground (arith, drop_edges-has n x q ks (discard_at k n d), has-discard_at q k n x d)

add_edges-has :
    (n x q : String) (ks : List String) (d : Dict String (List String))
    → has x (set_at q (add_edges n ks d)) ≡ (has x (set_at q d) || str_eq x n && has q ks)
unfolding add_edges has
add_edges-has n x q [] d = ground arith
add_edges-has n x q (k ∷ ks) d =
    ground (arith, add_edges-has n x q ks (add_at k n d), has-add_at q k n x d)

-- A registration keeps the two directions of the edges in step, and the node then depends on exactly
-- the given ids.
pub register_derived-IsMirrored :
    (node kind : String) (dependencies : List String) (status : DerivationStatus)
    (g : DependencyGraph)
    → IsMirrored g
    → let g' = (register_derived node kind dependencies status g).1 in
      IsMirrored g' × ((d : String) → has d (set_at node g'.dependencies) ≡ has d dependencies)
unfolding register_derived has
register_derived-IsMirrored node kind dependencies status g m = (
  (λ x q. ground (
    arith,
    add_edges-has node x q (difference (from_keys [] dependencies) (set_at node g.dependencies)) (
        drop_edges node (difference (set_at node g.dependencies) (from_keys [] dependencies))
          g.dependents),
    drop_edges-has node x q (difference (set_at node g.dependencies) (from_keys [] dependencies))
        g.dependents,
    has-difference q (from_keys [] dependencies) (set_at node g.dependencies),
    has-difference q (set_at node g.dependencies) (from_keys [] dependencies),
    set_at-put x node (from_keys [] dependencies) g.dependencies,
    m x q,
    eq_iff x node,
  )),
  λ q. ground (
    arith,
    set_at-put node node (from_keys [] dependencies) g.dependencies,
    has-from_keys q [] dependencies,
    eq_iff node node,
  ),
)

retire-set_at :
    (node x q : String) (g : DependencyGraph)
    → IsMirrored g
    → set_at node g.dependents ≡ []
    → let g' = (retire node g).1 in
      (has x (set_at q g'.dependents) ≡ (has x (set_at q g.dependents) && not (str_eq x node)))
      × (has q (set_at x g'.dependencies)
          ≡ (has q (set_at x g.dependencies) && not (str_eq x node)))
unfolding retire has
retire-set_at node x q g m empty = (
  ground (
    arith,
    set_at-pop q node (drop_edges node (set_at node g.dependencies) g.dependents),
    drop_edges-has node x q (set_at node g.dependencies) g.dependents,
    m x q,
    empty,
    eq_iff q node,
    eq_iff x node,
  ),
  ground (arith, set_at-pop x node g.dependencies, eq_iff x node),
)

retired :
    (node : String) (g : DependencyGraph)
    → IsMirrored g
    → set_at node g.dependents ≡ []
    → IsRetired node (retire node g).1
unfolding retire has
retired node g m empty = (
  (λ n d. ground (arith, retire-set_at node n d g m empty, m n d)),
  ground (arith, get-pop node node g.status, eq_iff node node),
  (λ d. ground (arith, (retire-set_at node node d g m empty).0, eq_iff node node)),
  (λ n. ground (arith, (retire-set_at node n node g m empty).1, m n node, empty)),
)

-- A removal of a known node that returns keeps the two directions of the edges in step, and afterwards
-- the node has no status, depends on nothing and has no dependents.
pub remove_derived-IsMirrored :
    (node : String) (g g' : DependencyGraph) (t : DependencyTrace) (s : DerivationStatus)
    → IsMirrored g
    → get node g.status ≡ some s
    → remove_derived node g ≡ ok (t, g')
    → IsRetired node g'
unfolding remove_derived
remove_derived-IsMirrored node g g' t s m known run = elim (List-cases (set_at node g.dependents)) [
  | inl empty ↦
      let e : (retire node g).1 ≡ g' = ground (arith, known, empty) in
      subst (IsRetired node) e (retired node g m empty)
  | inr (d, live, some_left) ↦ absurd (ground (arith, known, some_left))
]
