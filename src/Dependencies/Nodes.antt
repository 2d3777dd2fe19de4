-- ===== src/Dependencies/Nodes.antt =====
-- invalidate_nodes against the known nodes among the given ones and what depends on them.
use durable_infinite_context.Prelude.{
  List-cases, ◌≡◌, refl, sym, ap, ◌∙◌, ◌⊎◌, inl, inr, String, Bool, true, false, ◌&&◌, ◌||◌, Option,
  none, some, List, [], ◌∷◌, arith, eq_iff, Bool-cases, Option-cases, if◌then◌else◌,
}
use durable_infinite_context.Prelude.Ids.{from_keys, has-from_keys, has, has-append}
use durable_infinite_context.Prelude.Dicts.{text_key, get, get-put}
use durable_infinite_context.Dependencies.{
  DerivationStatus, invalid, DependencyTrace, no_trace, DependencyGraph, is_invalid, dependents_set,
}
use durable_infinite_context.Dependencies.Walks.{is_invalid_iff}
use durable_infinite_context.Dependencies.Exactness.{
  Reach, root, dependent, Affected, has-Reach, invalidate_from_exact,
}
use durable_infinite_context.Dependencies.Lifecycle.{
  Marking, mark_one, mark_known, marked, absorb, invalidate_nodes,
}

abbrev is_known : Option DerivationStatus → Bool
is_known none = false
is_known (some s) = true

-- the given nodes that have a status
abbrev pub known : DependencyGraph → List String → List String
known g [] = []
known g (n ∷ ns) = let rest = known g ns in if is_known (get n g.status) then n ∷ rest else rest

has-known :
    (g : DependencyGraph) (d : String) (ns : List String)
    → has d (known g ns) ≡ (has d ns && is_known (get d g.status))
unfolding has
has-known g d [] = refl
has-known g d (n ∷ ns) = ground (arith, has-known g d ns, eq_iff d n)

record Marks (ns : List String) (m m' : Marking) : Type 0 where
  roots : (d : String) → has d m'.roots ≡ (has d m.roots || has d ns && is_known (get d m.status))
  status :
      (d : String)
      → get d m'.status
        ≡ (if has d ns && is_known (get d m.status) then some invalid else get d m.status)

mark_one-Marks : (n : String) (m : Marking) → Marks (n ∷ []) m (mark_one n m)
unfolding mark_one has
mark_one-Marks n m = elim (Option-cases (get n m.status)) [
  | inl unknown ↦ record {
    roots = λ d. ground (arith, unknown, eq_iff d n);
    status = λ d. ground (arith, unknown, eq_iff d n);
  }
  | inr (s, at) ↦ elim (Bool-cases (is_invalid (some s))) [
    | inl already ↦
        let is = is_invalid_iff (some s) already in
        record {
          roots = λ d. ground (arith, at, already, eq_iff d n, has-append d m.roots (n ∷ []));
          status = λ d. ground (arith, at, already, is, eq_iff d n);
        }
    | inr other ↦ record {
      roots = λ d. ground (arith, at, other, eq_iff d n, has-append d m.roots (n ∷ []));
      status = λ d. ground (arith, at, other, eq_iff d n, get-put d n invalid m.status);
    }
  ]
]

mark_known-Marks : (ns : List String) (m : Marking) → Marks ns m (mark_known ns m)
unfolding mark_known has
mark_known-Marks [] m = record { roots = λ d. ground arith; status = λ d. refl }
mark_known-Marks (n ∷ ns) m =
    let one = mark_one-Marks n m in
    let rest = mark_known-Marks ns (mark_one n m) in
    record {
      roots = λ d. ground (arith, one.roots d, one.status d, rest.roots d);
      status = λ d. ground (arith, one.status d, rest.status d);
    }

marked-has :
    (g : DependencyGraph) (ids : List String) (d : String)
    → (has d (marked g ids).roots ≡ has d (known g ids))
      × (get d (marked g ids).status
          ≡ (if has d (known g ids) then some invalid else get d g.status))
unfolding has
marked-has g ids d =
    let m =
      mark_known-Marks (from_keys [] ids)
        (record { status = g.status; roots = []; trace = no_trace }) in
    (
      ground (arith, m.roots d, has-known g d ids, has-from_keys d [] ids),
      ground (arith, m.status d, has-known g d ids, has-from_keys d [] ids),
    )

no_roots :
    (g : DependencyGraph) (roots : List String)
    → ((q : String) → has q roots ≡ false)
    → (q : String) → Reach g roots q
    → ⊥
no_roots g roots none_there q (root h) = ground (arith, none_there q)
no_roots g roots none_there q (dependent {q = p} r there) = no_roots g roots none_there p r

-- An invalidation of nodes always comes to an end. Then every given node that has a status, and every
-- node that depends on one, directly or through others, is invalid; every other status is what it was.
pub invalidate_nodes_exact :
    (g : DependencyGraph) (node_ids : List String)
    → (t : DependencyTrace) × (g' : DependencyGraph) × (invalidate_nodes g node_ids ≡ some (t, g'))
      × ((d : String) → has d (known g node_ids) ≡ true → get d g'.status ≡ some invalid)
      × ((d : String) → Affected g (known g node_ids) d → get d g'.status ≡ some invalid)
      × ((d : String)
          → (get d g'.status ≡ get d g.status)
            ⊎ (has d (known g node_ids) ≡ true)
            ⊎ Affected g (known g node_ids) d)
unfolding invalidate_nodes has dependents_set
invalidate_nodes_exact g node_ids =
    let m = marked g node_ids in
    let g₁ : DependencyGraph = record g { status = m.status } in
    let ids = known g node_ids in
    elim (List-cases m.roots) [
      | inl nothing ↦
          let out : (d : String) → has d ids ≡ false =
            λ d. sym (marked-has g node_ids d).0 ∙ ap (has d) nothing in
          (
            m.trace,
            g₁,
            ground (arith, nothing),
            (λ d h. absurd (ground (arith, out d))),
            (λ d (q, r, there). absurd (no_roots g ids out q r)),
            (λ d. inl (ground (arith, (marked-has g node_ids d).1, out d))),
          )
      | inr (r, rs, some_there) ↦
          let (t, g₂, run, hit, other, same₁, same₂, same₃) = invalidate_from_exact g₁ m.roots in
          let back = λ (q : String) (r : Reach g₁ m.roots q).
            has-Reach g₁ g m.roots ids (λ x. refl) (λ x h. sym (marked-has g node_ids x).0 ∙ h) q
              r in
          let forth = λ (q : String) (r : Reach g ids q).
            has-Reach g g₁ ids m.roots (λ x. refl) (λ x h. (marked-has g node_ids x).0 ∙ h) q r in
          (
            absorb m.trace t,
            g₂,
            ground (arith, some_there, run),
            (λ d h. elim (other d) [
              | inl same ↦ same ∙ ground (arith, (marked-has g node_ids d).1, h)
              | inr affected ↦ hit d affected
            ]),
            (λ d (q, r, there). hit d (q, forth q r, there)),
            (λ d. elim (Bool-cases (has d ids)) [
              | inl there ↦ inr (inl there)
              | inr out ↦ elim (other d) [
                | inl same ↦ inl (same ∙ ground (arith, (marked-has g node_ids d).1, out))
                | inr (q, r, there) ↦ inr (inr (q, back q r, there))
              ]
            ]),
          )
    ]
