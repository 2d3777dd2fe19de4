-- ===== src/Radix/Tree/Growth.antt =====
-- The nodes of a new mapping hung below the node where its path broke off.
use durable_infinite_context.Prelude.{
  ℕ, suc, ◌+◌, ◌*◌, ◌%◌, ◌<◌, ◌≤◌, ◌≡◌, ◌≢◌, ◌⊎◌, inl, inr, some, List, [], ◌∷◌, length, All, ◌==◌,
  if◌then◌else◌, arith, refl, sym, ap, subst, ◌∙◌, some_same,
}
use native.Mathlib.Decide.{ℕ_discrete}
use durable_infinite_context.Prelude.Dicts.{number_key, get, put}
use durable_infinite_context.Radix.{Node, new_bases, first_or, children}
use durable_infinite_context.Radix.Tree.{
  View, reach, extent, empty_node, linked, Tree, Grafted, List-same,
}
use durable_infinite_context.Radix.Tree.Links.{Spot, Linked, Linked-Grafted, Linked-Tree}

-- the path that goes on from another one
abbrev pub onto : List ℕ → List ℕ → List ℕ
onto [] p = p
onto (d ∷ ds) p = onto ds (d ∷ p)

-- All pages of a segment are clear of what is reached.
pub record Clear (v : View) (segment : ℕ) : Type 0 where
  pub low : 2 ≤ segment
  pub halves : segment % 2 ≡ 0
  pub away :
      (q : List ℕ) (b : ℕ)
      → length q ≤ 8
      → reach v q ≡ some b
      → (b + extent q ≤ segment) ⊎ (segment + 32 ≤ b)

-- What the writes have put into a view, from a free entry down to the segment.
pub record Planted (v w : View) (p : List ℕ) (base : ℕ) (n : Node) (d : ℕ) (ds : List ℕ)
    (at segment : ℕ) : Type 0 where
  pub parent : w base ≡ some (linked d (first_or (new_bases (length ds) at) segment) n)
  pub nodes :
      All
        (λ row. w row.0 ≡ some row.1)
        (children (suc (length p)) ds (new_bases (length ds) at) segment)
  pub rest : (q : List ℕ) (b : ℕ) → length q < 8 → reach v q ≡ some b → b ≢ base → w b ≡ v b

-- One segment more, and every other one as it was.
pub record Grown (v w : View) (path : List ℕ) (segment frontier : ℕ) : Type 0 where
  pub tree : Tree w frontier
  pub here : reach w path ≡ some segment
  pub others : (q : List ℕ) → length q ≡ 8 → q ≢ path → reach w q ≡ reach v q

-- the view with one link made
abbrev with_link : View → ℕ → Node → ℕ → ℕ → ℕ → View
with_link v base n d at depth x =
    if x == at then some (empty_node depth) else if x == base then some (linked d at n) else v x

with_link-Linked :
    (v : View) (p : List ℕ) (base : ℕ) (n : Node) (d at : ℕ)
    → Tree v at
    → Spot v p base n d
    → Linked v (with_link v base n d at (suc (length p))) base n d at p
with_link-Linked v p base n d at t spot =
    let short : length p < 8 = spot.short in
    let (low, below) = t.inside p base (omega arith) spot.run in
    record {
      parent = ground arith;
      child = λ deep. ground arith;
      rest =
          λ q b short' run ne. let (low', below') = t.inside q b (omega arith) run in ground arith;
    }

-- What one link leaves to be planted below its new node.
module _ (v w : View) (p : List ℕ) (base : ℕ) (n : Node) (d at segment e : ℕ) (ds : List ℕ)
    (t : Tree v at) (spot : Spot v p base n d)
    (planted : Planted v w p base n d (e ∷ ds) at segment) (deep : length p < 7) where
  abbrev linked_view : View
  linked_view = with_link v base n d at (suc (length p))

  step_link : Linked v linked_view base n d at p
  step_link = with_link-Linked v p base n d at t spot

  step_graft : Grafted v linked_view (d ∷ p) at
  step_graft = Linked-Grafted v linked_view at p base n d at t spot step_link

  step-Tree : at % 2 ≡ 0 → d < 256 → 2 ≤ at → Tree linked_view (at + 2)
  step-Tree halves byte low =
      let size : extent (d ∷ p) ≡ 2 = ground arith in
      Linked-Tree v linked_view at p base n d at t spot step_link (at + 2) (omega arith)
        (λ q b short run. let (low', below) = t.inside q b short run in inl below) low (omega arith)
        halves byte

  step-Spot : Spot linked_view (d ∷ p) at (empty_node (suc (length p))) e
  unfolding get
  step-Spot = record {
    short = omega arith;
    run = step_graft.here;
    node = step_link.child deep;
    free = refl;
  }

  -- A path of the linked view is the new one, or an old one.
  step_paths :
      (q : List ℕ) (b : ℕ)
      → length q ≤ 8
      → reach linked_view q ≡ some b
      → (b ≡ at) ⊎ (reach v q ≡ some b)
  step_paths q b short run = elim (List-same q (d ∷ p)) [
    | inl same ↦ inl (some_same (sym run ∙ ap (reach linked_view) same ∙ step_graft.here))
    | inr ne ↦ inr (sym (step_graft.others q short ne) ∙ run)
  ]

  step-Clear : segment + 32 ≤ at → Clear v segment → Clear linked_view segment
  step-Clear room clear = record {
    low = clear.low;
    halves = clear.halves;
    away = λ q b short run. elim (step_paths q b short run) [
      | inl new ↦ inr (omega arith)
      | inr old ↦ clear.away q b short old
    ];
  }

  step_rest :
      (q : List ℕ) (b : ℕ)
      → length q < 8
      → reach linked_view q ≡ some b
      → b ≢ at
      → w b ≡ linked_view b
  unfolding new_bases
  step_rest q b short run ne = elim (step_paths q b (omega arith) run) [
    | inl new ↦ absurd (ne new)
    | inr old ↦ elim (ℕ_discrete b base) [
      | yes same ↦ ap w same ∙ planted.parent ∙ sym step_link.parent ∙ ap linked_view (sym same)
      | no other ↦ planted.rest q b short old other ∙ sym (step_link.rest q b short old other)
    ]
  ]

  step-Planted :
      Planted linked_view w (d ∷ p) at (empty_node (suc (length p))) e ds (at + 2) segment
  unfolding new_bases children put
  step-Planted =
      let (first, others) = planted.nodes in
      record { parent = first; nodes = others; rest = step_rest }

pub grow :
    (v w : View) (ds p : List ℕ) (base : ℕ) (n : Node) (d at segment : ℕ)
    → Tree v at
    → Spot v p base n d
    → length p + 1 + length ds ≡ 8
    → Clear v segment
    → segment + 32 ≤ at
    → at % 2 ≡ 0
    → d < 256
    → All (λ e. e < 256) ds
    → Planted v w p base n d ds at segment
    → Grown v w (onto ds (d ∷ p)) segment (at + 2 * length ds)
unfolding new_bases children
grow v w [] p base n d at segment t spot count clear room halves byte bytes planted =
    let new : Linked v w base n d segment p = record {
      parent = planted.parent;
      child = λ deep. absurd (omega arith);
      rest = planted.rest;
    } in
    let g : Grafted v w (d ∷ p) segment = Linked-Grafted v w at p base n d segment t spot new in
    let low : 2 ≤ segment = clear.low in
    let size : extent (d ∷ p) ≡ 32 = ground arith in
    record {
      tree =
          Linked-Tree v w at p base n d segment t spot new (at + 2 * 0) (omega arith)
            (λ q b short run. elim (clear.away q b short run) [
              | inl le ↦ inl le
              | inr le ↦ inr (omega arith)
            ])
            low (omega arith) clear.halves byte;
      here = g.here;
      others = λ q full ne. g.others q (omega arith) ne;
    }
grow v w (e ∷ ds) p base n d at segment t spot count clear room halves byte bytes planted =
    let deep : length p < 7 = omega arith in
    let (byte', bytes') = bytes in
    let low : 2 ≤ segment = clear.low in
    let v' : View = with_link v base n d at (suc (length p)) in
    let g : Grown v' w (onto ds (e ∷ d ∷ p)) segment (at + 2 + 2 * length ds) =
      grow v' w ds (d ∷ p) at (empty_node (suc (length p))) e (at + 2) segment
        (step-Tree v w p base n d at segment e ds t spot planted deep halves byte (omega arith))
        (step-Spot v w p base n d at segment e ds t spot planted deep) (omega arith)
        (step-Clear v w p base n d at segment e ds t spot planted deep room clear) (omega arith)
        (omega arith) byte' bytes'
        (step-Planted v w p base n d at segment e ds t spot planted deep) in
    let graft : Grafted v v' (d ∷ p) at =
      step_graft v w p base n d at segment e ds t spot planted deep in
    record {
      tree = subst (Tree w) (omega arith) g.tree;
      here = g.here;
      others = λ q full ne.
          g.others q full ne
          ∙ graft.others q (omega arith)
              (λ same. let l : length q ≡ suc (length p) = ap length same in omega arith);
    }
