-- ===== src/Radix/Tree/Links.antt =====
-- One edge more: what a node's new entry changes of the paths, and that the pages stay apart.
use durable_infinite_context.Prelude.{
  ℕ, suc, ◌+◌, ◌%◌, ◌<◌, ◌≤◌, ◌≡◌, ◌≢◌, ◌⊎◌, inl, inr, none, some, List, [], ◌∷◌, length, arith,
  refl, sym, ap, subst, ◌∙◌, Option-cases, some_same,
}
use native.Mathlib.Decide.{ℕ_discrete}
use durable_infinite_context.Prelude.Dicts.{number_key, get, put, get-put}
use durable_infinite_context.Radix.{Node}
use durable_infinite_context.Radix.Tree.{
  View, edge, reach, extent, empty_node, linked, Tree, Grafted, List-same, reach-next, reach-stop,
}

-- Where a link from a node, below the path `p`, is made: an entry that was free.
pub record Spot (v : View) (p : List ℕ) (base : ℕ) (n : Node) (d : ℕ) : Type 0 where
  pub short : length p < 8
  pub run : reach v p ≡ some base
  pub node : v base ≡ some n
  pub free : get d n.entries ≡ none

-- What the link writes: the entry, and an empty node at its end above the last level.
pub record Linked (v w : View) (base : ℕ) (n : Node) (d page : ℕ) (p : List ℕ) : Type 0 where
  pub parent : w base ≡ some (linked d page n)
  pub child : length p < 7 → w page ≡ some (empty_node (suc (length p)))
  pub rest : (q : List ℕ) (b : ℕ) → length q < 8 → reach v q ≡ some b → b ≢ base → w b ≡ v b

module _ (v w : View) (frontier : ℕ) (p : List ℕ) (base : ℕ) (n : Node) (d page : ℕ)
    (t : Tree v frontier) (spot : Spot v p base n d) (new : Linked v w base n d page p) where
  -- No other path leads to the node.
  only : (q : List ℕ) (b : ℕ) → length q < 8 → reach v q ≡ some b → b ≡ base → q ≡ p
  only q b short run same =
      let short' : length p < 8 = spot.short in
      elim (t.apart q p b base (omega arith) (omega arith) run spot.run) [
        | inl e ↦ e
        | inr (inl le) ↦ absurd (ground arith)
        | inr (inr le) ↦ absurd (ground arith)
      ]

  -- The entry was free.
  unreached : reach v (d ∷ p) ≡ none
  unreached = reach-next v d p base spot.run ∙ ap (edge d) spot.node ∙ spot.free

  here : reach w p ≡ some base → reach w (d ∷ p) ≡ some page
  here run =
      let put_there : get d (put d page n.entries) ≡ some page =
        ground (arith, get-put d d page n.entries) in
      reach-next w d p base run ∙ ap (edge d) new.parent ∙ put_there

  -- Below the node, the other entries are as they were.
  beside : (e : ℕ) → e ≢ d → reach w p ≡ some base → reach w (e ∷ p) ≡ reach v (e ∷ p)
  beside e ne run =
      let kept : get e (put d page n.entries) ≡ get e n.entries =
        ground (arith, get-put e d page n.entries) in
      let after : reach w (e ∷ p) ≡ get e n.entries =
        reach-next w e p base run ∙ ap (edge e) new.parent ∙ kept in
      let before : reach v (e ∷ p) ≡ get e n.entries =
        reach-next v e p base spot.run ∙ ap (edge e) spot.node in
      after ∙ sym before

  -- The new node has no entry.
  below_new :
      (e : ℕ)
      → length p < 7
      → reach w (d ∷ p) ≡ some page
      → reach w (e ∷ d ∷ p) ≡ reach v (e ∷ d ∷ p)
  unfolding get
  below_new e deep run =
      let after : reach w (e ∷ d ∷ p) ≡ none =
        reach-next w e (d ∷ p) page run ∙ ap (edge e) (new.child deep) in
      after ∙ sym (reach-stop v e (d ∷ p) unreached)

  length-ne : (q r : List ℕ) → length q ≢ length r → q ≢ r
  length-ne q r ne e = ne (ap length e)

  -- One digit on, past a node that is another than the linked one.
  past :
      (e : ℕ) (q : List ℕ)
      → length q < 8
      → q ≢ p
      → reach w q ≡ reach v q
      → reach w (e ∷ q) ≡ reach v (e ∷ q)
  past e q short ne same = elim (Option-cases (reach v q)) [
    | inl stop ↦ reach-stop w e q (same ∙ stop) ∙ sym (reach-stop v e q stop)
    | inr (b, run) ↦
        reach-next w e q b (same ∙ run)
        ∙ ap (edge e) (new.rest q b short run (λ e'. ne (only q b short run e')))
        ∙ sym (reach-next v e q b run)
  ]

  above : (q : List ℕ) → length q ≤ length p → reach w q ≡ reach v q
  unfolding reach
  above [] short = refl
  above (e ∷ q) short =
      let short' : length p < 8 = spot.short in
      past e q (omega arith) (length-ne q p (λ e'. omega arith)) (above q (omega arith))

  parent_run : reach w p ≡ some base
  parent_run = above p (omega arith) ∙ spot.run

  others : (q : List ℕ) → length q ≤ 8 → q ≢ d ∷ p → reach w q ≡ reach v q
  unfolding reach
  others [] short ne = refl
  others (e ∷ q) short ne = elim (List-same q (d ∷ p)) [
    | inl same ↦
        let deep : length p < 7 =
          let len : length q ≡ suc (length p) = ap length same in omega arith in
        subst (λ r. reach w (e ∷ r) ≡ reach v (e ∷ r)) (sym same)
          (below_new e deep (here parent_run))
    | inr ne' ↦ elim (List-same q p) [
      | inl same ↦
          subst (λ r. reach w (e ∷ r) ≡ reach v (e ∷ r)) (sym same)
            (beside e (λ e'. ne (cc)) parent_run)
      | inr other ↦ past e q (omega arith) other (others q (omega arith) ne')
    ]
  ]

  pub Linked-Grafted : Grafted v w (d ∷ p) page
  Linked-Grafted = record { here = here parent_run; others = others }

  module _ (later : ℕ) (grown : frontier ≤ later)
      (free : (q : List ℕ) (b : ℕ)
        → length q ≤ 8
        → reach v q ≡ some b
        → (b + extent q ≤ page) ⊎ (page + extent (d ∷ p) ≤ b))
      (two : 2 ≤ page) (room : page + extent (d ∷ p) ≤ later) (halves : page % 2 ≡ 0)
      (byte : d < 256) where
    old_or_new :
        (q : List ℕ) (b : ℕ)
        → length q ≤ 8
        → reach w q ≡ some b
        → ((q ≡ d ∷ p) × (b ≡ page)) ⊎ ((q ≢ d ∷ p) × (reach v q ≡ some b))
    old_or_new q b short run = elim (List-same q (d ∷ p)) [
      | inl same ↦
          let there : reach w q ≡ some page = ap (reach w) same ∙ here parent_run in
          inl (same, some_same (sym run ∙ there))
      | inr ne ↦ inr (ne, sym (others q short ne) ∙ run)
    ]

    node_of :
        (q : List ℕ) (b : ℕ)
        → length q < 8
        → reach w q ≡ some b
        → (m : Node) × (w b ≡ some m) × (m.depth ≡ length q)
    node_of q b short run = elim (old_or_new q b (omega arith) run) [
      | inl (same, at) ↦
          let len : length q ≡ suc (length p) = ap length same in
          (empty_node (suc (length p)), ap w at ∙ new.child (omega arith), sym len)
      | inr (ne, run') ↦
          let (m, is, depth) = t.node q b short run' in
          elim (ℕ_discrete b base) [
            | yes same ↦
                let eq : q ≡ p = only q b short run' same in
                let m_is : m ≡ n = some_same (sym is ∙ ap v same ∙ spot.node) in
                (linked d page n, ap w same ∙ new.parent, sym (ap (λ x. x.depth) m_is) ∙ depth)
            | no other ↦ (m, new.rest q b short run' other ∙ is, depth)
          ]
    ]

    digit_of : (e : ℕ) (q : List ℕ) (b : ℕ) → length q < 8 → reach w (e ∷ q) ≡ some b → e < 256
    digit_of e q b short run = elim (old_or_new (e ∷ q) b (omega arith) run) [
      | inl (same, at) ↦ let e_is : e ≡ d = cc in omega arith
      | inr (ne, run') ↦ t.digit e q b short run'
    ]

    even_of : (q : List ℕ) (b : ℕ) → length q ≤ 8 → reach w q ≡ some b → b % 2 ≡ 0
    even_of q b short run = elim (old_or_new q b short run) [
      | inl (same, at) ↦ ap (λ x. x % 2) at ∙ halves
      | inr (ne, run') ↦ t.even q b short run'
    ]

    inside_of :
        (q : List ℕ) (b : ℕ) → length q ≤ 8 → reach w q ≡ some b → (2 ≤ b) × (b + extent q ≤ later)
    inside_of q b short run = elim (old_or_new q b short run) [
      | inl (same, at) ↦
          let size : extent q ≡ extent (d ∷ p) = ap extent same in (omega arith, omega arith)
      | inr (ne, run') ↦ let (low, high) = t.inside q b short run' in (low, omega arith)
    ]

    apart_of :
        (q r : List ℕ) (b c : ℕ)
        → length q ≤ 8
        → length r ≤ 8
        → reach w q ≡ some b
        → reach w r ≡ some c
        → (q ≡ r) ⊎ ((b + extent q ≤ c) ⊎ (c + extent r ≤ b))
    apart_of q r b c short short' run run' = elim (old_or_new q b short run) [
      | inl (same, at) ↦ elim (old_or_new r c short' run') [
        | inl (same', at') ↦ inl (same ∙ sym same')
        | inr (ne', old') ↦
            let size : extent q ≡ extent (d ∷ p) = ap extent same in
            elim (free r c short' old') [
              | inl before ↦ inr (inr (omega arith))
              | inr after ↦ inr (inl (omega arith))
            ]
      ]
      | inr (ne, old) ↦ elim (old_or_new r c short' run') [
        | inl (same', at') ↦
            let size : extent r ≡ extent (d ∷ p) = ap extent same' in
            elim (free q b short old) [
              | inl before ↦ inr (inl (omega arith))
              | inr after ↦ inr (inr (omega arith))
            ]
        | inr (ne', old') ↦ t.apart q r b c short short' old old'
      ]
    ]

    pub Linked-Tree : Tree w later
    Linked-Tree = record {
      node = node_of;
      digit = digit_of;
      even = even_of;
      inside = inside_of;
      apart = apart_of;
    }
