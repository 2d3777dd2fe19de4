-- ===== src/Radix/Tree.antt =====
-- The tree of radix nodes that a view, a map from base pages to nodes, holds below the root: which page
-- a path of digits leads to, and when no two paths share a page. A path is listed from its last digit.
pub mod Links
pub mod Growth
use durable_infinite_context.Prelude.{
  ℕ, suc, ◌+◌, ◌%◌, ◌<◌, ◌≤◌, ◌≡◌, ◌≢◌, ◌⊎◌, inl, inr, Option, none, some, List, [], ◌∷◌, length,
  ltb, ◌==◌, if◌then◌else◌, arith, refl, sym, ap, ◌∙◌, Option-cases,
}
use durable_infinite_context.Prelude.Dicts.{number_key, get, put}
use durable_infinite_context.Radix.{Node, root_node_base_page}

abbrev pub View : Type 0
View = ℕ → Option Node

abbrev pub edge : ℕ → Option Node → Option ℕ
edge d none = none
edge d (some n) = get d n.entries

abbrev pub onward : View → ℕ → Option ℕ → Option ℕ
onward v d none = none
onward v d (some base) = edge d (v base)

-- the page that a path leads to
unfoldable pub reach : View → List ℕ → Option ℕ
reach v [] = some root_node_base_page
reach v (d ∷ p) = onward v d (reach v p)

-- the pages at the end of a path: the two copies of a node, or those of a segment below the last level
abbrev pub extent : List ℕ → ℕ
extent p = if ltb (length p) 8 then 2 else 32

pub extent_low : (p : List ℕ) → 2 ≤ extent p
extent_low p = ground arith

abbrev pub empty_node : ℕ → Node
empty_node depth = record { depth = depth; entries = [] }

abbrev pub linked : ℕ → ℕ → Node → Node
linked d page n = record { depth = n.depth; entries = put d page n.entries }

-- Every path down to the leaves' level leads to a node of its length, all that is reached lies below the
-- frontier, and different paths lead to disjoint pages.
pub record Tree (v : View) (frontier : ℕ) : Type 0 where
  pub node :
      (p : List ℕ) (base : ℕ)
      → length p < 8
      → reach v p ≡ some base
      → (n : Node) × (v base ≡ some n) × (n.depth ≡ length p)
  pub digit : (d : ℕ) (p : List ℕ) (page : ℕ) → length p < 8 → reach v (d ∷ p) ≡ some page → d < 256
  pub even : (p : List ℕ) (page : ℕ) → length p ≤ 8 → reach v p ≡ some page → page % 2 ≡ 0
  pub inside :
      (p : List ℕ) (page : ℕ)
      → length p ≤ 8
      → reach v p ≡ some page
      → (2 ≤ page) × (page + extent p ≤ frontier)
  pub apart :
      (p q : List ℕ) (page page' : ℕ)
      → length p ≤ 8
      → length q ≤ 8
      → reach v p ≡ some page
      → reach v q ≡ some page'
      → (p ≡ q) ⊎ ((page + extent p ≤ page') ⊎ (page' + extent q ≤ page))

-- One more path, and every other one as it was.
pub record Grafted (v w : View) (p : List ℕ) (page : ℕ) : Type 0 where
  pub here : reach w p ≡ some page
  pub others : (q : List ℕ) → length q ≤ 8 → q ≢ p → reach w q ≡ reach v q

pub List-same : (p q : List ℕ) → (p ≡ q) ⊎ (p ≢ q)
List-same [] [] = inl refl
List-same [] (d ∷ q) = inr λ e. cc
List-same (d ∷ p) [] = inr λ e. cc
List-same (d ∷ p) (d' ∷ q) = ground (arith, List-same p q)

pub reach-onward :
    (v : View) (d : ℕ) (p : List ℕ) (page : ℕ)
    → reach v (d ∷ p) ≡ some page
    → (base : ℕ) × (reach v p ≡ some base) × (edge d (v base) ≡ some page)
unfolding reach
reach-onward v d p page run = elim (Option-cases (reach v p)) [
  | inl e ↦ let stop : onward v d (reach v p) ≡ none = ap (onward v d) e in cc
  | inr (base, e) ↦
      let on : onward v d (reach v p) ≡ edge d (v base) = ap (onward v d) e in
      (base, e, sym on ∙ run)
]

pub reach-next :
    (v : View) (d : ℕ) (p : List ℕ) (base : ℕ)
    → reach v p ≡ some base
    → reach v (d ∷ p) ≡ edge d (v base)
unfolding reach
reach-next v d p base e = ap (onward v d) e

pub reach-stop : (v : View) (d : ℕ) (p : List ℕ) → reach v p ≡ none → reach v (d ∷ p) ≡ none
unfolding reach
reach-stop v d p e = ap (onward v d) e

pub Tree-later : (v : View) (frontier later : ℕ) → frontier ≤ later → Tree v frontier → Tree v later
Tree-later v frontier later le t = record {
  node = t.node;
  digit = t.digit;
  even = t.even;
  inside = λ p page short run. let (two, below) = t.inside p page short run in (two, omega arith);
  apart = t.apart;
}
