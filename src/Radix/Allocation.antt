-- ===== src/Radix/Allocation.antt =====
-- The nodes of a fresh mapping: that they fit their pages, that they stand past the frontier, and what
-- the view is after they are written.
use durable_infinite_context.Prelude.{
  ℕ, zero, suc, ◌+◌, ◌*◌, ◌%◌, ◌<◌, ◌≤◌, ◌≡◌, ◌≢◌, inl, inr, ◌^◌, Option, none, some, List, [], ◌∷◌,
  length, All, arith, refl, sym, ap, subst, ◌∙◌, some_same, Option-cases,
}
use native.Mathlib.Decide.{ℕ_discrete}
use durable_infinite_context.Prelude.Dicts.{
  number_key, Dict, get, put, get-put_same, get-put_other, Unique, put-Unique,
}
use durable_infinite_context.Radix.{Node, new_bases, first_or, children}
use durable_infinite_context.Radix.Disk.{Disk, Format, IsFormat, Fits, node_at, pread}
use durable_infinite_context.Radix.Copies.{frozen, slot_cases}
use durable_infinite_context.Radix.Newest.{newest_slot, newest_holds_0, newest_holds_1}
use durable_infinite_context.Radix.Pending.{overlay, covered, frozen-some}
use durable_infinite_context.Radix.Txn.{visible, latest}
use durable_infinite_context.Radix.Tree.{View, reach, linked, Tree, reach-next, edge, extent_low}
use durable_infinite_context.Radix.Tree.Links.{Spot}
use durable_infinite_context.Radix.Tree.Growth.{Planted}
use durable_infinite_context.Radix.Writes.{put_all, Fresh}

abbrev pub Byte : ℕ → Type 0
Byte d = d < 256

-- New nodes stand at the frontier and past it.
pub children_past :
    (depth : ℕ) (ds : List ℕ) (at low segment : ℕ)
    → low ≤ at
    → All (λ row. low ≤ row.0) (children depth ds (new_bases (length ds) at) segment)
unfolding children new_bases
children_past depth [] at low segment le = tt
children_past depth (d ∷ ds) at low segment le =
    (le, children_past (suc depth) ds (at + 2) low segment (omega arith))

single_Fits :
    (depth d v : ℕ)
    → depth < 8
    → Byte d
    → v < 2 ^ 64
    → Fits record { depth = depth; entries = (d, v) ∷ [] }
unfolding get Unique
single_Fits depth d v shallow byte word = record {
  depth = shallow;
  unique = (refl, tt);
  entries = λ d' v' has. ground (arith, has);
}

pub first_word :
    (count at segment : ℕ)
    → (0 < count → at < 2 ^ 64)
    → segment < 2 ^ 64
    → first_or (new_bases count at) segment < 2 ^ 64
unfolding new_bases
first_word zero at segment word word' = word'
first_word (suc count) at segment word word' = word (omega arith)

module _ {Page R : Type 0} (f : Format Page R) (law : IsFormat f) (before : Disk Page)
    (committed start : ℕ) (room : 4 ≤ start)
    (tail : (i : ℕ) → start ≤ i → node_at f before i ≡ none) (epochs : suc committed < 2 ^ 64) where
  pub children-Fresh :
      (depth : ℕ) (ds : List ℕ) (at segment frontier : ℕ)
      → depth + length ds ≡ 8
      → All Byte ds
      → at % 2 ≡ 0
      → start ≤ at
      → at + 2 * length ds ≤ frontier
      → frontier ≤ 2 ^ 64
      → segment < 2 ^ 64
      → All
          (λ row. Fresh f law before committed start room tail epochs frontier row.0 row.1)
          (children depth ds (new_bases (length ds) at) segment)
  unfolding children new_bases
  children-Fresh depth [] at segment frontier count bytes halves past below word word' = tt
  children-Fresh depth (d ∷ ds) at segment frontier count (byte, bytes) halves past below word
        word' =
      (
        record {
          halves = halves;
          past = past;
          below = omega arith;
          fits =
              single_Fits depth d (first_or (new_bases (length ds) (at + 2)) segment) (omega arith)
                byte (first_word (length ds) (at + 2) segment (λ more. omega arith) word');
        },
        children-Fresh (suc depth) ds (at + 2) segment frontier (omega arith) bytes (omega arith)
            (omega arith) (omega arith) word word',
      )

pub put_all_off :
    (b : ℕ) (rows nodes : Dict ℕ Node)
    → All (λ row. b ≢ row.0) rows
    → get b (put_all rows nodes) ≡ get b nodes
put_all_off b [] nodes off = refl
put_all_off b ((base, n) ∷ rows) nodes (ne, off) =
    put_all_off b rows (put base n nodes) off ∙ get-put_other b base n nodes ne

pub past_off :
    (b low : ℕ) (rows : Dict ℕ Node)
    → b < low
    → All (λ row. low ≤ row.0) rows
    → All (λ row. b ≢ row.0) rows
past_off b low [] lt past = tt
past_off b low (row ∷ rows) lt (le, past) = (λ e. omega arith, past_off b low rows lt past)

pub children_put :
    (depth : ℕ) (ds : List ℕ) (at segment : ℕ) (nodes : Dict ℕ Node)
    → All
        (λ row.
          get row.0 (put_all (children depth ds (new_bases (length ds) at) segment) nodes)
          ≡ some row.1)
        (children depth ds (new_bases (length ds) at) segment)
unfolding children new_bases
children_put depth [] at segment nodes = tt
children_put depth (d ∷ ds) at segment nodes =
    let rows : Dict ℕ Node = children (suc depth) ds (new_bases (length ds) (at + 2)) segment in
    let n : Node = record {
      depth = depth;
      entries = (d, first_or (new_bases (length ds) (at + 2)) segment) ∷ [];
    } in
    (
      put_all_off at rows (put at n nodes) (
            past_off at (at + 2) rows (omega arith)
              (children_past (suc depth) ds (at + 2) (at + 2) segment (omega arith)))
          ∙ get-put_same at n nodes,
      children_put (suc depth) ds (at + 2) segment (put at n nodes),
    )

All-get :
    (base : ℕ) (n : Node) (nodes : Dict ℕ Node) (low : ℕ) (rows : Dict ℕ Node)
    → base < low
    → All (λ row. low ≤ row.0) rows
    → All (λ row. get row.0 nodes ≡ some row.1) rows
    → (v : View) → All (λ row. overlay (put base n nodes) v row.0 ≡ some row.1) rows
unfolding overlay
All-get base n nodes low [] lt past has v = tt
All-get base n nodes low (row ∷ rows) lt (le, past) (is, has) v = (
  ap (λ o. covered o (v row.0)) (get-put_other row.0 base n nodes (λ e. omega arith) ∙ is),
  All-get base n nodes low rows lt past has v,
)

-- The view once the new nodes and their parent are pending.
pub overlay-Planted :
    (nodes : Dict ℕ Node) (below : View) (frontier : ℕ) (p : List ℕ) (base : ℕ) (n : Node) (d : ℕ)
    (ds : List ℕ)
    → Tree (overlay nodes below) frontier
    → Spot (overlay nodes below) p base n d
    → Planted
        (overlay nodes below)
        (overlay
          (put base (linked d (first_or (new_bases (length ds) (frontier + 32)) frontier) n) (
            put_all
              (children (suc (length p)) ds (new_bases (length ds) (frontier + 32)) frontier)
              nodes))
          below)
        p
        base
        n
        d
        ds
        (frontier + 32)
        frontier
unfolding overlay
overlay-Planted nodes below frontier p base n d ds t spot =
    let short : length p < 8 = spot.short in
    let (low, high) = t.inside p base (omega arith) spot.run in
    let rows : Dict ℕ Node =
      children (suc (length p)) ds (new_bases (length ds) (frontier + 32)) frontier in
    let past : All (λ row. frontier + 32 ≤ row.0) rows =
      children_past (suc (length p)) ds (frontier + 32) (frontier + 32) frontier (omega arith) in
    let parent : Node = linked d (first_or (new_bases (length ds) (frontier + 32)) frontier) n in
    record {
      parent = ap (λ o. covered o (below base)) (get-put_same base parent (put_all rows nodes));
      nodes =
          All-get base parent (put_all rows nodes) (frontier + 32) rows (omega arith) past
            (children_put (suc (length p)) ds (frontier + 32) frontier nodes) below;
      rest = λ q b short' run ne.
          let (low', high') = t.inside q b (omega arith) run in
          ap (λ o. covered o (below b))
            (get-put_other b base parent (put_all rows nodes) ne
              ∙ put_all_off b rows nodes (past_off b (frontier + 32) rows (omega arith) past));
    }

module _ {Page R : Type 0} (f : Format Page R) (law : IsFormat f) where
  visible_is :
      {A : Type 0} (committed : ℕ) (o : Option (ℕ × A)) (e : ℕ) (a : A)
      → visible committed o ≡ some (e, a)
      → o ≡ some (e, a)
  unfolding visible
  visible_is committed none e a h = h
  visible_is committed (some (e', a')) e a h = ground (arith, h)

  latest_copy :
      (d : Disk Page) (b committed e : ℕ) (n : Node) (slot : ℕ)
      → latest f d b committed ≡ some (e, n, slot)
      → (i : ℕ) × (node_at f d i ≡ some (e, n))
  unfolding latest
  latest_copy d b committed e n slot found =
      let first : Option (ℕ × Node) = visible committed (node_at f d b) in
      let second : Option (ℕ × Node) = visible committed (node_at f d (b + 1)) in
      elim (slot_cases slot (newest_slot first second e n slot found)) [
        | inl is ↦ (
          b,
          visible_is committed (node_at f d b) e n
              (newest_holds_0 first second e n (found ∙ ap (λ k. some (e, n, k)) is)),
        )
        | inr is ↦ (
          b + 1,
          visible_is committed (node_at f d (b + 1)) e n
              (newest_holds_1 first second e n (found ∙ ap (λ k. some (e, n, k)) is)),
        )
      ]

  -- A node of the view has no digit twice.
  pub view_Unique :
      (d : Disk Page) (committed start : ℕ) (nodes : Dict ℕ Node) (b : ℕ) (n : Node)
      → ((b : ℕ) (n : Node) → get b nodes ≡ some n → Unique n.entries)
      → overlay nodes (frozen f d committed start) b ≡ some n
      → Unique n.entries
  unfolding overlay
  view_Unique d committed start nodes b n unique is = elim (Option-cases (get b nodes)) [
    | inl off ↦
        let shown : covered (get b nodes) (frozen f d committed start b)
            ≡ frozen f d committed start b =
          ap (λ o. covered o (frozen f d committed start b)) off in
        let (below, (e, slot, found)) = frozen-some f d committed start b n (sym shown ∙ is) in
        let (i, copy) = latest_copy d b committed e n slot found in
        law.unique (pread f d i) e n copy
    | inr (m, on) ↦
        let shown : covered (get b nodes) (frozen f d committed start b) ≡ some m =
          ap (λ o. covered o (frozen f d committed start b)) on in
        let m_is : m ≡ n = some_same (sym shown ∙ is) in
        subst (λ x. Unique x.entries) m_is (unique b m on)
  ]

  -- The parent with its new entry fits its page.
  pub linked_Fits :
      (v : View) (frontier : ℕ) (p : List ℕ) (base : ℕ) (n : Node) (d page : ℕ)
      → Tree v frontier
      → Spot v p base n d
      → n.depth ≡ length p
      → Unique n.entries
      → frontier ≤ 2 ^ 64
      → Byte d
      → page < 2 ^ 64
      → Fits record { depth = length p; entries = put d page n.entries }
  linked_Fits v frontier p base n d page t spot depth unique word byte word' = record {
    depth = spot.short;
    unique = put-Unique d page n.entries unique;
    entries = λ e v' has. elim (ℕ_discrete e d) [
      | yes same ↦
          let is : page ≡ v' = some_same (
            sym (get-put_same d page n.entries)
            ∙ ap (λ k. get k (put d page n.entries)) (sym same)
            ∙ has) in
          (omega arith, omega arith)
      | no other ↦
          let old : reach v (e ∷ p) ≡ some v' =
            reach-next v e p base spot.run
            ∙ ap (edge e) spot.node
            ∙ sym (get-put_other e d page n.entries other)
            ∙ has in
          let (low, high) = t.inside (e ∷ p) v' spot.short old in
          (t.digit e p v' spot.short old, omega (arith, extent_low (e ∷ p)))
    ];
  }
