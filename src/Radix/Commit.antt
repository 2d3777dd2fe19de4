-- ===== src/Radix/Commit.antt =====
-- The disk after a batch: what readers at the next epoch find once the superblock names it.
use durable_infinite_context.Prelude.{
  ℕ, suc, ◌+◌, ◌-◌, ◌%◌, ◌<◌, ◌≤◌, ◌≡◌, ◌≢◌, ◌⊎◌, inl, inr, ◌^◌, true, false, Option, none, some,
  List, [], ◌∷◌, length, ◌==◌, if◌then◌else◌, arith, refl, sym, ap, subst, ◌∙◌, some_same,
  Option-cases, Bool-cases, ok, err,
}
use native.Mathlib.Decide.{ℕ_discrete}
use durable_infinite_context.Prelude.Dicts.{number_key, Dict, get}
use durable_infinite_context.Radix.{Node, Meta, Fault}
use durable_infinite_context.Radix.Disk.{
  Disk, Format, IsFormat, Same, node_at, node_at-pwrite, super_at, super_at-pwrite, pwrite,
}
use durable_infinite_context.Radix.Copies.{
  inner, newest_node, frozen, Copies, Kept-latest, Rewritten-committed, Copies-latest, slot_cases,
}
use durable_infinite_context.Radix.Newest.{
  Until, visible-Until, newest_slot, newest_holds_0, newest_holds_1, newest_first, newest_second,
}
use durable_infinite_context.Radix.Digits.{length-path, path-injective}
use durable_infinite_context.Radix.Pending.{path, overlay, covered, frozen-some}
use durable_infinite_context.Radix.Safety.{Safe}
use durable_infinite_context.Radix.Tree.{
  View, edge, reach, Tree, extent, extent_low, reach-next, reach-stop,
}
use durable_infinite_context.Radix.Txn.{newest, visible, latest, or_raise, read_super}

-- The nodes that paths lead to are the same in two views.
abbrev pub Similar : View → View → Type 0
Similar v w =
    (p : List ℕ) (b : ℕ) (n : Node)
    → length p < 8
    → reach v p ≡ some b
    → v b ≡ some n
    → (n' : Node) × (w b ≡ some n') × Same n n'

module _ (v w : View) (frontier : ℕ) (t : Tree v frontier) (similar : Similar v w) where
  pub reach-Similar : (p : List ℕ) → length p ≤ 8 → reach w p ≡ reach v p
  unfolding reach
  reach-Similar [] short = refl
  reach-Similar (d ∷ p) short = elim (Option-cases (reach v p)) [
    | inl stop ↦
        reach-stop w d p (reach-Similar p (omega arith) ∙ stop) ∙ sym (reach-stop v d p stop)
    | inr (b, run) ↦
        let (n, is, depth) = t.node p b (omega arith) run in
        let (n', is', same) = similar p b n (omega arith) run is in
        reach-next w d p b (reach-Similar p (omega arith) ∙ run)
        ∙ ap (edge d) is'
        ∙ same.entries d
        ∙ sym (reach-next v d p b run ∙ ap (edge d) is)
  ]

  pub Similar-Tree : Tree w frontier
  Similar-Tree = record {
    node = λ p b short run.
        let run' : reach v p ≡ some b = sym (reach-Similar p (omega arith)) ∙ run in
        let (n, is, depth) = t.node p b short run' in
        let (n', is', same) = similar p b n short run' is in (n', is', same.depth ∙ depth);
    digit = λ d p page short run.
        t.digit d p page short (sym (reach-Similar (d ∷ p) (omega arith)) ∙ run);
    even = λ p page short run. t.even p page short (sym (reach-Similar p short) ∙ run);
    inside = λ p page short run. t.inside p page short (sym (reach-Similar p short) ∙ run);
    apart = λ p q b c short short' run run'.
        t.apart p q b c short short' (sym (reach-Similar p short) ∙ run)
          (sym (reach-Similar q short') ∙ run');
  }

module _ {Page R : Type 0} (f : Format Page R) where
  -- A store at rest: the superblock, the frontier in it, no node past the frontier, no copy of a node that
  -- is newer than the committed epoch, and the tree of the committed copies.
  pub record Sound (d : Disk Page) (epoch : ℕ) (m : Meta R) (slot : ℕ) : Type 0 where
    pub super : read_super f d ≡ ok (epoch, m, slot)
    pub room : 4 ≤ m.next_physical_page
    pub even : m.next_physical_page % 2 ≡ 0
    pub tail : (i : ℕ) → m.next_physical_page ≤ i → node_at f d i ≡ none
    pub clean : (i e : ℕ) (n : Node) → 2 ≤ i → node_at f d i ≡ some (e, n) → e ≤ epoch
    pub tree : Tree (frozen f d epoch m.next_physical_page) m.next_physical_page

  -- the map from segments to physical pages that a disk holds at an epoch and a frontier
  unfoldable pub segments_of : Disk Page → ℕ → ℕ → ℕ → Option ℕ
  segments_of d epoch frontier segment_id = reach (frozen f d epoch frontier) (path segment_id)

  pub frozen-inner :
      (d : Disk Page) (epoch frontier b : ℕ) (o : Option (ℕ × Node × ℕ))
      → b % 2 ≡ 0
      → 2 ≤ b
      → b + 2 ≤ frontier
      → latest f d b epoch ≡ o
      → frozen f d epoch frontier b ≡ newest_node o
  unfolding frozen
  frozen-inner d epoch frontier b o halves low below found =
      let t : inner frontier b ≡ true = ground arith in
      ap (λ c. if c then newest_node (latest f d b epoch) else none) t ∙ ap newest_node found

  module _ (before : Disk Page) (committed start : ℕ) (d : Disk Page) (nodes : Dict ℕ Node)
      (slots : Dict ℕ ℕ) (frontier : ℕ)
      (safe : Safe f before committed start d nodes slots frontier) where
    frozen_at : (b : ℕ) → frozen f d committed start b ≡ frozen f before committed start b
    unfolding frozen
    frozen_at b = elim (Bool-cases (inner start b)) [
      | inl t ↦
          let halves : b % 2 ≡ 0 = ground arith in
          let low : 2 ≤ b = ground arith in
          let below : b + 2 ≤ start = ground arith in
          ap (λ o. if inner start b then newest_node o else none)
            (Copies-latest f before committed start d frontier b (get b nodes) (get b slots)
              (safe.copies b halves low) below)
      | inr t ↦
          ap (λ c. if c then newest_node (latest f d b committed) else none) t
          ∙ sym (ap (λ c. if c then newest_node (latest f before b committed) else none) t)
    ]

    -- At the committed epoch the nodes are what they were.
    pub frozen-Safe : frozen f d committed start ≡ frozen f before committed start
    frozen-Safe = λ i b. frozen_at b i

    -- A page is as it was, or holds a new copy.
    abbrev Paged : ℕ → Type 0
    Paged i =
        (node_at f d i ≡ node_at f before i)
        ⊎ ((i < frontier) × ((n : Node) × (node_at f d i ≡ some (suc committed, n))))

    side_page :
        (b j : ℕ) (pending : Option Node) (old : Option ℕ)
        → j ≤ 1
        → Copies f before committed start d frontier b pending old
        → Paged (b + j)
    side_page b j _ _ bit (Copies.kept k) = elim (slot_cases j bit) [
      | inl e ↦
          let eq : b ≡ b + j = omega arith in
          inl (subst (λ i. node_at f d i ≡ node_at f before i) eq k.first)
      | inr e ↦
          let eq : b + 1 ≡ b + j = omega arith in
          inl (subst (λ i. node_at f d i ≡ node_at f before i) eq k.second)
    ]
    side_page b j _ _ bit (Copies.rewritten n slot w) =
        let bit' : slot ≤ 1 = w.slot_bit in
        let below : b + 2 ≤ frontier = w.below in
        elim (ℕ_discrete j slot) [
          | yes e ↦ inr (
            omega arith,
            (
              w.new.0,
              subst (λ k. node_at f d (b + k) ≡ some (suc committed, w.new.0)) (sym e) w.new.1,
            ),
          )
          | no ne ↦
              let other : 1 - slot ≡ j = omega arith in
              inl (subst (λ k. node_at f d (b + k) ≡ node_at f before (b + k)) other w.other)
        ]

    pub page_of : (i : ℕ) → 2 ≤ i → Paged i
    page_of i low =
        let b : ℕ = i - i % 2 in
        let back : b + i % 2 ≡ i = omega arith in
        subst Paged back (
          side_page b (i % 2) (get b nodes) (get b slots) (omega arith)
            (safe.copies b (omega arith) (omega arith)))

    module _
        (clean : (i e : ℕ) (n : Node)
          → 2 ≤ i
          → node_at f before i ≡ some (e, n)
          → e ≤ committed) where
      until : (i : ℕ) → 2 ≤ i → Until committed (node_at f before i)
      until i low e n is = clean i e n low is

      settled : (b : ℕ) → 2 ≤ b → latest f before b (suc committed) ≡ latest f before b committed
      unfolding latest
      settled b low =
          let same : (i : ℕ)
              → 2 ≤ i
              → visible (suc committed) (node_at f before i)
                ≡ visible committed (node_at f before i) =
            λ i low'.
              visible-Until committed (suc committed) (node_at f before i) (until i low')
                (omega arith)
              ∙ sym (
                  visible-Until committed committed (node_at f before i) (until i low')
                    (omega arith)) in
          ap (λ c. newest c (visible (suc committed) (node_at f before (b + 1)))) (same b low)
          ∙ ap (newest (visible committed (node_at f before b))) (same (b + 1) (omega arith))

      pub Copies-next :
          (limit b : ℕ) (n : Node) (pending : Option Node) (old : Option ℕ)
          → b % 2 ≡ 0
          → 2 ≤ b
          → b + 2 ≤ limit
          → Copies f before committed start d frontier b pending old
          → covered pending (frozen f before committed start b) ≡ some n
          → (n' : Node) × (frozen f d (suc committed) limit b ≡ some n') × Same n n'
      Copies-next limit b n _ _ halves low below (Copies.rewritten m slot w) is =
          let m_is : m ≡ n = some_same is in
          let same : Same n w.new.0 = subst (λ x. Same x w.new.0) m_is w.new.2 in
          (
            w.new.0,
            frozen-inner d (suc committed) limit b (some (suc committed, w.new.0, slot)) halves low
                below
                (Rewritten-committed f before committed start d frontier b m slot w (until b low)
                  (until (b + 1) (omega arith))),
            same,
          )
      Copies-next limit b n _ _ halves low below (Copies.kept k) is =
          let (inside, (e, slot, found)) = frozen-some f before committed start b n is in
          (
            n,
            frozen-inner d (suc committed) limit b (some (e, n, slot)) halves low below (
                Kept-latest f before committed start d b (suc committed) k ∙ settled b low ∙ found),
            record { depth = refl; entries = λ digit. refl },
          )

      -- At the next epoch they are the pending ones.
      pub frozen-Similar :
          Tree (overlay nodes (frozen f before committed start)) frontier
          → Similar
              (overlay nodes (frozen f before committed start))
              (frozen f d (suc committed) frontier)
      unfolding overlay
      frozen-Similar t p b n short run is =
          let halves : b % 2 ≡ 0 = t.even p b (omega arith) run in
          let (low, high) = t.inside p b (omega arith) run in
          Copies-next frontier b n (get b nodes) (get b slots) halves low
            (omega (arith, extent_low p)) (safe.copies b halves low) is

  -- The superblock's pages hold no node of a tree.
  pub off_super :
      (law : IsFormat f) (page : Page) (at : ℕ) (d : Disk Page) (i : ℕ)
      → at < 2
      → 2 ≤ i
      → node_at f (pwrite f page at d) i ≡ node_at f d i
  off_super law page at d i lt le =
      let test : (i == at) ≡ false = ground arith in
      node_at-pwrite f page at d i law
      ∙ ap (λ b. if b then f.decode_node page else node_at f d i) test

  super_frozen_at :
      (law : IsFormat f) (page : Page) (at epoch frontier : ℕ) (d : Disk Page)
      → at < 2
      → (b : ℕ) → frozen f (pwrite f page at d) epoch frontier b ≡ frozen f d epoch frontier b
  unfolding frozen latest
  super_frozen_at law page at epoch frontier d lt b = elim (Bool-cases (inner frontier b)) [
    | inl t ↦
        let low : 2 ≤ b = ground arith in
        ap
          (λ c.
            if inner frontier b
            then newest_node
                (newest (visible epoch c) (visible epoch (node_at f (pwrite f page at d) (b + 1))))
            else none)
          (off_super law page at d b lt low)
        ∙ ap
            (λ c.
              if inner frontier b
              then newest_node (newest (visible epoch (node_at f d b)) (visible epoch c))
              else none)
            (off_super law page at d (b + 1) lt (omega arith))
    | inr t ↦
        ap (λ c. if c then newest_node (latest f (pwrite f page at d) b epoch) else none) t
        ∙ sym (ap (λ c. if c then newest_node (latest f d b epoch) else none) t)
  ]

  pub super_frozen :
      (law : IsFormat f) (page : Page) (at epoch frontier : ℕ) (d : Disk Page)
      → at < 2
      → frozen f (pwrite f page at d) epoch frontier ≡ frozen f d epoch frontier
  super_frozen law page at epoch frontier d lt =
      λ i b. super_frozen_at law page at epoch frontier d lt b i

  ok_of : {A : Type 0} (e : Fault) (o : Option A) (a : A) → or_raise e o ≡ ok a → o ≡ some a
  ok_of e none a h = cc
  ok_of e (some b) a h = ap (λ x. elim x [ ok c ↦ some c | err e' ↦ none ]) h

  Until-self :
      {A : Type 0} (epoch : ℕ) (a : A) (o : Option (ℕ × A)) → o ≡ some (epoch, a) → Until epoch o
  Until-self epoch a o is e a' is' =
      let same : (epoch, a) ≡ (e, a') = some_same (sym is ∙ is') in
      let eq : epoch ≡ e = ap (λ x. x.0) same in omega arith

  -- The superblock that was written to the other slot is the newest.
  pub super_next :
      (law : IsFormat f) (page : Page) (d : Disk Page) (epoch slot : ℕ) (m m' : Meta R)
      → read_super f d ≡ ok (epoch, m, slot)
      → f.encode_super (suc epoch) m' ≡ ok page
      → read_super f (pwrite f page (1 - slot) d) ≡ ok (suc epoch, m', 1 - slot)
  super_next law page d epoch slot m m' read coded =
      let x : Option (ℕ × Meta R) = super_at f d 0 in
      let y : Option (ℕ × Meta R) = super_at f d 1 in
      let found : newest x y ≡ some (epoch, m, slot) =
        ok_of Fault.no_valid_super (newest x y) (epoch, m, slot) read in
      let new : f.decode_super page ≡ some (suc epoch, m') = law.super (suc epoch) m' page coded in
      elim (slot_cases slot (newest_slot x y epoch m slot found)) [
        | inl is ↦
            let held : x ≡ some (epoch, m) =
              newest_holds_0 x y epoch m (found ∙ ap (λ k. some (epoch, m, k)) is) in
            subst (λ k. read_super f (pwrite f page (1 - k) d) ≡ ok (suc epoch, m', 1 - k)) (sym is)
              (ap (or_raise Fault.no_valid_super) (
                ap (λ c. newest c (super_at f (pwrite f page 1 d) 1))
                  (super_at-pwrite f page 1 d 0 law)
                ∙ ap (newest x) (super_at-pwrite f page 1 d 1 law ∙ new)
                ∙ newest_second epoch (suc epoch) m' x (Until-self epoch m x held) (omega arith)))
        | inr is ↦
            let held : y ≡ some (epoch, m) =
              newest_holds_1 x y epoch m (found ∙ ap (λ k. some (epoch, m, k)) is) in
            subst (λ k. read_super f (pwrite f page (1 - k) d) ≡ ok (suc epoch, m', 1 - k)) (sym is)
              (ap (or_raise Fault.no_valid_super) (
                ap (λ c. newest c (super_at f (pwrite f page 0 d) 1))
                  (super_at-pwrite f page 0 d 0 law ∙ new)
                ∙ ap (newest (some (suc epoch, m'))) (super_at-pwrite f page 0 d 1 law)
                ∙ newest_first epoch (suc epoch) m' y (Until-self epoch m y held) (omega arith)))
      ]

  -- In a store at rest, the 32 pages of one mapped id below 2^64 and those of another are disjoint, and
  -- both lie below the committed frontier.
  pub Sound-apart :
      (d : Disk Page) (epoch : ℕ) (m : Meta R) (slot : ℕ)
      → Sound d epoch m slot
      → (q r b c : ℕ) → q < 2 ^ 64
      → r < 2 ^ 64
      → q ≢ r
      → segments_of d epoch m.next_physical_page q ≡ some b
      → segments_of d epoch m.next_physical_page r ≡ some c
      → ((b + 32 ≤ c) ⊎ (c + 32 ≤ b))
        × (b + 32 ≤ m.next_physical_page)
        × (c + 32 ≤ m.next_physical_page)
  unfolding segments_of
  Sound-apart d epoch m slot sound q r b c word word' ne run run' =
      let t : Tree (frozen f d epoch m.next_physical_page) m.next_physical_page = sound.tree in
      let full : length (path q) ≡ 8 = length-path q in
      let full' : length (path r) ≡ 8 = length-path r in
      let size : extent (path q) ≡ 32 = ground arith in
      let size' : extent (path r) ≡ 32 = ground arith in
      let (low, high) = t.inside (path q) b (omega arith) run in
      let (low', high') = t.inside (path r) c (omega arith) run' in
      (
        elim (t.apart (path q) (path r) b c (omega arith) (omega arith) run run') [
          | inl same ↦ absurd (ne (path-injective q r word word' same))
          | inr (inl before) ↦ inl (omega arith)
          | inr (inr after) ↦ inr (omega arith)
        ],
        omega arith,
        omega arith,
      )
