-- ===== src/Radix/Copies.antt =====
-- The two copies of the nodes on the disk during a transaction: the copies as they were, or one of them
-- rewritten at the pending epoch.
use durable_infinite_context.Prelude.{
  ℕ, suc, ◌+◌, ◌-◌, ◌%◌, ◌≤◌, ◌≡◌, ◌≢◌, ◌⊎◌, inl, inr, Bool, true, false, ◌&&◌, Option, none, some,
  ltb, leb, ◌==◌, if◌then◌else◌, arith, refl, sym, ap, subst, ◌∙◌, ok, Bool-cases, ltb→lt,
}
use durable_infinite_context.Prelude.Dicts.{number_key}
use durable_infinite_context.Radix.{Node}
use durable_infinite_context.Radix.Disk.{
  Disk, Format, IsFormat, Same, node_at, pwrite, ftruncate, node_at-pwrite, node_at-ftruncate,
  node_at-past,
}
use durable_infinite_context.Radix.Newest.{
  newest_alone_0, newest_alone_1, visible_past, newest_new_0, newest_new_1, Until,
}
use durable_infinite_context.Radix.Txn.{newest, visible, latest}
use durable_infinite_context.Radix.Tree.{View}

abbrev pub inner : ℕ → ℕ → Bool
inner frontier base = base % 2 == 0 && leb 2 base && leb (base + 2) frontier

abbrev pub newest_node : Option (ℕ × Node × ℕ) → Option Node
newest_node none = none
newest_node (some (e, n, slot)) = some n

pub slot_cases : (slot : ℕ) → slot ≤ 1 → (slot ≡ 0) ⊎ (slot ≡ 1)
slot_cases slot le = ground arith

module _ {Page R : Type 0} (f : Format Page R) where
  -- the nodes below the frontier as a reader at a committed epoch sees them
  unfoldable pub frozen : Disk Page → ℕ → ℕ → View
  frozen d committed frontier base =
      if inner frontier base then newest_node (latest f d base committed) else none

  module _ (before : Disk Page) (committed start : ℕ) where
    pub record Rewritten (d : Disk Page) (frontier base : ℕ) (n : Node) (slot : ℕ) : Type 0 where
      pub slot_bit : slot ≤ 1
      pub below : base + 2 ≤ frontier
      pub new : (n' : Node) × (node_at f d (base + slot) ≡ some (suc committed, n')) × Same n n'
      pub other : node_at f d (base + (1 - slot)) ≡ node_at f before (base + (1 - slot))
      pub old :
          base + 2 ≤ start
          → (e : ℕ) × (m : Node) × (latest f before base committed ≡ some (e, m, 1 - slot))
      pub fresh : start ≤ base → slot ≡ 0

    pub record Kept (d : Disk Page) (base : ℕ) : Type 0 where
      pub first : node_at f d base ≡ node_at f before base
      pub second : node_at f d (base + 1) ≡ node_at f before (base + 1)

    -- a node's entries in the dictionaries of the transaction, and its copies
    pub data Copies (d : Disk Page) (frontier base : ℕ) : Option Node → Option ℕ → Type 0 where
      kept : Kept d base → Copies d frontier base none none
      rewritten :
          (n : Node) (slot : ℕ)
          → Rewritten d frontier base n slot
          → Copies d frontier base (some n) (some slot)

    -- What a reader finds at a node, from its two copies.
    pub latest_of :
        (d : Disk Page) (base epoch : ℕ) (x y : Option (ℕ × Node))
        → node_at f d base ≡ x
        → node_at f d (base + 1) ≡ y
        → latest f d base epoch ≡ newest (visible epoch x) (visible epoch y)
    unfolding latest
    latest_of d base epoch x y p q =
        ap (λ c. newest (visible epoch c) (visible epoch (node_at f d (base + 1)))) p
        ∙ ap (λ c. newest (visible epoch x) (visible epoch c)) q

    pub Kept-latest :
        (d : Disk Page) (base epoch : ℕ)
        → Kept d base
        → latest f d base epoch ≡ latest f before base epoch
    Kept-latest d base epoch k =
        latest_of d base epoch (node_at f before base) (node_at f before (base + 1)) k.first
          k.second
        ∙ sym (
            latest_of before base epoch (node_at f before base) (node_at f before (base + 1)) refl
              refl)

    -- The copies of a rewritten node, the first or the second of them new.
    module _ (d : Disk Page) (frontier base : ℕ) (n : Node) (slot : ℕ)
        (w : Rewritten d frontier base n slot) where
      page_is : (i j : ℕ) (c : Option (ℕ × Node)) → node_at f d i ≡ c → i ≡ j → node_at f d j ≡ c
      page_is i j c h e = subst (λ k. node_at f d k ≡ c) e h

      abbrev pub Sides : Type 0
      Sides =
          ((slot ≡ 0)
            × (node_at f d base ≡ some (suc committed, w.new.0))
            × (node_at f d (base + 1) ≡ node_at f before (base + 1)))
          ⊎ ((slot ≡ 1)
              × (node_at f d base ≡ node_at f before base)
              × (node_at f d (base + 1) ≡ some (suc committed, w.new.0)))

      pub sides : Sides
      sides = elim (slot_cases slot w.slot_bit) [
        | inl zero_slot ↦ inl (
          zero_slot,
          page_is (base + slot) base (some (suc committed, w.new.0)) w.new.1 (omega arith),
          page_is (base + (1 - slot)) (base + 1) (node_at f before (base + 1))
              (w.other ∙ ap (node_at f before) (omega arith)) (omega arith),
        )
        | inr one_slot ↦ inr (
          one_slot,
          page_is (base + (1 - slot)) base (node_at f before base)
              (w.other ∙ ap (node_at f before) (omega arith)) (omega arith),
          page_is (base + slot) (base + 1) (some (suc committed, w.new.0)) w.new.1 (omega arith),
        )
      ]

      pub before_slot :
          (base + 2 ≤ start)
          → (side : ℕ) → 1 - slot ≡ side
          → (e : ℕ) × (m : Node) × (newest
                (visible committed (node_at f before base))
                (visible committed (node_at f before (base + 1)))
              ≡ some (e, m, side))
      unfolding latest
      before_slot le side is =
          let (e, m, found) = w.old le in
          (e, m, subst (λ k. latest f before base committed ≡ some (e, m, k)) is found)

      -- Readers at the committed epoch do not see what was rewritten.
      pub Rewritten-latest :
          base + 2 ≤ start → latest f d base committed ≡ latest f before base committed
      unfolding latest
      Rewritten-latest le = elim sides [
        | inl (is, new, other) ↦
            let (e, m, found) = before_slot le 1 (omega arith) in
            let hidden : visible committed (some (suc committed, w.new.0)) ≡ none =
              visible_past committed (suc committed) w.new.0 (omega arith) in
            latest_of d base committed (some (suc committed, w.new.0)) (node_at f before (base + 1))
              new other
            ∙ ap (λ c. newest c (visible committed (node_at f before (base + 1)))) hidden
            ∙ newest_alone_1 (visible committed (node_at f before base))
                (visible committed (node_at f before (base + 1))) e m found
            ∙ sym found
        | inr (is, other, new) ↦
            let (e, m, found) = before_slot le 0 (omega arith) in
            let hidden : visible committed (some (suc committed, w.new.0)) ≡ none =
              visible_past committed (suc committed) w.new.0 (omega arith) in
            latest_of d base committed (node_at f before base) (some (suc committed, w.new.0)) other
              new
            ∙ ap (newest (visible committed (node_at f before base))) hidden
            ∙ newest_alone_0 (visible committed (node_at f before base))
                (visible committed (node_at f before (base + 1))) e m found
            ∙ sym found
      ]

      -- Readers at the pending epoch see it, where the disk held no copy past the committed epoch.
      pub Rewritten-committed :
          Until committed (node_at f before base)
          → Until committed (node_at f before (base + 1))
          → latest f d base (suc committed) ≡ some (suc committed, w.new.0, slot)
      Rewritten-committed until until' = elim sides [
        | inl (is, new, other) ↦
            latest_of d base (suc committed) (some (suc committed, w.new.0))
              (node_at f before (base + 1)) new other
            ∙ newest_new_0 committed w.new.0 (node_at f before (base + 1)) until'
            ∙ ap (λ k. some (suc committed, w.new.0, k)) (sym is)
        | inr (is, other, new) ↦
            latest_of d base (suc committed) (node_at f before base) (some (suc committed, w.new.0))
              other new
            ∙ newest_new_1 committed w.new.0 (node_at f before base) until
            ∙ ap (λ k. some (suc committed, w.new.0, k)) (sym is)
      ]

    -- The committed readers' copies of every node are the ones they had.
    pub Copies-latest :
        (d : Disk Page) (frontier base : ℕ) (pending : Option Node) (slot : Option ℕ)
        → Copies d frontier base pending slot
        → base + 2 ≤ start
        → latest f d base committed ≡ latest f before base committed
    Copies-latest d frontier base _ _ (Copies.kept k) le = Kept-latest d base committed k
    Copies-latest d frontier base _ _ (Copies.rewritten n slot w) le =
        Rewritten-latest d frontier base n slot w le

    pub both :
        (d d' : Disk Page) (base i : ℕ)
        → i ≤ 1
        → node_at f d' base ≡ node_at f d base
        → node_at f d' (base + 1) ≡ node_at f d (base + 1)
        → node_at f d' (base + i) ≡ node_at f d (base + i)
    both d d' base i le same same' = elim (slot_cases i le) [
      | inl e ↦ subst (λ k. node_at f d' k ≡ node_at f d k) (omega arith) same
      | inr e ↦ subst (λ k. node_at f d' k ≡ node_at f d k) (omega arith) same'
    ]

    -- Writes to other pages leave a node's copies alone.
    pub Copies-same :
        (d d' : Disk Page) (frontier later base : ℕ) (pending : Option Node) (slot : Option ℕ)
        → frontier ≤ later
        → node_at f d' base ≡ node_at f d base
        → node_at f d' (base + 1) ≡ node_at f d (base + 1)
        → Copies d frontier base pending slot
        → Copies d' later base pending slot
    Copies-same d d' frontier later base _ _ le same same' (Copies.kept k) =
        Copies.kept record { first = same ∙ k.first; second = same' ∙ k.second }
    Copies-same d d' frontier later base _ _ le same same' (Copies.rewritten n slot w) =
        let slot_bit : slot ≤ 1 = w.slot_bit in
        let below : base + 2 ≤ frontier = w.below in
        Copies.rewritten n slot record {
          slot_bit = slot_bit;
          below = omega arith;
          new = (w.new.0, both d d' base slot slot_bit same same' ∙ w.new.1, w.new.2);
          other = both d d' base (1 - slot) (omega arith) same same' ∙ w.other;
          old = w.old;
          fresh = w.fresh;
        }

    -- the slot that a node may be written in: its slot in this transaction, or one not read at the
    -- committed epoch
    pub data Target (base : ℕ) : ℕ → Option ℕ → Type 0 where
      again : (slot : ℕ) → Target base slot (some slot)
      alternate :
          (slot : ℕ)
          → (base + 2 ≤ start
              → (e : ℕ) × (m : Node) × (latest f before base committed ≡ some (e, m, 1 - slot)))
          → (start ≤ base → slot ≡ 0)
          → Target base slot none

    module _ (law : IsFormat f) where
      off_page :
          (page : Page) (at : ℕ) (d : Disk Page) (i : ℕ)
          → i ≢ at
          → node_at f (pwrite f page at d) i ≡ node_at f d i
      off_page page at d i ne =
          let test : (i == at) ≡ false = ground arith in
          node_at-pwrite f page at d i law
          ∙ ap (λ b. if b then f.decode_node page else node_at f d i) test

      on_page :
          (page : Page) (at : ℕ) (d : Disk Page)
          → node_at f (pwrite f page at d) at ≡ f.decode_node page
      on_page page at d =
          let test : (at == at) ≡ true = ground arith in
          node_at-pwrite f page at d at law
          ∙ ap (λ b. if b then f.decode_node page else node_at f d at) test

      -- A node's new copy, in the slot that its readers do not read.
      pub Copies-write :
          (d : Disk Page) (frontier base : ℕ) (pending : Option Node) (n : Node) (page : Page)
          (slot : ℕ) (old : Option ℕ)
          → f.encode_node (suc committed) n ≡ ok page
          → base + 2 ≤ frontier
          → slot ≤ 1
          → Target base slot old
          → Copies d frontier base pending old
          → Copies (pwrite f page (base + slot) d) frontier base (some n) (some slot)
      Copies-write d frontier base _ n page slot _ coded below bit (Target.again _)
            (Copies.rewritten m _ w) =
          let (n', decoded, same) = law.node (suc committed) n page coded in
          Copies.rewritten n slot record {
            slot_bit = bit;
            below = below;
            new = (n', on_page page (base + slot) d ∙ decoded, same);
            other = off_page page (base + slot) d (base + (1 - slot)) (λ e. omega arith) ∙ w.other;
            old = w.old;
            fresh = w.fresh;
          }
      Copies-write d frontier base _ n page slot _ coded below bit (Target.alternate _ old fresh)
            (Copies.kept k) =
          let (n', decoded, same) = law.node (suc committed) n page coded in
          Copies.rewritten n slot record {
            slot_bit = bit;
            below = below;
            new = (n', on_page page (base + slot) d ∙ decoded, same);
            other =
                off_page page (base + slot) d (base + (1 - slot)) (λ e. omega arith)
                ∙ both before d base (1 - slot) (omega arith) k.first k.second;
            old = old;
            fresh = fresh;
          }

      -- The copies of the other nodes stay.
      pub Copies-beside :
          (d : Disk Page) (frontier base slot : ℕ) (page : Page) (b : ℕ) (pending : Option Node)
          (old : Option ℕ)
          → slot ≤ 1
          → base % 2 ≡ 0
          → b % 2 ≡ 0
          → b ≢ base
          → Copies d frontier b pending old
          → Copies (pwrite f page (base + slot) d) frontier b pending old
      Copies-beside d frontier base slot page b pending old bit halves halves' ne c =
          Copies-same d (pwrite f page (base + slot) d) frontier frontier b pending old
            (omega arith) (off_page page (base + slot) d b (λ e. ne (omega arith)))
            (off_page page (base + slot) d (b + 1) (λ e. ne (omega arith))) c

      extend_page :
          (d : Disk Page) (later i : ℕ)
          → start ≤ later
          → ((j : ℕ) → start ≤ j → node_at f before j ≡ none)
          → node_at f d i ≡ node_at f before i
          → node_at f (ftruncate f later d) i ≡ node_at f before i
      extend_page d later i le tail same = elim (Bool-cases (ltb i later)) [
        | inl t ↦ node_at-ftruncate f later d i law (ltb→lt i later t) ∙ same
        | inr t ↦
            let past : later ≤ i = ground arith in
            node_at-past f later d i law past ∙ sym (tail i (omega arith))
      ]

      -- An extension of the file leaves all copies, where the pages past the frontier held none.
      pub Copies-extend :
          (d : Disk Page) (frontier later b : ℕ) (pending : Option Node) (old : Option ℕ)
          → frontier ≤ later
          → start ≤ frontier
          → ((i : ℕ) → start ≤ i → node_at f before i ≡ none)
          → Copies d frontier b pending old
          → Copies (ftruncate f later d) later b pending old
      Copies-extend d frontier later b _ _ le from tail (Copies.kept k) = Copies.kept record {
        first = extend_page d later b (omega arith) tail k.first;
        second = extend_page d later (b + 1) (omega arith) tail k.second;
      }
      Copies-extend d frontier later b _ _ le from tail (Copies.rewritten n slot w) =
          let below : b + 2 ≤ frontier = w.below in
          Copies-same d (ftruncate f later d) frontier later b (some n) (some slot) le
            (node_at-ftruncate f later d b law (omega arith))
            (node_at-ftruncate f later d (b + 1) law (omega arith)) (Copies.rewritten n slot w)
