-- ===== src/Radix/Reservation.antt =====
-- `_reserve_fresh_mapping`: that it maps its segment, that all other segments stay where they are, and
-- that only a failpoint or the end of the pages' range stops it.
use durable_infinite_context.Prelude.{
  ℕ, suc, ◌+◌, ◌-◌, ◌*◌, ◌%◌, ◌<◌, ◌≤◌, ◌≡◌, ◌≢◌, ◌⊎◌, inl, inr, ◌^◌, Bool, true, false, none, some,
  List, [], ◌∷◌, String, length, All, ltb, ◌==◌, arith, refl, sym, ap, subst, ◌∙◌, some_same,
  Bool-cases, ok, err,
}
use native.Mathlib.Decide.{ℕ_discrete}
use durable_infinite_context.Prelude.Dicts.{
  number_key, pair_key, Dict, get, put, get-put_same, get-put_other,
}
use durable_infinite_context.Radix.{
  Node, Fault, new_bases, first_or, children, max_physical_page_id,
}
use durable_infinite_context.Radix.Disk.{Disk, Format, IsFormat, Fits, node_at}
use durable_infinite_context.Radix.Copies.{frozen}
use durable_infinite_context.Radix.Allocation.{
  children-Fresh, overlay-Planted, view_Unique, linked_Fits, Byte, past_off, children_past,
  first_word,
}
use durable_infinite_context.Radix.Digits.{path-injective, length-path}
use durable_infinite_context.Radix.Mapping.{
  extend, probe, note_segment, cache_segment, allocate, write_children, write_existing_node,
}
use durable_infinite_context.Radix.Pending.{view, path, overlay, Pending, Viewed}
use durable_infinite_context.Radix.Runs.{Ended}
use durable_infinite_context.Radix.Safety.{Safe, Safe-extend}
use durable_infinite_context.Radix.Tree.{View, reach, linked, Tree, Tree-later}
use durable_infinite_context.Radix.Tree.Links.{Spot}
use durable_infinite_context.Radix.Tree.Growth.{Clear, Grown, grow, onto}
use durable_infinite_context.Radix.Txn.{Txn, Step, ◌>>◌, pure, modify, is_empty, run_on, run_off}
use durable_infinite_context.Radix.Writes.{
  put_all, Beside, write_children-Wrote, write_existing_node-Wrote, Beside-trans,
}

module _ {Page R : Type 0} (f : Format Page R) (law : IsFormat f) (before : Disk Page)
    (committed start : ℕ) (room : 4 ≤ start)
    (tail : (i : ℕ) → start ≤ i → node_at f before i ≡ none) (epochs : suc committed < 2 ^ 64)
    (failpoint : String → Txn Page → Bool) where
  abbrev pub Ready : Txn Page → ℕ → Type 0
  Ready = Pending f before committed start

  abbrev pub seen : Txn Page → View
  seen = view f before committed start

  abbrev pub Held : Txn Page → ℕ → Type 0
  Held s frontier =
      Safe f before committed start s.disk s.pending_nodes s.pending_node_slots frontier

  -- Why a transaction stops: a failpoint raised, or the range of the page ids, a bound past it, is used up.
  abbrev pub Cause : ℕ → Fault → Type 0
  Cause bound e =
      ((e ≡ Fault.injected) × ((label : String) × (s : Txn Page) × (failpoint label s ≡ true)))
      ⊎ ((e ≡ Fault.pointer_overflow) × (2 ^ 64 < bound))

  abbrev pub Stopped : ℕ → Fault → Txn Page → Type 0
  Stopped bound e s = Cause bound e × ((frontier : ℕ) × Held s frontier)

  probe_hit :
      (label : String) (s : Txn Page)
      → failpoint label s ≡ true
      → probe f failpoint label s ≡ (err Fault.injected, s)
  unfolding probe
  probe_hit label s hit = rw (hit, probe) refl

  pub probe_off :
      (label : String) (s : Txn Page)
      → failpoint label s ≡ false
      → probe f failpoint label s ≡ (ok tt, s)
  unfolding probe
  probe_off label s off = rw (off, probe) refl

  -- Past a failpoint that did not raise.
  pub probe_on :
      {A : Type 0} (Good : A → Txn Page → Type 0) (label : String) (next : Step Page A)
      (s : Txn Page) (frontier bound : ℕ)
      → Held s frontier
      → Ended Good (Stopped bound) (next s)
      → Ended Good (Stopped bound) ((probe f failpoint label >> next) s)
  probe_on Good label next s frontier bound held go = elim (Bool-cases (failpoint label s)) [
    | inl hit ↦
        subst (Ended Good (Stopped bound))
          (sym (
            run_off (probe f failpoint label) (λ _. next) s s Fault.injected
              (probe_hit label s hit)))
          (Ended.raised Fault.injected s (inl (refl, (label, s, hit)), (frontier, held)))
    | inr off ↦
        subst (Ended Good (Stopped bound))
          (sym (run_on (probe f failpoint label) (λ _. next) s s tt (probe_off label s off))) go
  ]

  -- Past a step that returned.
  pub go_on :
      {A : Type 0} {Good : A → Txn Page → Type 0} {bound : ℕ} (m : Step Page Unit)
      (next : Step Page A) (s s' : Txn Page)
      → m s ≡ (ok tt, s')
      → Ended Good (Stopped bound) (next s')
      → Ended Good (Stopped bound) ((m >> next) s)
  go_on {Good = Good} {bound = bound} m next s s' run rest =
      subst (Ended Good (Stopped bound)) (sym (run_on m (λ _. next) s s' tt run)) rest

  -- A reservation of a segment: where it is now, and the others where they were.
  pub record Reserved (s s' : Txn Page) (frontier later segment_id base : ℕ) : Type 0 where
    pub ready : Ready s' later
    pub front : s'.pending_frontier ≡ some later
    pub grown : frontier ≤ later
    pub bounded : later ≤ frontier + 46
    pub here : reach (seen s') (path segment_id) ≡ some base
    pub was :
        (reach (seen s) (path segment_id) ≡ none) ⊎ (reach (seen s) (path segment_id) ≡ some base)
    pub others :
        (q : List ℕ) → length q ≡ 8 → q ≢ path segment_id → reach (seen s') q ≡ reach (seen s) q

  not_empty : (nodes : Dict ℕ Node) (b : ℕ) (n : Node) → is_empty (put b n nodes) ≡ false
  unfolding put
  not_empty [] b n = refl
  not_empty ((c, m) ∷ nodes) b n = elim (Bool-cases (b == c)) [
    | inl same ↦ rw same refl
    | inr other ↦ rw other refl
  ]

  -- The state after the writes of a fresh mapping, with its segment noted.
  module _ (s : Txn Page) (frontier segment_id : ℕ) (inv : Ready s frontier)
      (bound : segment_id < 2 ^ 64) (q : List ℕ) (base slot : ℕ) (n : Node) (digit : ℕ)
      (rest : List ℕ) (spot : Spot (seen s) q base n digit)
      (is_path : onto rest (digit ∷ q) ≡ path segment_id) (count : length q + 1 + length rest ≡ 8)
      (byte : Byte digit) (bytes : All Byte rest)
      (missed : reach (seen s) (path segment_id) ≡ none) where
    abbrev pub rows : Dict ℕ Node
    rows = children (suc (length q)) rest (new_bases (length rest) (frontier + 32)) frontier

    abbrev pub parent : Node
    parent = linked digit (first_or (new_bases (length rest) (frontier + 32)) frontier) n

    abbrev pub after_nodes : Dict ℕ Node
    after_nodes = put base parent (put_all rows s.pending_nodes)

    abbrev pub end : ℕ
    end = frontier + 32 + 2 * length rest

    pub planted_Grown :
        (s' : Txn Page)
        → s'.pending_nodes ≡ after_nodes
        → Grown (seen s) (seen s') (path segment_id) frontier end
    planted_Grown s' nodes =
        let t : Tree (seen s) frontier = inv.tree in
        let halves : frontier % 2 ≡ 0 = inv.even in
        let from : start ≤ frontier = inv.safe.from in
        let below : View = frozen f before committed start in
        let clear : Clear (seen s) frontier = record {
          low = omega arith;
          halves = halves;
          away = λ p b short run. inl ((t.inside p b short run).1);
        } in
        let g : Grown (seen s) (overlay after_nodes below) (onto rest (digit ∷ q)) frontier end =
          grow (seen s) (overlay after_nodes below) rest q base n digit (frontier + 32) frontier
            (Tree-later (seen s) frontier (frontier + 32) (omega arith) t) spot count clear
            (omega arith) (omega arith) byte bytes
            (overlay-Planted s.pending_nodes below frontier q base n digit rest t spot) in
        subst (λ d. Grown (seen s) (overlay d below) (path segment_id) frontier end) (sym nodes)
          (subst (λ p. Grown (seen s) (overlay after_nodes below) p frontier end) is_path g)

    planted_segment :
        (s' : Txn Page)
        → s'.pending_nodes ≡ after_nodes
        → (r b : ℕ) → get r (put segment_id frontier s.pending_segments) ≡ some b
        → (r < 2 ^ 64) × (reach (seen s') (path r) ≡ some b)
    planted_segment s' nodes r b has =
        let g : Grown (seen s) (seen s') (path segment_id) frontier end = planted_Grown s' nodes in
        elim (ℕ_discrete r segment_id) [
          | yes same ↦
              let is : frontier ≡ b = some_same (
                sym (get-put_same segment_id frontier s.pending_segments)
                ∙ ap (λ k. get k (put segment_id frontier s.pending_segments)) (sym same)
                ∙ has) in
              (omega arith, ap (λ k. reach (seen s') (path k)) same ∙ g.here ∙ ap some is)
          | no other ↦
              let (word, run) =
                inv.segments r b
                  (sym (get-put_other r segment_id frontier s.pending_segments other) ∙ has) in
              (
                word,
                g.others (path r) (length-path r)
                      (λ e. other (path-injective r segment_id word bound e))
                    ∙ run,
              )
        ]

    pub planted_Reserved :
        (s' : Txn Page)
        → s'.pending_nodes ≡ after_nodes
        → s'.pending_frontier ≡ some end
        → Held s' end
        → s'.pending_segments ≡ put segment_id frontier s.pending_segments
        → Reserved s s' frontier end segment_id frontier
    planted_Reserved s' nodes at held segments =
        let g : Grown (seen s) (seen s') (path segment_id) frontier end = planted_Grown s' nodes in
        let halves : frontier % 2 ≡ 0 = inv.even in
        record {
          ready = record {
            even = omega arith;
            safe = held;
            tree = g.tree;
            segments = λ r b has. planted_segment s' nodes r b (ap (get r) (sym segments) ∙ has);
            cache = λ r o empty has.
                let full : is_empty s'.pending_nodes ≡ false =
                  ap is_empty nodes ∙ not_empty (put_all rows s.pending_nodes) base parent in
                cc;
          };
          front = at;
          grown = omega arith;
          bounded = omega arith;
          here = g.here;
          was = inl missed;
          others = g.others;
        }

    abbrev written_parent : Node
    written_parent = record {
      depth = length q;
      entries = put digit (first_or (new_bases (length rest) (frontier + 32)) frontier) n.entries;
    }

    base_off : All (λ row. base ≢ row.0) rows
    base_off =
        let t : Tree (seen s) frontier = inv.tree in
        let short : length q < 8 = spot.short in
        let (low, below) = t.inside q base (omega arith) spot.run in
        past_off base (frontier + 32) rows (omega arith) (
          children_past (suc (length q)) rest (frontier + 32) (frontier + 32) frontier
            (omega arith))

    -- all of the node writes
    pub planted :
        (s1 : Txn Page)
        → Held s1 end
        → s1.pending_nodes ≡ s.pending_nodes
        → s1.pending_node_slots ≡ s.pending_node_slots
        → n.depth ≡ length q
        → end ≤ 2 ^ 64
        → Viewed f before committed start s base n slot
        → (s2 : Txn Page) × (write_children f (suc committed) rows s1 ≡ (ok tt, s2))
          × Held s2 end
          × ((s3 : Txn Page) × (write_existing_node f base committed
                  (suc committed)
                  written_parent
                  (some slot)
                  s2
                ≡ (ok tt, s3))
              × Held s3 end
              × (s3.pending_nodes ≡ after_nodes)
              × Beside s1 s3)
    planted s1 held nodes slots depth word read =
        let t : Tree (seen s) frontier = inv.tree in
        let halves : frontier % 2 ≡ 0 = inv.even in
        let from : start ≤ frontier = inv.safe.from in
        let short : length q < 8 = spot.short in
        let (low, below) = t.inside q base (omega arith) spot.run in
        let first : ℕ = first_or (new_bases (length rest) (frontier + 32)) frontier in
        let (s2, run2, wrote2, others2) =
          write_children-Wrote f law before committed start room tail epochs rows s1 end held (
            children-Fresh f law before committed start room tail epochs (suc (length q)) rest
              (frontier + 32) frontier end (omega arith) bytes (omega arith) (omega arith)
              (omega arith) word (omega arith)) in
        let fits : Fits written_parent =
          linked_Fits f law (seen s) frontier q base n digit first t spot depth
            (view_Unique f law before committed start s.pending_nodes base n inv.safe.unique
              spot.node)
            (omega arith) byte
            (first_word (length rest) (frontier + 32) frontier (λ more. omega arith)
              (omega arith)) in
        let same_slot : get base s2.pending_node_slots ≡ get base s.pending_node_slots =
          others2 base base_off ∙ ap (get base) slots in
        let (s3, run3, wrote3) =
          write_existing_node-Wrote f law before committed start room tail epochs s2 end base slot
            written_parent wrote2.safe (t.even q base (omega arith) spot.run) low (omega arith)
            read.bit fits
            (elim read.target [
              | inl has ↦ inl (same_slot ∙ has)
              | inr (has, target) ↦ inr (same_slot ∙ has, target)
            ]) in
        (
          s2,
          run2,
          wrote2.safe,
          (
            s3,
            run3,
            wrote3.safe,
            wrote3.nodes
                ∙ ap (put base written_parent) (wrote2.nodes ∙ ap (put_all rows) nodes)
                ∙ ap
                    (λ k.
                      put base record { depth = k; entries = put digit first n.entries }
                        (put_all rows s.pending_nodes))
                    (sym depth),
            Beside-trans s1 s2 s3 wrote2.beside wrote3.beside,
          ),
        )

    abbrev pub Mapped : ℕ → Txn Page → Type 0
    Mapped b t = (later : ℕ) × Reserved s t frontier later segment_id b

    -- the writes of the new nodes and of their parent, and the notes
    pub allocate-Ended :
        n.depth ≡ length q
        → Viewed f before committed start s base n slot
        → Ended Mapped (Stopped (frontier + 46)) (
            allocate f failpoint segment_id committed
              (suc committed)
              frontier
              (length q)
              base
              slot
              n
              digit
              rest
              s)
    unfolding allocate
    allocate-Ended depth read = elim (Bool-cases (ltb max_physical_page_id (end - 1))) [
      | inl over ↦
          rw over
            (Ended.raised Fault.pointer_overflow s (inr (refl, ground arith), (frontier, inv.safe)))
      | inr room' ↦ rw room' (
          let s1 : Txn Page = extend f failpoint segment_id frontier end s in
          let held1 : Held s1 end =
            Safe-extend f law before committed start room tail s.disk s.pending_nodes
              s.pending_node_slots frontier end (omega arith) inv.safe in
          let (s2, run2, held2, (s3, run3, held3, nodes3, beside3)) =
            planted s1 held1 refl refl depth (ground arith) read in
          let done : Txn Page =
            cache_segment f failpoint (suc committed) segment_id frontier
              (note_segment f failpoint segment_id frontier s3) in
          let reserved : Reserved s done frontier end segment_id frontier =
            planted_Reserved done nodes3 beside3.at held3
              (ap (put segment_id frontier) beside3.segments) in
          let noted : Step Page ℕ =
            modify (note_segment f failpoint segment_id frontier)
            >> (modify (cache_segment f failpoint (suc committed) segment_id frontier)
                >> pure frontier) in
          let link : Step Page Unit =
            write_existing_node f base committed (suc committed) written_parent (some slot) in
          let plant : Step Page Unit = write_children f (suc committed) rows in
          let linked_on : Step Page ℕ = link >> (probe f failpoint "parent_written" >> noted) in
          let planted_on : Step Page ℕ =
            plant >> (probe f failpoint "children_written" >> linked_on) in
          probe_on Mapped "allocated" planted_on s1 end (frontier + 46) held1 (
            go_on plant (probe f failpoint "children_written" >> linked_on) s1 s2 run2 (
              probe_on Mapped "children_written" linked_on s2 end (frontier + 46) held2 (
                go_on link (probe f failpoint "parent_written" >> noted) s2 s3 run3 (
                  probe_on Mapped "parent_written" noted s3 end (frontier + 46) held3
                    (Ended.returned frontier done (end, reserved)))))))
    ]
