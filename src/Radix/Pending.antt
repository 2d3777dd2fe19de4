-- ===== src/Radix/Pending.antt =====
-- The state of a transaction between its steps, and what its node reads return.
use durable_infinite_context.Prelude.{
  ℕ, ◌+◌, ◌-◌, ◌%◌, ◌<◌, ◌≤◌, ◌≡◌, ◌⊎◌, inl, inr, ◌^◌, true, Option, none, some, List, [], length,
  if◌then◌else◌, arith, refl, sym, ap, ◌∙◌, some_same, Bool-cases, ok, Outcome,
}
use durable_infinite_context.Prelude.Dicts.{number_key, pair_key, Dict, get}
use durable_infinite_context.Radix.{Node, Fault, radix_digits}
use durable_infinite_context.Radix.Disk.{Disk, Format}
use durable_infinite_context.Radix.Copies.{inner, newest_node, frozen, Copies, Kept-latest, Target}
use durable_infinite_context.Radix.Newest.{newest_slot}
use durable_infinite_context.Radix.Safety.{Safe}
use durable_infinite_context.Radix.Txn.{
  Txn, latest, payload, read_node, transaction_node_view, is_empty, staged,
}
use durable_infinite_context.Radix.Tree.{View, reach, Tree}
use durable_infinite_context.Radix.Tree.Growth.{onto}

abbrev pub covered : Option Node → Option Node → Option Node
covered none below = below
covered (some n) below = some n

-- the view that a transaction's pending nodes cover
unfoldable pub overlay : Dict ℕ Node → View → View
overlay nodes v b = covered (get b nodes) (v b)

-- the path of a segment
abbrev pub path : ℕ → List ℕ
path segment_id = onto (radix_digits segment_id) []

module _ {Page R : Type 0} (f : Format Page R) (before : Disk Page) (committed start : ℕ) where
  abbrev pub view : Txn Page → View
  view s = overlay s.pending_nodes (frozen f before committed start)

  pub record Pending (s : Txn Page) (frontier : ℕ) : Type 0 where
    pub even : frontier % 2 ≡ 0
    pub safe : Safe f before committed start s.disk s.pending_nodes s.pending_node_slots frontier
    pub tree : Tree (view s) frontier
    pub segments :
        (q b : ℕ)
        → get q s.pending_segments ≡ some b
        → (q < 2 ^ 64) × (reach (view s) (path q) ≡ some b)
    pub cache :
        (q : ℕ) (o : Option ℕ)
        → is_empty s.pending_nodes ≡ true
        → get (committed, q) s.segment_cache ≡ some o
        → reach (view s) (path q) ≡ o

  newest_node-some :
      (o : Option (ℕ × Node × ℕ)) (n : Node)
      → newest_node o ≡ some n
      → (e : ℕ) × (slot : ℕ) × (o ≡ some (e, n, slot))
  newest_node-some none n h = cc
  newest_node-some (some (e, m, slot)) n h = (e, slot, ap (λ x. some (e, x, slot)) (some_same h))

  pub frozen-some :
      (b : ℕ) (n : Node)
      → frozen f before committed start b ≡ some n
      → (b + 2 ≤ start) × ((e : ℕ) × (slot : ℕ) × (latest f before b committed ≡ some (e, n, slot)))
  unfolding frozen
  frozen-some b n h = elim (Bool-cases (inner start b)) [
    | inl t ↦
        let found : newest_node (latest f before b committed) ≡ some n =
          sym (ap (λ c. if c then newest_node (latest f before b committed) else none) t) ∙ h in
        (ground arith, newest_node-some (latest f before b committed) n found)
    | inr t ↦
        let nothing : frozen f before committed start b ≡ none =
          ap (λ c. if c then newest_node (latest f before b committed) else none) t in
        cc
  ]

  -- What a reader in the transaction gets of a node: the payload that its view has, and a slot whose
  -- alternate the transaction may write.
  pub record Viewed (s : Txn Page) (b : ℕ) (n : Node) (slot : ℕ) : Type 0 where
    pub bit : slot ≤ 1
    pub result : transaction_node_view f s b committed ≡ ok (n, slot)
    pub target :
        (get b s.pending_node_slots ≡ some slot)
        ⊎ ((get b s.pending_node_slots ≡ none) × Target f before committed start b (1 - slot) none)

  overlay-Viewed :
      (s : Txn Page) (frontier b : ℕ) (n : Node) (pending : Option Node) (old : Option ℕ)
      → get b s.pending_nodes ≡ pending
      → get b s.pending_node_slots ≡ old
      → Copies f before committed start s.disk frontier b pending old
      → overlay s.pending_nodes (frozen f before committed start) b ≡ some n
      → (slot : ℕ) × Viewed s b n slot
  unfolding overlay transaction_node_view latest
  overlay-Viewed s frontier b n _ _ p q (Copies.rewritten m slot w) has =
      let shown : covered (get b s.pending_nodes) (frozen f before committed start b) ≡ some m =
        ap (λ o. covered o (frozen f before committed start b)) p in
      let m_is : m ≡ n = some_same (sym shown ∙ has) in
      let stored : Outcome Fault (Node × ℕ) = read_node f s.disk b committed in
      let result : staged f (get b s.pending_nodes) (get b s.pending_node_slots) stored
          ≡ ok (m, slot) =
        ap (λ o. staged f o (get b s.pending_node_slots) stored) p
        ∙ ap (λ o. staged f (some m) o stored) q in
      (
        slot,
        record { bit = w.slot_bit; result = result ∙ ap (λ x. ok (x, slot)) m_is; target = inl q },
      )
  overlay-Viewed s frontier b n _ _ p q (Copies.kept k) has =
      let shown : covered (get b s.pending_nodes) (frozen f before committed start b)
          ≡ frozen f before committed start b =
        ap (λ o. covered o (frozen f before committed start b)) p in
      let (below, (e, slot, found)) = frozen-some b n (sym shown ∙ has) in
      let bit : slot ≤ 1 = newest_slot _ _ e n slot found in
      let stored : Outcome Fault (Node × ℕ) = read_node f s.disk b committed in
      let read : stored ≡ ok (n, slot) =
        ap (payload f) (Kept-latest f before committed start s.disk b committed k ∙ found) in
      let back : 1 - (1 - slot) ≡ slot = omega arith in
      (
        slot,
        record {
          bit = bit;
          result = ap (λ o. staged f o (get b s.pending_node_slots) stored) p ∙ read;
          target = inr (
            q,
            Target.alternate (1 - slot) (λ le. (e, n, found ∙ ap (λ k. some (e, n, k)) (sym back)))
                (λ past. absurd (omega arith)),
          );
        },
      )

  pub Pending-Viewed :
      (s : Txn Page) (frontier : ℕ) (p : List ℕ) (b : ℕ)
      → Pending s frontier
      → length p < 8
      → reach (view s) p ≡ some b
      → (n : Node) × (view s b ≡ some n) × (n.depth ≡ length p) × ((slot : ℕ) × Viewed s b n slot)
  Pending-Viewed s frontier p b inv short run =
      let t : Tree (view s) frontier = inv.tree in
      let (n, is, depth) = t.node p b short run in
      let (low, below) = t.inside p b (omega arith) run in
      let halves : b % 2 ≡ 0 = t.even p b (omega arith) run in
      (n, is, depth, overlay-Viewed s frontier b n _ _ refl refl (inv.safe.copies b halves low) is)
