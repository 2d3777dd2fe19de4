-- ===== src/Radix/Writes.antt =====
-- The node writes of a transaction: that they return, and what they leave.
use durable_infinite_context.Prelude.{
  ℕ, suc, ◌+◌, ◌-◌, ◌%◌, ◌<◌, ◌≤◌, ◌≡◌, ◌≢◌, ◌⊎◌, inl, inr, ◌^◌, none, some, [], ◌∷◌, All, arith,
  refl, sym, subst, ◌∙◌, ok,
}
use native.Mathlib.Decide.{ℕ_discrete}
use durable_infinite_context.Prelude.Dicts.{
  number_key, pair_key, Dict, get, put, get-put_same, get-put_other,
}
use durable_infinite_context.Radix.{Node}
use durable_infinite_context.Radix.Disk.{Disk, Format, IsFormat, Fits, node_at}
use durable_infinite_context.Radix.Copies.{Target}
use durable_infinite_context.Radix.Mapping.{
  stage, set_slot, write_new_node, write_children, target_slot, write_existing_node,
}
use durable_infinite_context.Radix.Safety.{Safe, Safe-write, fresh-Target, Safe-slots}
use durable_infinite_context.Radix.Txn.{Txn, Step, ◌>>=◌, lift, modify, run_on}

-- the pending nodes after a list of writes
abbrev pub put_all : Dict ℕ Node → Dict ℕ Node → Dict ℕ Node
put_all [] nodes = nodes
put_all ((base, n) ∷ rest) nodes = put_all rest (put base n nodes)

-- What a write leaves alone, beside the disk.
pub record Beside {Page : Type 0} (s s' : Txn Page) : Type 0 where
  pub segments : s'.pending_segments ≡ s.pending_segments
  pub at : s'.pending_frontier ≡ s.pending_frontier
  pub cache : s'.segment_cache ≡ s.segment_cache

pub Beside-trans :
    {Page : Type 0} (s s' s'' : Txn Page) → Beside s s' → Beside s' s'' → Beside s s''
Beside-trans s s' s'' a b = record {
  segments = b.segments ∙ a.segments;
  at = b.at ∙ a.at;
  cache = b.cache ∙ a.cache;
}

module _ {Page R : Type 0} (f : Format Page R) (law : IsFormat f) (before : Disk Page)
    (committed start : ℕ) (room : 4 ≤ start)
    (tail : (i : ℕ) → start ≤ i → node_at f before i ≡ none) (epochs : suc committed < 2 ^ 64) where
  pub record Wrote (s s' : Txn Page) (written : Dict ℕ Node) (frontier : ℕ) : Type 0 where
    pub nodes : s'.pending_nodes ≡ written
    pub safe : Safe f before committed start s'.disk s'.pending_nodes s'.pending_node_slots frontier
    pub beside : Beside s s'

  abbrev pub SafeTxn : Txn Page → ℕ → Type 0
  SafeTxn s frontier =
      Safe f before committed start s.disk s.pending_nodes s.pending_node_slots frontier

  -- where a new node may stand
  pub record Fresh (frontier base : ℕ) (n : Node) : Type 0 where
    pub halves : base % 2 ≡ 0
    pub past : start ≤ base
    pub below : base + 2 ≤ frontier
    pub fits : Fits n

  pub write_new_node-Wrote :
      (s : Txn Page) (frontier base : ℕ) (n : Node)
      → SafeTxn s frontier
      → Fresh frontier base n
      → (page : Page) × (write_new_node f base (suc committed) n s
          ≡ (ok tt, stage f base n 0 page (set_slot f base 0 s)))
        × SafeTxn (stage f base n 0 page (set_slot f base 0 s)) frontier
  unfolding write_new_node
  write_new_node-Wrote s frontier base n safe new =
      let (page, coded) = law.fits (suc committed) n epochs new.fits in
      let past : start ≤ base = new.past in
      (
        page,
        rw coded refl,
        Safe-write f law before committed start room tail s.disk s.pending_nodes
            s.pending_node_slots frontier base 0 n page safe coded new.fits.unique new.halves
            (omega arith) new.below (omega arith)
            (fresh-Target f law before committed start room tail s.disk frontier base
              (get base s.pending_nodes) (get base s.pending_node_slots) past
              (safe.copies base new.halves (omega arith))),
      )

  -- Only the slots of the written nodes are set.
  abbrev pub Others : Dict ℕ Node → Txn Page → Txn Page → Type 0
  Others rows s s' =
      (b : ℕ)
      → All (λ row. b ≢ row.0) rows
      → get b s'.pending_node_slots ≡ get b s.pending_node_slots

  pub write_children-Wrote :
      (rows : Dict ℕ Node) (s : Txn Page) (frontier : ℕ)
      → SafeTxn s frontier
      → All (λ row. Fresh frontier row.0 row.1) rows
      → (s' : Txn Page) × (write_children f (suc committed) rows s ≡ (ok tt, s'))
        × Wrote s s' (put_all rows s.pending_nodes) frontier
        × Others rows s s'
  unfolding write_children
  write_children-Wrote [] s frontier safe new = (
    s,
    refl,
    record {
      nodes = refl;
      safe = safe;
      beside = record { segments = refl; at = refl; cache = refl };
    },
    λ b all. refl,
  )
  write_children-Wrote ((base, n) ∷ rows) s frontier safe (first, others) =
      let (page, run, safe') = write_new_node-Wrote s frontier base n safe first in
      let next : Txn Page = stage f base n 0 page (set_slot f base 0 s) in
      let (s', run', wrote, slots) = write_children-Wrote rows next frontier safe' others in
      (
        s',
        run_on (write_new_node f base (suc committed) n)
              (λ _. write_children f (suc committed) rows) s next tt run
            ∙ run',
        record {
          nodes = wrote.nodes;
          safe = wrote.safe;
          beside =
              Beside-trans s next s' record { segments = refl; at = refl; cache = refl }
                wrote.beside;
        },
        λ b all. slots b all.1 ∙ get-put_other b base 0 s.pending_node_slots all.0,
      )

  put_again :
      (b base slot : ℕ) (slots : Dict ℕ ℕ)
      → get base slots ≡ some slot
      → get b (put base slot slots) ≡ get b slots
  put_again b base slot slots has = elim (ℕ_discrete b base) [
    | yes same ↦
        subst (λ k. get k (put base slot slots) ≡ get k slots) (sym same)
          (get-put_same base slot slots ∙ sym has)
    | no other ↦ get-put_other b base slot slots other
  ]

  slot_again :
      (s : Txn Page) (base slot : ℕ)
      → get base s.pending_node_slots ≡ some slot
      → target_slot f base committed (some slot) s ≡ (ok slot, s)
  unfolding target_slot
  slot_again s base slot has = rw (has, target_slot) refl

  slot_other :
      (s : Txn Page) (base slot : ℕ)
      → get base s.pending_node_slots ≡ none
      → target_slot f base committed (some slot) s ≡ (ok (1 - slot), set_slot f base (1 - slot) s)
  unfolding target_slot
  slot_other s base slot has = rw (has, target_slot) refl

  -- the write to a slot
  abbrev written : Node → ℕ → ℕ → Step Page Unit
  written n base slot =
      lift (λ s. f.encode_node (suc committed) n) >>= λ page. modify (stage f base n slot page)

  -- An existing node is rewritten in the slot that its readers do not read.
  pub write_existing_node-Wrote :
      (s : Txn Page) (frontier base slot : ℕ) (n : Node)
      → SafeTxn s frontier
      → base % 2 ≡ 0
      → 2 ≤ base
      → base + 2 ≤ frontier
      → slot ≤ 1
      → Fits n
      → (get base s.pending_node_slots ≡ some slot)
        ⊎ ((get base s.pending_node_slots ≡ none)
            × Target f before committed start base (1 - slot) none)
      → (s' : Txn Page) × (write_existing_node f base committed (suc committed) n (some slot) s
          ≡ (ok tt, s'))
        × Wrote s s' (put base n s.pending_nodes) frontier
  unfolding write_existing_node
  write_existing_node-Wrote s frontier base slot n safe halves low below bit fits (inl has) =
      let (page, coded) = law.fits (suc committed) n epochs fits in
      (
        stage f base n slot page s,
        run_on (target_slot f base committed (some slot)) (written n base) s s slot
              (slot_again s base slot has)
            ∙ rw coded refl,
        record {
          nodes = refl;
          safe =
              Safe-slots f law before committed start room tail _ _
                (put base slot s.pending_node_slots) s.pending_node_slots frontier
                (λ b. sym (put_again b base slot s.pending_node_slots has))
                (Safe-write f law before committed start room tail s.disk s.pending_nodes
                  s.pending_node_slots frontier base slot n page safe coded fits.unique halves low
                  below bit
                  (subst (Target f before committed start base slot) (sym has)
                    (Target.again slot)));
          beside = record { segments = refl; at = refl; cache = refl };
        },
      )
  write_existing_node-Wrote s frontier base slot n safe halves low below bit fits
        (inr (has, target)) =
      let (page, coded) = law.fits (suc committed) n epochs fits in
      (
        stage f base n (1 - slot) page (set_slot f base (1 - slot) s),
        run_on (target_slot f base committed (some slot)) (written n base) s
              (set_slot f base (1 - slot) s) (1 - slot) (slot_other s base slot has)
            ∙ rw coded refl,
        record {
          nodes = refl;
          safe =
              Safe-write f law before committed start room tail s.disk s.pending_nodes
                s.pending_node_slots frontier base (1 - slot) n page safe coded fits.unique halves
                low below (omega arith)
                (subst (Target f before committed start base (1 - slot)) (sym has) target);
          beside = record { segments = refl; at = refl; cache = refl };
        },
      )
