-- ===== src/Radix/Txn.antt =====
-- The store's pending state during one operation, the chain of steps on it, and its reads: of a node's
-- newest visible copy, of a segment through the tree, and of the superblock.
use durable_infinite_context.Prelude.{
  ℕ, suc, ◌+◌, ◌^◌, Bool, true, false, Option, none, some, List, [], ◌∷◌, ltb, leb, ◌==◌,
  if◌then◌else◌, Outcome, ok, err, ◌≡◌, ap,
}
use durable_infinite_context.Prelude.Dicts.{number_key, pair_key, Dict, get, put}
use durable_infinite_context.Radix.{Node, Meta, Fault, radix_digits, root_node_base_page}
use durable_infinite_context.Radix.Disk.{Disk, Format, node_at, super_at}

pub record Txn (Page : Type 0) : Type 0 where
  pub disk : Disk Page
  pub pending_nodes : Dict ℕ Node
  pub pending_node_slots : Dict ℕ ℕ
  pub pending_segments : Dict ℕ ℕ
  pub pending_new_segments : List ℕ
  pub pending_frontier_start : Option ℕ
  pub pending_frontier : Option ℕ
  pub pending_allocated_pages : ℕ
  pub pending_radix_pwrites : ℕ
  pub segment_cache : Dict (ℕ × ℕ) (Option ℕ)

-- `_reset_operation_state`
unfoldable pub reset_operation_state : {Page : Type 0} → Txn Page → Txn Page
reset_operation_state s = record {
  disk = s.disk;
  pending_nodes = [];
  pending_node_slots = [];
  pending_segments = [];
  pending_new_segments = [];
  pending_frontier_start = none;
  pending_frontier = none;
  pending_allocated_pages = 0;
  pending_radix_pwrites = 0;
  segment_cache = [];
}

-- What an operation does: it returns or raises, and its writes stay in both cases.
abbrev pub Step : Type 0 → Type 0 → Type 0
Step Page A = Txn Page → Outcome Fault A × Txn Page

infixl 5 ◌>>=◌ ◌>>◌
abbrev pub ◌>>=◌ : {Page A B : Type 0} → Step Page A → (A → Step Page B) → Step Page B
◌>>=◌ m next s = let (o, s') = m s in elim o [ ok a ↦ next a s' | err e ↦ (err e, s') ]

-- A step that returned hands on its value and its state.
pub run_on :
    {Page A B : Type 0} (m : Step Page A) (next : A → Step Page B) (s s' : Txn Page) (a : A)
    → m s ≡ (ok a, s')
    → (m >>= next) s ≡ next a s'
run_on m next s s' a run = ap (λ o. elim o.0 [ ok a' ↦ next a' o.1 | err e ↦ (err e, o.1) ]) run

-- A step that raised ends the chain.
pub run_off :
    {Page A B : Type 0} (m : Step Page A) (next : A → Step Page B) (s s' : Txn Page) (e : Fault)
    → m s ≡ (err e, s')
    → (m >>= next) s ≡ (err e, s')
run_off m next s s' e run = ap (λ o. elim o.0 [ ok a ↦ next a o.1 | err e' ↦ (err e', o.1) ]) run

abbrev pub ◌>>◌ : {Page A B : Type 0} → Step Page A → Step Page B → Step Page B
m >> next = m >>= λ _. next

abbrev pub pure : {Page A : Type 0} → A → Step Page A
pure a s = (ok a, s)

abbrev pub raise : {Page A : Type 0} → Fault → Step Page A
raise e s = (err e, s)

abbrev pub or_raise : {A : Type 0} → Fault → Option A → Outcome Fault A
or_raise e none = err e
or_raise e (some a) = ok a

abbrev pub lift : {Page A : Type 0} → (Txn Page → Outcome Fault A) → Step Page A
lift m s = (m s, s)

abbrev pub modify : {Page : Type 0} → (Txn Page → Txn Page) → Step Page Unit
modify f s = (ok tt, f s)

-- `max(candidates, key=lambda row: row[0])` of the copies 0 and 1: the first of the newest
unfoldable pub newest : {A : Type 0} → Option (ℕ × A) → Option (ℕ × A) → Option (ℕ × A × ℕ)
newest none none = none
newest (some (e, a)) none = some (e, a, 0)
newest none (some (e, a)) = some (e, a, 1)
newest (some (e, a)) (some (e', a')) = if ltb e e' then some (e', a', 1) else some (e, a, 0)

-- a copy is a candidate up to the committed epoch
unfoldable pub visible : {A : Type 0} → ℕ → Option (ℕ × A) → Option (ℕ × A)
visible committed none = none
visible committed (some (e, a)) = if leb e committed then some (e, a) else none

-- `_radix_digits`
abbrev pub digits_of : ℕ → Outcome Fault (List ℕ)
digits_of segment_id =
    if ltb segment_id (2 ^ 64) then ok (radix_digits segment_id) else err Fault.out_of_namespace

abbrev pub is_empty : {A : Type 0} → List A → Bool
is_empty [] = true
is_empty (x ∷ l) = false

module _ {Page R : Type 0} (f : Format Page R) where
  unfoldable pub latest : Disk Page → ℕ → ℕ → Option (ℕ × Node × ℕ)
  latest d base committed =
      newest (visible committed (node_at f d base)) (visible committed (node_at f d (base + 1)))

  abbrev pub payload : Option (ℕ × Node × ℕ) → Outcome Fault (Node × ℕ)
  payload none = err Fault.no_valid_node
  payload (some (e, n, slot)) = ok (n, slot)

  abbrev pub read_node : Disk Page → ℕ → ℕ → Outcome Fault (Node × ℕ)
  read_node d base committed = payload (latest d base committed)

  abbrev pub staged : Option Node → Option ℕ → Outcome Fault (Node × ℕ) → Outcome Fault (Node × ℕ)
  staged none slot stored = stored
  staged (some n) none stored = err Fault.missing_key
  staged (some n) (some slot) stored = ok (n, slot)

  -- `_transaction_node_view`, and `_node_for_pending_write`
  unfoldable pub transaction_node_view : Txn Page → ℕ → ℕ → Outcome Fault (Node × ℕ)
  transaction_node_view s base committed =
      staged (get base s.pending_nodes) (get base s.pending_node_slots)
        (read_node s.disk base committed)

  abbrev pub checked : ℕ → Outcome Fault (Node × ℕ) → Outcome Fault (Node × ℕ)
  checked depth (err e) = err e
  checked depth (ok (n, slot)) = if n.depth == depth then ok (n, slot) else err Fault.depth_drifted

  -- a node of the walk, and the test of its depth
  unfoldable pub node_on_walk : Txn Page → ℕ → ℕ → ℕ → Outcome Fault (Node × ℕ)
  node_on_walk s committed depth base = checked depth (transaction_node_view s base committed)

  -- the walk of `_resolve_segment` down the digits
  unfoldable pub walk : Txn Page → ℕ → ℕ → List ℕ → ℕ → Outcome Fault (Option ℕ)
  walk s committed depth [] base = err Fault.fell_through
  walk s committed depth (d ∷ ds) base = elim (node_on_walk s committed depth base) [
    | err e ↦ err e
    | ok (n, slot) ↦ elim (get d n.entries) [
      | none ↦ ok none
      | some page ↦ elim ds [ [] ↦ ok (some page) | e ∷ es ↦ walk s committed (suc depth) ds page ]
    ]
  ]

  -- the traversal, and the note of its result where the committed cache is in use
  unfoldable pub traverse : ℕ → ℕ → Step Page (Option ℕ)
  traverse segment_id committed = do
    digits ← lift (λ s. digits_of segment_id)
    found ← lift (λ s. walk s committed 0 digits root_node_base_page)
    modify (λ s.
        if is_empty s.pending_nodes
        then record s { segment_cache = put (committed, segment_id) found s.segment_cache }
        else s)
    pure found

  unfoldable pub resolve_segment : ℕ → ℕ → Step Page (Option ℕ)
  resolve_segment segment_id committed s = elim (get segment_id s.pending_segments) [
    | some base ↦ (ok (some base), s)
    | none ↦
        elim (if is_empty s.pending_nodes
          then get (committed, segment_id) s.segment_cache
          else none) [ some cached ↦ (ok cached, s) | none ↦ traverse segment_id committed s ]
  ]

  abbrev pub read_super : Disk Page → Outcome Fault (ℕ × Meta R × ℕ)
  read_super d = or_raise Fault.no_valid_super (newest (super_at f d 0) (super_at f d 1))

  -- the frontier of a transaction, where it has none yet
  abbrev pub adopt : Meta R → Txn Page → Txn Page
  adopt m s = elim s.pending_frontier [
    | some at ↦ record s { segment_cache = [] }
    | none ↦ record s {
      segment_cache = [];
      pending_frontier_start = some m.next_physical_page;
      pending_frontier = some m.next_physical_page;
    }
  ]

  -- `_read_super` with the counters of an operation
  unfoldable pub open_super : Step Page (ℕ × Meta R × ℕ)
  open_super = do row ← lift (λ s. read_super s.disk); modify (adopt row.1); pure row
