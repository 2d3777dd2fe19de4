-- ===== src/Radix/Mapping.antt =====
-- The writes of the mapping: nodes, the reservation of a fresh mapping, batches of them, the superblock
-- that commits a batch, and recovery.
use durable_infinite_context.Prelude.{
  ℕ, suc, ◌+◌, ◌-◌, ◌*◌, ◌^◌, Bool, true, false, ◌||◌, Option, none, some, List, [], ◌∷◌, length,
  String, ltb, leb, ◌==◌, if◌then◌else◌, Outcome, ok, err,
}
use durable_infinite_context.Prelude.Dicts.{number_key, pair_key, Dict, get, put}
use durable_infinite_context.Radix.{
  Node, Meta, Fault, root_node_base_page, segment_pages, max_physical_page_id, new_bases, first_or,
  children,
}
use durable_infinite_context.Radix.Disk.{Disk, Format, pwrite, ftruncate}
use durable_infinite_context.Radix.Txn.{
  Txn, reset_operation_state, Step, ◌>>=◌, ◌>>◌, pure, raise, lift, modify, read_node, node_on_walk,
  digits_of, resolve_segment, read_super, open_super,
}

-- Where the walk of a reservation ends: at a segment, or at a node without the entry for a digit.
pub data Descent : Type 0 where
  mapped : ℕ → Descent
  missing : (depth base slot : ℕ) (payload : Node) (digit : ℕ) (rest : List ℕ) → Descent

pub record MappingBatchTrace : Type 0 where
  pub committed_epoch : ℕ
  pub mappings_requested : ℕ
  pub new_segments_allocated : ℕ
  pub physical_pages_appended : ℕ
  pub physical_bytes_appended : ℕ
  pub radix_node_pwrites : ℕ
  pub fsyncs : ℕ
  pub committed_physical_frontier_bytes : ℕ

pub record Snapshot : Type 0 where
  pub committed_epoch : ℕ
  pub root_entry_count : ℕ
  pub committed_physical_frontier_bytes : ℕ
  pub file_size_bytes : ℕ
  pub uncommitted_tail_bytes : ℕ
  pub mappings : Dict ℕ (Option ℕ)

abbrev pub page_size : ℕ
page_size = 4096

unfoldable pub has_number : ℕ → List ℕ → Bool
has_number k [] = false
has_number k (j ∷ l) = k == j || has_number k l

-- `s.add(k)` of a set of numbers
unfoldable pub add_number : ℕ → List ℕ → List ℕ
add_number k l = if has_number k l then l else k ∷ l

unfoldable pub has_duplicates : List ℕ → Bool
has_duplicates [] = false
has_duplicates (k ∷ l) = has_number k l || has_duplicates l

unfoldable pub out_of_namespace : List ℕ → Bool
out_of_namespace [] = false
out_of_namespace (k ∷ l) = leb (2 ^ 64) k || out_of_namespace l

module _ {Page R : Type 0} (f : Format Page R) where
  -- the page, the pending copy of the node, and the count of a write
  abbrev pub stage : ℕ → Node → ℕ → Page → Txn Page → Txn Page
  stage base payload slot page s = record s {
    disk = pwrite f page (base + slot) s.disk;
    pending_nodes = put base payload s.pending_nodes;
    pending_radix_pwrites = s.pending_radix_pwrites + 1;
  }

  abbrev pub set_slot : ℕ → ℕ → Txn Page → Txn Page
  set_slot base slot s = record s { pending_node_slots = put base slot s.pending_node_slots }

  -- the slot that a node is rewritten in: the one it has in this transaction, or the other copy's
  unfoldable pub target_slot : ℕ → ℕ → Option ℕ → Step Page ℕ
  target_slot base committed committed_slot s = elim (get base s.pending_node_slots) [
    | some slot ↦ (ok slot, s)
    | none ↦ elim committed_slot [
      | some slot ↦ (ok (1 - slot), set_slot base (1 - slot) s)
      | none ↦ elim (read_node f s.disk base committed) [
        | err e ↦ (err e, s)
        | ok (n, slot) ↦ (ok (1 - slot), set_slot base (1 - slot) s)
      ]
    ]
  ]

  unfoldable pub write_existing_node : ℕ → ℕ → ℕ → Node → Option ℕ → Step Page Unit
  write_existing_node base committed new_epoch payload committed_slot = do
    slot ← target_slot base committed committed_slot
    page ← lift (λ s. f.encode_node new_epoch payload)
    modify (stage base payload slot page)

  unfoldable pub write_new_node : ℕ → ℕ → Node → Step Page Unit
  write_new_node base new_epoch payload = do
    page ← lift (λ s. f.encode_node new_epoch payload)
    modify (λ s. stage base payload 0 page (set_slot base 0 s))

  unfoldable pub write_children : ℕ → Dict ℕ Node → Step Page Unit
  write_children new_epoch [] = pure tt
  write_children new_epoch ((base, payload) ∷ rest) = do
    write_new_node base new_epoch payload
    write_children new_epoch rest

  -- the walk of `_reserve_fresh_mapping`
  unfoldable pub descend : Txn Page → ℕ → ℕ → List ℕ → ℕ → Outcome Fault Descent
  descend s committed depth [] base = err Fault.fell_through
  descend s committed depth (d ∷ ds) base = elim (node_on_walk f s committed depth base) [
    | err e ↦ err e
    | ok (n, slot) ↦ elim (get d n.entries) [
      | none ↦ ok (Descent.missing depth base slot n d ds)
      | some page ↦ elim ds [
        | [] ↦ ok (Descent.mapped page)
        | e ∷ es ↦ descend s committed (suc depth) ds page
      ]
    ]
  ]

  module _ (failpoint : String → Txn Page → Bool) where
    unfoldable pub probe : String → Step Page Unit
    probe label s = if failpoint label s then (err Fault.injected, s) else (ok tt, s)

    -- the pages of the segment and of its new nodes, and the file's new end
    abbrev pub extend : ℕ → ℕ → ℕ → Txn Page → Txn Page
    extend segment_id segment_base frontier s = record s {
      disk = ftruncate f frontier s.disk;
      pending_allocated_pages = s.pending_allocated_pages + (frontier - segment_base);
      pending_frontier = some frontier;
      pending_new_segments = add_number segment_id s.pending_new_segments;
    }

    abbrev pub note_segment : ℕ → ℕ → Txn Page → Txn Page
    note_segment segment_id base s = record s {
      pending_segments = put segment_id base s.pending_segments;
    }

    abbrev pub cache_segment : ℕ → ℕ → ℕ → Txn Page → Txn Page
    cache_segment new_epoch segment_id base s = record s {
      segment_cache = put (new_epoch, segment_id) (some base) s.segment_cache;
    }

    unfoldable pub allocate :
        ℕ
        → ℕ
        → ℕ
        → ℕ
        → (depth base slot : ℕ) (payload : Node) (digit : ℕ) (rest : List ℕ) → Step Page ℕ
    allocate segment_id committed new_epoch segment_base depth base slot payload digit rest =
        let bases = new_bases (length rest) (segment_base + segment_pages) in
        let frontier = segment_base + segment_pages + 2 * length rest in
        if ltb max_physical_page_id (frontier - 1) then raise Fault.pointer_overflow else do
          modify (extend segment_id segment_base frontier)
          probe "allocated"
          write_children new_epoch (children (suc depth) rest bases segment_base)
          probe "children_written"
          write_existing_node base committed new_epoch
              record {
                depth = depth;
                entries = put digit (first_or bases segment_base) payload.entries;
              }
              (some slot)
          probe "parent_written"
          modify (note_segment segment_id segment_base)
          modify (cache_segment new_epoch segment_id segment_base)
          pure segment_base

    unfoldable pub place : ℕ → ℕ → ℕ → ℕ → Descent → Step Page ℕ
    place segment_id committed new_epoch frontier (Descent.mapped base) = do
      modify (note_segment segment_id base)
      pure base
    place segment_id committed new_epoch frontier
          (Descent.missing depth base slot payload digit rest) =
        allocate segment_id committed new_epoch frontier depth base slot payload digit rest

    -- a mapping that is not yet there, from the frontier on
    abbrev pub reserve_from : ℕ → ℕ → ℕ → Option ℕ → Step Page ℕ
    reserve_from segment_id committed new_epoch none = raise Fault.no_frontier
    reserve_from segment_id committed new_epoch (some frontier) = do
      digits ← lift (λ s. digits_of segment_id)
      end ← lift (λ s. descend s committed 0 digits root_node_base_page)
      place segment_id committed new_epoch frontier end

    unfoldable pub reserve_missing : ℕ → ℕ → ℕ → Step Page ℕ
    reserve_missing segment_id committed new_epoch s =
        reserve_from segment_id committed new_epoch s.pending_frontier s

    abbrev pub reserve_unless : ℕ → ℕ → ℕ → Option ℕ → Step Page ℕ
    reserve_unless segment_id committed new_epoch (some base) = do
      modify (note_segment segment_id base)
      pure base
    reserve_unless segment_id committed new_epoch none =
        reserve_missing segment_id committed new_epoch

    abbrev pub reserve_unnoted : ℕ → ℕ → ℕ → Option ℕ → Step Page ℕ
    reserve_unnoted segment_id committed new_epoch (some base) = pure base
    reserve_unnoted segment_id committed new_epoch none = do
      existing ← resolve_segment f segment_id committed
      reserve_unless segment_id committed new_epoch existing

    unfoldable pub reserve_fresh_mapping : ℕ → ℕ → ℕ → Step Page ℕ
    reserve_fresh_mapping segment_id committed new_epoch s =
        reserve_unnoted segment_id committed new_epoch (get segment_id s.pending_segments) s

    unfoldable pub reserve_all : List ℕ → ℕ → ℕ → Step Page Unit
    reserve_all [] committed new_epoch = pure tt
    reserve_all (segment_id ∷ rest) committed new_epoch = do
      base ← reserve_fresh_mapping segment_id committed new_epoch
      reserve_all rest committed new_epoch

    abbrev pub committed_meta : Option ℕ → Meta R → Meta R
    committed_meta none m = m
    committed_meta (some frontier) m = record m { next_physical_page = frontier }

    unfoldable pub write_super : ℕ → Meta R → Step Page Unit
    write_super new_epoch m = do
      row ← lift (λ s. read_super f s.disk)
      page ← (λ s. (f.encode_super new_epoch (committed_meta s.pending_frontier m), s))
      modify (λ s. record s { disk = pwrite f page (1 - row.2) s.disk })

    -- `int(self._pending_frontier_start or 0)`
    abbrev pub start_of : Option ℕ → ℕ
    start_of none = 0
    start_of (some start) = start

    -- `int(self._pending_frontier or start)`
    abbrev pub end_of : Option ℕ → ℕ → ℕ
    end_of none start = start
    end_of (some end) start = if end == 0 then start else end

    abbrev pub trace_of : ℕ → ℕ → Txn Page → MappingBatchTrace
    trace_of new_epoch requested s =
        let start = start_of s.pending_frontier_start in
        let end = end_of s.pending_frontier start in
        record {
          committed_epoch = new_epoch;
          mappings_requested = requested;
          new_segments_allocated = length s.pending_new_segments;
          physical_pages_appended = end - start;
          physical_bytes_appended = (end - start) * page_size;
          radix_node_pwrites = s.pending_radix_pwrites;
          fsyncs = 2;
          committed_physical_frontier_bytes = end * page_size;
        }

    -- the writes of a batch up to its first sync
    unfoldable pub stage_batch : List ℕ → Step Page (ℕ × Meta R)
    stage_batch requested = do
      modify reset_operation_state
      row ← open_super f
      reserve_all requested row.0 (suc row.0)
      probe "dependencies_synced"
      pure (row.0, row.1)

    unfoldable pub commit_batch : List ℕ → ℕ × Meta R → Step Page MappingBatchTrace
    commit_batch requested (committed, m) = do
      write_super (suc committed) m
      probe "committed"
      λ s. (ok (trace_of (suc committed) (length requested) s), s)

    abbrev pub batch_fault : List ℕ → Option Fault
    batch_fault requested =
        if elim requested [ [] ↦ true | _ ∷ _ ↦ false ]
        then some Fault.no_segments
        else if has_duplicates requested
        then some Fault.duplicate_segments
        else if out_of_namespace requested
        then some Fault.out_of_namespace
        else none

    abbrev pub after_checks : List ℕ → Option Fault → Step Page MappingBatchTrace
    after_checks requested (some fault) = raise fault
    after_checks requested none = do staged ← stage_batch requested; commit_batch requested staged

    unfoldable pub materialize_segment_mappings : List ℕ → Step Page MappingBatchTrace
    materialize_segment_mappings requested = after_checks requested (batch_fault requested)

  -- `mapping_snapshot`, one segment after the other
  unfoldable pub resolve_all : List ℕ → ℕ → Dict ℕ (Option ℕ) → Step Page (Dict ℕ (Option ℕ))
  resolve_all [] committed mappings = pure mappings
  resolve_all (segment_id ∷ rest) committed mappings = do
    found ← resolve_segment f segment_id committed
    resolve_all rest committed (put segment_id found mappings)

  unfoldable pub mapping_snapshot : List ℕ → Step Page Snapshot
  mapping_snapshot requested = do
    modify reset_operation_state
    row ← lift (λ s. read_super f s.disk)
    root ← lift (λ s. read_node f s.disk root_node_base_page row.0)
    mappings ← resolve_all requested row.0 []
    λ s. (
      ok record {
        committed_epoch = row.0;
        root_entry_count = length root.0.entries;
        committed_physical_frontier_bytes = row.1.next_physical_page * page_size;
        file_size_bytes = s.disk.size * page_size;
        uncommitted_tail_bytes = s.disk.size * page_size - row.1.next_physical_page * page_size;
        mappings = mappings;
      },
      s,
    )

  -- `recover`
  unfoldable pub recover : Disk Page → Outcome Fault (Disk Page)
  recover d = elim (read_super f d) [
    | err e ↦ err e
    | ok (epoch, m, slot) ↦
        ok (if ltb m.next_physical_page d.size then ftruncate f m.next_physical_page d else d)
  ]
