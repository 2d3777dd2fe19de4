-- ===== src/Radix/Publication.antt =====
-- A batch that returned: its superblock is written, and readers at the new epoch find its segments.
use durable_infinite_context.Prelude.{
  ℕ, suc, ◌+◌, ◌-◌, ◌*◌, ◌<◌, ◌≤◌, ◌≡◌, ◌⊎◌, inl, inr, ◌^◌, Bool, true, false, Option, none, some,
  List, [], ◌∷◌, String, length, All, ◌==◌, if◌then◌else◌, arith, refl, sym, ap, subst, ◌∙◌,
  some_same, Outcome, ok,
}
use durable_infinite_context.Prelude.Dicts.{number_key, get}
use durable_infinite_context.Radix.{Node, Meta, Fault}
use durable_infinite_context.Radix.Disk.{Disk, Format, IsFormat, node_at, pwrite}
use durable_infinite_context.Radix.Batches.{AllReserved}
use durable_infinite_context.Radix.Commit.{
  Similar, Sound, segments_of, frozen-Similar, reach-Similar, Similar-Tree, page_of, off_super,
  super_frozen, super_next,
}
use durable_infinite_context.Radix.Copies.{frozen}
use durable_infinite_context.Radix.Digits.{length-path}
use durable_infinite_context.Radix.Mapping.{
  MappingBatchTrace, has_number, out_of_namespace, batch_fault, probe, stage_batch, commit_batch,
  write_super, committed_meta, trace_of, materialize_segment_mappings, page_size, end_of, start_of,
  after_checks,
}
use durable_infinite_context.Radix.Pending.{view, path, overlay, Pending}
use durable_infinite_context.Radix.Reservation.{probe_off}
use durable_infinite_context.Radix.Runs.{Ended}
use durable_infinite_context.Radix.Transactions.{
  opened, Safe-Isolated, stage_batch-Ended, Staged, Halted,
}
use durable_infinite_context.Radix.Tree.{reach, Tree}
use durable_infinite_context.Radix.Txn.{Txn, Step, ◌>>=◌, ◌>>◌, lift, modify, run_on, read_super}

module _ {Page R : Type 0} (f : Format Page R) (law : IsFormat f) (s : Txn Page) (epoch : ℕ)
    (m : Meta R) (slot : ℕ) (sound : Sound f s.disk epoch m slot) (epochs : suc epoch < 2 ^ 64)
    (failpoint : String → Txn Page → Bool) where
  abbrev begin : ℕ
  begin = m.next_physical_page

  -- the superblock of a frontier
  abbrev pub next_meta : ℕ → Meta R
  next_meta frontier = record m { next_physical_page = frontier }

  module _ (t : Txn Page) (later : ℕ) (requested : List ℕ)
      (done : AllReserved f law s.disk epoch begin sound.room sound.tail epochs failpoint
        (opened f law s epoch m slot sound epochs failpoint)
        t
        begin
        later
        requested)
      (page : Page) (coded : f.encode_super (suc epoch) (next_meta later) ≡ ok page) where
    abbrev pub final : Disk Page
    final = pwrite f page (1 - slot) t.disk

    ready : Pending f s.disk epoch begin t later
    ready = done.ready

    same_view : frozen f final (suc epoch) later ≡ frozen f t.disk (suc epoch) later
    same_view = super_frozen f law page (1 - slot) (suc epoch) later t.disk (omega arith)

    similar : Similar (view f s.disk epoch begin t) (frozen f t.disk (suc epoch) later)
    similar =
        frozen-Similar f s.disk epoch begin t.disk t.pending_nodes t.pending_node_slots later
          ready.safe sound.clean ready.tree

    final_segments :
        (q : ℕ)
        → segments_of f final (suc epoch) later q ≡ reach (view f s.disk epoch begin t) (path q)
    unfolding segments_of
    final_segments q =
        ap (λ v. reach v (path q)) same_view
        ∙ reach-Similar (view f s.disk epoch begin t) (frozen f t.disk (suc epoch) later) later
            ready.tree similar (path q) (let l : length (path q) ≡ 8 = length-path q in omega arith)

    final_page :
        (i : ℕ)
        → 2 ≤ i
        → (node_at f final i ≡ node_at f s.disk i)
          ⊎ ((i < later) × ((n : Node) × (node_at f final i ≡ some (suc epoch, n))))
    final_page i low =
        let off : node_at f final i ≡ node_at f t.disk i =
          off_super f law page (1 - slot) t.disk i (omega arith) low in
        elim (page_of f s.disk epoch begin t.disk t.pending_nodes t.pending_node_slots later
          ready.safe i low) [
            | inl same ↦ inl (off ∙ same)
            | inr (lt, (n, new)) ↦ inr (lt, (n, off ∙ new))
          ]

    -- The store is at rest again, one epoch later.
    pub final-Sound : Sound f final (suc epoch) (next_meta later) (1 - slot)
    final-Sound =
        let begun : begin ≤ later = done.grown in
        let room : 4 ≤ begin = sound.room in
        let read : read_super f t.disk ≡ ok (epoch, m, slot) =
          (Safe-Isolated f law s epoch m slot sound epochs failpoint t later ready.safe).super in
        record {
          super = super_next f law page t.disk epoch slot m (next_meta later) read coded;
          room = omega arith;
          even = ready.even;
          tail = λ i le. elim (final_page i (omega arith)) [
            | inl same ↦ same ∙ sound.tail i (omega arith)
            | inr (lt, new) ↦ absurd (omega arith)
          ];
          clean = λ i e n low is. elim (final_page i low) [
            | inl same ↦ let le : e ≤ epoch = sound.clean i e n low (sym same ∙ is) in omega arith
            | inr (lt, (n', new)) ↦
                let both : (suc epoch, n') ≡ (e, n) = some_same (sym new ∙ is) in
                let eq : suc epoch ≡ e = ap (λ x. x.0) both in omega arith
          ];
          tree =
              subst (λ v. Tree v later) (sym same_view)
                (Similar-Tree (view f s.disk epoch begin t) (frozen f t.disk (suc epoch) later)
                  later ready.tree similar);
        }

  -- What a batch that returned has done: the store is at rest one epoch later, each requested segment is
  -- mapped, and every other id of the namespace is mapped as before.
  pub record Committed (requested : List ℕ) (trace : MappingBatchTrace) (u : Txn Page)
      : Type 0 where
    pub later : ℕ
    pub grown : begin ≤ later
    pub bounded : later ≤ begin + 46 * length requested
    pub at_rest : Sound f u.disk (suc epoch) (next_meta later) (1 - slot)
    pub trace_epoch : trace.committed_epoch ≡ suc epoch
    pub trace_frontier : trace.committed_physical_frontier_bytes ≡ later * page_size
    pub mapped :
        (q : ℕ)
        → q < 2 ^ 64
        → has_number q requested ≡ true
        → (b : ℕ) × (segments_of f u.disk (suc epoch) later q ≡ some b)
    pub kept :
        (q b : ℕ)
        → q < 2 ^ 64
        → segments_of f s.disk epoch begin q ≡ some b
        → segments_of f u.disk (suc epoch) later q ≡ some b
    pub others :
        (q : ℕ)
        → q < 2 ^ 64
        → has_number q requested ≡ false
        → segments_of f u.disk (suc epoch) later q ≡ segments_of f s.disk epoch begin q

  words_of :
      (requested : List ℕ) → out_of_namespace requested ≡ false → All (λ q. q < 2 ^ 64) requested
  unfolding out_of_namespace
  words_of [] fine = tt
  words_of (q ∷ requested) fine = (ground arith, words_of requested (ground arith))

  abbrev Never : Type 0
  Never = (label : String) (t : Txn Page) → failpoint label t ≡ false

  pub never_halts :
      (requested : List ℕ) (bound : ℕ) (o : Outcome Fault (ℕ × Meta R) × Txn Page)
      → Never
      → bound ≤ 2 ^ 64
      → Ended
          (λ row t.
            (row ≡ (epoch, m)) × Staged f law s epoch m slot sound epochs failpoint requested t)
          (Halted f law s epoch m slot sound epochs failpoint bound)
          o
      → (t : Txn Page) × (o ≡ (ok (epoch, m), t))
        × Staged f law s epoch m slot sound epochs failpoint requested t
  never_halts requested bound _ never le (Ended.returned row t (is, staged)) =
      (t, ap (λ r. (ok r, t)) is, staged)
  never_halts requested bound _ never le (Ended.raised e t (inl (is, (label, u, hit)), held)) =
      let off : failpoint label u ≡ false = never label u in cc
  never_halts requested bound _ never le (Ended.raised e t (inr (is, over), held)) =
      absurd (omega arith)

  -- the state once the superblock is written
  abbrev published : Page → Txn Page → Txn Page
  published page t = record t { disk = pwrite f page (1 - slot) t.disk }

  write_super_run :
      (t : Txn Page) (later : ℕ) (page : Page)
      → read_super f t.disk ≡ ok (epoch, m, slot)
      → t.pending_frontier ≡ some later
      → f.encode_super (suc epoch) (next_meta later) ≡ ok page
      → write_super f failpoint (suc epoch) m t ≡ (ok tt, published page t)
  unfolding write_super
  write_super_run t later page read at coded =
      let code : ℕ × Meta R × ℕ → Step Page Unit = λ row.
        (λ u. (f.encode_super (suc epoch) (committed_meta f failpoint u.pending_frontier m), u))
        >>= λ page. modify (λ u. record u { disk = pwrite f page (1 - row.2) u.disk }) in
      let coded' : f.encode_super (suc epoch) (committed_meta f failpoint t.pending_frontier m)
          ≡ ok page =
        ap (λ o. f.encode_super (suc epoch) (committed_meta f failpoint o m)) at ∙ coded in
      run_on (lift (λ u. read_super f u.disk)) code t t (epoch, m, slot) (ap (λ o. (o, t)) read)
      ∙ run_on
          (λ u. (f.encode_super (suc epoch) (committed_meta f failpoint u.pending_frontier m), u))
          (λ page. modify (λ u. record u { disk = pwrite f page (1 - slot) u.disk })) t t page
          (ap (λ o. (o, t)) coded')

  abbrev base_segments : ℕ → Option ℕ
  base_segments = segments_of f s.disk epoch begin

  frontier_bytes :
      (t : Txn Page) (later : ℕ)
      → t.pending_frontier ≡ some later
      → 0 < later
      → end_of f failpoint t.pending_frontier (start_of f failpoint t.pending_frontier_start)
          * page_size
        ≡ later * page_size
  frontier_bytes t later at pos =
      let begun : ℕ = start_of f failpoint t.pending_frontier_start in
      let test : (later == 0) ≡ false = ground arith in
      ap (λ o. end_of f failpoint o begun * page_size) at
      ∙ ap (λ c. (if c then begun else later) * page_size) test

  batch_words :
      (requested : List ℕ)
      → batch_fault f failpoint requested ≡ none
      → out_of_namespace requested ≡ false
  batch_words [] fine = cc
  batch_words (q ∷ requested) fine = ground arith

  -- the trace of a batch
  abbrev finish : List ℕ → Step Page MappingBatchTrace
  finish requested u = (ok (trace_of f failpoint (suc epoch) (length requested) u), u)

  published-Committed :
      (requested : List ℕ) (t : Txn Page) (later : ℕ) (page : Page)
      → AllReserved f law s.disk epoch begin sound.room sound.tail epochs failpoint
          (opened f law s epoch m slot sound epochs failpoint)
          t
          begin
          later
          requested
      → f.encode_super (suc epoch) (next_meta later) ≡ ok page
      → Committed requested
          (trace_of f failpoint (suc epoch) (length requested) (published page t))
          (published page t)
  unfolding segments_of overlay get
  published-Committed requested t later page done coded =
      let finals : (q : ℕ)
          → segments_of f (final t later requested done page coded) (suc epoch) later q
            ≡ reach (view f s.disk epoch begin t) (path q) =
        final_segments t later requested done page coded in
      record {
        later = later;
        grown = done.grown;
        bounded = done.bounded;
        at_rest = final-Sound t later requested done page coded;
        trace_epoch = refl;
        trace_frontier =
            frontier_bytes t later (done.front)
              (let le = done.grown in let low = sound.room in omega arith);
        mapped = λ q word has. let (b, there) = done.here q word has in (b, finals q ∙ there);
        kept = λ q b word there. finals q ∙ done.kept q b word there;
        others = λ q word off. finals q ∙ done.others q word off;
      }

  -- From a store at rest below epoch 2^64 - 1, with no failpoint, room for 46 pages for each id below
  -- 2^64 and superblocks that fit: a batch of distinct ids of the namespace returns. The store is then at
  -- rest one epoch later, the trace has that epoch and the new frontier, every requested id is mapped, a
  -- mapped id keeps its pages, and an id that was not requested is mapped as before.
  pub materialize_segment_mappings-Committed :
      (requested : List ℕ)
      → batch_fault f failpoint requested ≡ none
      → begin + 46 * length requested ≤ 2 ^ 64
      → ((label : String) (t : Txn Page) → failpoint label t ≡ false)
      → ((frontier : ℕ)
          → begin ≤ frontier
          → frontier ≤ begin + 46 * length requested
          → (page : Page) × (f.encode_super (suc epoch) (next_meta frontier) ≡ ok page))
      → (trace : MappingBatchTrace) × (u : Txn Page) × (materialize_segment_mappings f failpoint
            requested s
          ≡ (ok trace, u))
        × Committed requested trace u
  unfolding materialize_segment_mappings commit_batch
  materialize_segment_mappings-Committed requested fine range never supers =
      let (t, staged_run, staged) =
        never_halts requested (begin + 46 * length requested) (stage_batch f failpoint requested s)
          never range
          (stage_batch-Ended f law s epoch m slot sound epochs failpoint requested
            (words_of requested (batch_words requested fine))) in
      let (later, done) = staged in
      let (page, coded) = supers later done.grown done.bounded in
      let u : Txn Page = published page t in
      let trace : MappingBatchTrace = trace_of f failpoint (suc epoch) (length requested) u in
      let read : read_super f t.disk ≡ ok (epoch, m, slot) =
        (Safe-Isolated f law s epoch m slot sound epochs failpoint t later done.ready.safe).super in
      (
        trace,
        u,
        ap (λ o. after_checks f failpoint requested o s) fine
            ∙ run_on (stage_batch f failpoint requested) (commit_batch f failpoint requested) s t
                (epoch, m) staged_run
            ∙ run_on (write_super f failpoint (suc epoch) m)
                (λ _. probe f failpoint "committed" >> finish requested) t u tt
                (write_super_run t later page read done.front coded)
            ∙ run_on (probe f failpoint "committed") (λ _. finish requested) u u tt
                (probe_off f law s.disk epoch begin sound.room sound.tail epochs failpoint
                  "committed" u (never "committed" u)),
        published-Committed requested t later page done coded,
      )
