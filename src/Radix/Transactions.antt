-- ===== src/Radix/Transactions.antt =====
-- `materialize_segment_mappings` as a whole: what a reader finds while it runs, where it stops, and after
-- it returned.
use durable_infinite_context.Prelude.{
  ℕ, suc, ◌+◌, ◌*◌, ◌<◌, ◌≡◌, ◌^◌, Bool, some, List, [], String, length, All, arith, refl, sym, ap,
  subst, ◌∙◌, Outcome, ok,
}
use durable_infinite_context.Prelude.Dicts.{number_key, pair_key, get}
use durable_infinite_context.Radix.{Meta, Fault}
use durable_infinite_context.Radix.Disk.{Disk, Format, IsFormat, super_at}
use durable_infinite_context.Radix.Batches.{AllReserved, StoppedAt, reserve_all-Ended}
use durable_infinite_context.Radix.Commit.{Sound, segments_of, frozen-Safe}
use durable_infinite_context.Radix.Copies.{Copies}
use durable_infinite_context.Radix.Mapping.{reserve_all, probe, stage_batch}
use durable_infinite_context.Radix.Pending.{path, overlay, Pending}
use durable_infinite_context.Radix.Reservation.{probe_on}
use durable_infinite_context.Radix.Runs.{Ended, chain}
use durable_infinite_context.Radix.Safety.{Safe}
use durable_infinite_context.Radix.Tree.{reach}
use durable_infinite_context.Radix.Txn.{
  Txn, Step, ◌>>=◌, ◌>>◌, lift, modify, pure, run_on, reset_operation_state, newest, or_raise,
  read_super, open_super, adopt,
}

module _ {Page R : Type 0} (f : Format Page R) (law : IsFormat f) (s : Txn Page) (epoch : ℕ)
    (m : Meta R) (slot : ℕ) (sound : Sound f s.disk epoch m slot) (epochs : suc epoch < 2 ^ 64)
    (failpoint : String → Txn Page → Bool) where
  abbrev start : ℕ
  start = m.next_physical_page

  -- the state once the superblock is read
  abbrev pub opened : Txn Page
  opened = record {
    disk = s.disk;
    pending_nodes = [];
    pending_node_slots = [];
    pending_segments = [];
    pending_new_segments = [];
    pending_frontier_start = some start;
    pending_frontier = some start;
    pending_allocated_pages = 0;
    pending_radix_pwrites = 0;
    segment_cache = [];
  }

  open_run : open_super f (reset_operation_state s) ≡ (ok (epoch, m, slot), opened)
  unfolding open_super reset_operation_state
  open_run =
      run_on (lift (λ t. read_super f t.disk)) (λ row. modify (adopt f row.1) >> pure row)
        (reset_operation_state s) (reset_operation_state s) (epoch, m, slot)
        (ap (λ o. (o, reset_operation_state s)) sound.super)

  opened_Safe : Safe f s.disk epoch start s.disk [] [] start
  unfolding get
  opened_Safe = record {
    from = omega arith;
    copies = λ b halves low. Copies.kept record { first = refl; second = refl };
    unique = λ b n has. cc;
    super = refl;
    super' = refl;
  }

  opened-Pending : Pending f s.disk epoch start opened start
  unfolding get overlay
  opened-Pending = record {
    even = sound.even;
    safe = opened_Safe;
    tree = sound.tree;
    segments = λ q b has. cc;
    cache = λ q o empty has. cc;
  }

  -- What holds once all reservations are made.
  abbrev pub Staged : List ℕ → Txn Page → Type 0
  Staged requested t =
      (later : ℕ) × AllReserved f law s.disk epoch start sound.room sound.tail epochs failpoint
        opened t start later requested

  abbrev pub Halted : ℕ → Fault → Txn Page → Type 0
  Halted = StoppedAt f law s.disk epoch start sound.room sound.tail epochs failpoint

  pub stage_batch-Ended :
      (requested : List ℕ)
      → All (λ q. q < 2 ^ 64) requested
      → Ended
          (λ row t. (row ≡ (epoch, m)) × Staged requested t)
          (Halted (start + 46 * length requested))
          (stage_batch f failpoint requested s)
  unfolding stage_batch
  stage_batch-Ended requested words =
      let bound : ℕ = start + 46 * length requested in
      let Good : ℕ × Meta R → Txn Page → Type 0 =
        λ row t. (row ≡ (epoch, m)) × Staged requested t in
      let settle : Step Page (ℕ × Meta R) = pure (epoch, m) in
      let synced : Step Page (ℕ × Meta R) = probe f failpoint "dependencies_synced" >> settle in
      let reserve : Step Page Unit = reserve_all f failpoint requested epoch (suc epoch) in
      let body : ℕ × Meta R × ℕ → Step Page (ℕ × Meta R) = λ row.
        reserve_all f failpoint requested row.0 (suc row.0)
        >> (probe f failpoint "dependencies_synced" >> pure (row.0, row.1)) in
      let run : (open_super f >>= body) (reset_operation_state s) ≡ (reserve >> synced) opened =
        run_on (open_super f) body (reset_operation_state s) opened (epoch, m, slot) open_run in
      subst (Ended Good (Halted bound)) (sym run) (
        chain (λ _ t. Staged requested t) (Halted bound) Good reserve (λ _. synced) opened
          (reserve_all-Ended f law s.disk epoch start sound.room sound.tail epochs failpoint
            requested opened start bound opened-Pending refl words (omega arith))
          (λ _ t staged.
            probe_on f law s.disk epoch start sound.room sound.tail epochs failpoint Good
              "dependencies_synced" settle t staged.0 bound staged.1.ready.safe
              (Ended.returned (epoch, m) t (refl, staged))))

  -- Readers find what they found.
  pub record Isolated (d : Disk Page) : Type 0 where
    pub super : read_super f d ≡ ok (epoch, m, slot)
    pub segments : (q : ℕ) → segments_of f d epoch start q ≡ segments_of f s.disk epoch start q

  pub Safe-Isolated :
      (t : Txn Page) (frontier : ℕ)
      → Safe f s.disk epoch start t.disk t.pending_nodes t.pending_node_slots frontier
      → Isolated t.disk
  unfolding segments_of
  Safe-Isolated t frontier safe = record {
    super =
        ap (λ c. or_raise Fault.no_valid_super (newest c (super_at f t.disk 1))) safe.super
        ∙ ap (λ c. or_raise Fault.no_valid_super (newest (super_at f s.disk 0) c)) safe.super'
        ∙ sound.super;
    segments = λ q.
        ap (λ v. reach v (path q))
          (frozen-Safe f s.disk epoch start t.disk t.pending_nodes t.pending_node_slots frontier
            safe);
  }

  Isolated-end :
      (requested : List ℕ) (bound : ℕ) (o : Outcome Fault (ℕ × Meta R) × Txn Page)
      → Ended (λ row t. (row ≡ (epoch, m)) × Staged requested t) (Halted bound) o
      → Isolated o.1.disk
  Isolated-end requested bound _ (Ended.returned row t (is, staged)) =
      Safe-Isolated t staged.0 staged.1.ready.safe
  Isolated-end requested bound _ (Ended.raised e t (cause, (frontier, safe))) =
      Safe-Isolated t frontier safe

  pub stage_batch-Isolated :
      (requested : List ℕ)
      → All (λ q. q < 2 ^ 64) requested
      → Isolated (stage_batch f failpoint requested s).1.disk
  stage_batch-Isolated requested words =
      Isolated-end requested (start + 46 * length requested) (stage_batch f failpoint requested s)
        (stage_batch-Ended requested words)
