-- ===== src/Radix/Snapshots.antt =====
-- `mapping_snapshot` of a store at rest: it answers for each id what the tree of the committed copies holds.
use durable_infinite_context.Prelude.{
  ℕ, ◌-◌, ◌*◌, ◌<◌, ◌≡◌, ◌^◌, Bool, true, false, ◌||◌, Option, none, some, List, [], ◌∷◌, length,
  All, ◌==◌, if◌then◌else◌, arith, refl, sym, ap, ◌∙◌, ok,
}
use native.Mathlib.Decide.{ℕ_discrete}
use durable_infinite_context.Prelude.Dicts.{
  number_key, pair_key, Dict, get, put, get-put_same, get-put_other,
}
use durable_infinite_context.Radix.{Node, Meta, root_node_base_page}
use durable_infinite_context.Radix.Disk.{Disk, Format}
use durable_infinite_context.Radix.Commit.{Sound, segments_of}
use durable_infinite_context.Radix.Copies.{Copies, frozen}
use durable_infinite_context.Radix.Mapping.{
  Snapshot, has_number, resolve_all, mapping_snapshot, page_size,
}
use durable_infinite_context.Radix.Pending.{frozen-some, view, path, overlay, Pending}
use durable_infinite_context.Radix.Resolution.{resolve_segment-Resolved}
use durable_infinite_context.Radix.Tree.{reach, Tree}
use durable_infinite_context.Radix.Txn.{
  Txn, Step, ◌>>=◌, lift, run_on, read_node, read_super, payload, resolve_segment,
  reset_operation_state,
}

either :
    {A : Type 0} (a b : Bool) (x y : A)
    → (if a then x else if b then x else y) ≡ (if b || a then x else y)
either true true x y = refl
either true false x y = refl
either false true x y = refl
either false false x y = refl

module _ {Page R : Type 0} (f : Format Page R) (before : Disk Page) (committed start : ℕ) where
  abbrev stored : ℕ → Option ℕ
  stored q = reach (frozen f before committed start) (path q)

  abbrev Answers : List ℕ → Dict ℕ (Option ℕ) → Dict ℕ (Option ℕ) → Type 0
  Answers requested old new =
      (q : ℕ) → get q new ≡ (if has_number q requested then some (stored q) else get q old)

  bare_view :
      (s : Txn Page) (q : ℕ)
      → s.pending_nodes ≡ []
      → reach (view f before committed start s) (path q) ≡ stored q
  unfolding overlay get
  bare_view s q bare =
      ap (λ nodes. reach (overlay nodes (frozen f before committed start)) (path q)) bare

  one_more :
      (r : ℕ) (rest : List ℕ) (found : Option ℕ) (old new : Dict ℕ (Option ℕ))
      → found ≡ stored r
      → Answers rest (put r found old) new
      → Answers (r ∷ rest) old new
  unfolding has_number
  one_more r rest found old new is answers q =
      let key : get q (put r found old) ≡ (if q == r then some (stored q) else get q old) =
        elim (ℕ_discrete q r) [
          | yes same ↦
              let test : (q == r) ≡ true = ground arith in
              ap (λ k. get k (put r found old)) same
              ∙ get-put_same r found old
              ∙ ap some (is ∙ ap stored (sym same))
              ∙ sym (ap (λ c. if c then some (stored q) else get q old) test)
          | no other ↦
              let test : (q == r) ≡ false = ground arith in
              get-put_other q r found old other
              ∙ sym (ap (λ c. if c then some (stored q) else get q old) test)
        ] in
      answers q
      ∙ ap (λ o. if has_number q rest then some (stored q) else o) key
      ∙ either (has_number q rest) (q == r) (some (stored q)) (get q old)

  resolve_all-Answers :
      (requested : List ℕ) (s : Txn Page) (frontier : ℕ) (old : Dict ℕ (Option ℕ))
      → Pending f before committed start s frontier
      → s.pending_nodes ≡ []
      → All (λ q. q < 2 ^ 64) requested
      → (new : Dict ℕ (Option ℕ)) × (u : Txn Page) × (resolve_all f requested committed old s
          ≡ (ok new, u))
        × (u.disk ≡ s.disk)
        × Answers requested old new
  unfolding resolve_all has_number
  resolve_all-Answers [] s frontier old inv bare words = (old, s, refl, refl, λ q. refl)
  resolve_all-Answers (r ∷ rest) s frontier old inv bare (word, words) =
      let (found, c, one) =
        resolve_segment-Resolved f before committed start s frontier r inv word in
      let t : Txn Page = record s { segment_cache = c } in
      let (new, u, run, disk, answers) =
        resolve_all-Answers rest t frontier (put r found old) one.ready bare words in
      (
        new,
        u,
        run_on (resolve_segment f r committed) (λ o. resolve_all f rest committed (put r o old)) s t
              found one.run
            ∙ run,
        disk,
        one_more r rest found old new (one.is ∙ bare_view s r bare) answers,
      )

module _ {Page R : Type 0} (f : Format Page R) (s : Txn Page) (epoch : ℕ) (m : Meta R) (slot : ℕ)
    (sound : Sound f s.disk epoch m slot) where
  abbrev rested : Txn Page
  rested = record {
    disk = s.disk;
    pending_nodes = [];
    pending_node_slots = [];
    pending_segments = [];
    pending_new_segments = [];
    pending_frontier_start = none;
    pending_frontier = none;
    pending_allocated_pages = 0;
    pending_radix_pwrites = 0;
    segment_cache = [];
  }

  rested-Pending : Pending f s.disk epoch m.next_physical_page rested m.next_physical_page
  unfolding get overlay
  rested-Pending = record {
    even = sound.even;
    safe = record {
      from = omega arith;
      copies = λ b halves low. Copies.kept record { first = refl; second = refl };
      unique = λ b n has. cc;
      super = refl;
      super' = refl;
    };
    tree = sound.tree;
    segments = λ q b has. cc;
    cache = λ q o empty has. cc;
  }

  root_read : (n : Node) × (k : ℕ) × (read_node f s.disk root_node_base_page epoch ≡ ok (n, k))
  unfolding reach
  root_read =
      let t : Tree (frozen f s.disk epoch m.next_physical_page) m.next_physical_page = sound.tree in
      let (n, is, depth) = t.node [] root_node_base_page (omega arith) refl in
      let (below, (e, k, found)) =
        frozen-some f s.disk epoch m.next_physical_page root_node_base_page n is in
      (n, k, ap (payload f) found)

  -- the snapshot of what was read
  abbrev summed : ℕ × Meta R × ℕ → Node × ℕ → Dict ℕ (Option ℕ) → Txn Page → Snapshot
  summed row root mappings u = record {
    committed_epoch = row.0;
    root_entry_count = length root.0.entries;
    committed_physical_frontier_bytes = row.1.next_physical_page * page_size;
    file_size_bytes = u.disk.size * page_size;
    uncommitted_tail_bytes = u.disk.size * page_size - row.1.next_physical_page * page_size;
    mappings = mappings;
  }

  -- From a store at rest: a snapshot of ids of the namespace returns and leaves the disk alone. It has the
  -- committed epoch and frontier, and for each id that was asked for, and for no other, what the tree of
  -- the committed copies maps it to.
  pub mapping_snapshot_answers :
      (requested : List ℕ)
      → All (λ q. q < 2 ^ 64) requested
      → (snapshot : Snapshot) × (u : Txn Page) × (mapping_snapshot f requested s ≡ (ok snapshot, u))
        × (u.disk ≡ s.disk)
        × (snapshot.committed_epoch ≡ epoch)
        × (snapshot.committed_physical_frontier_bytes ≡ m.next_physical_page * page_size)
        × ((q : ℕ)
            → get q snapshot.mappings ≡ (
                if has_number q requested
                then some (segments_of f s.disk epoch m.next_physical_page q)
                else none))
  unfolding mapping_snapshot reset_operation_state segments_of get
  mapping_snapshot_answers requested words =
      let (n, k, root) = root_read in
      let (new, u, run, disk, answers) =
        resolve_all-Answers f s.disk epoch m.next_physical_page requested rested
          m.next_physical_page [] rested-Pending refl words in
      let row : ℕ × Meta R × ℕ = (epoch, m, slot) in
      let with_root : ℕ × Meta R × ℕ → Node × ℕ → Step Page Snapshot = λ row root.
        resolve_all f requested row.0 [] >>= (λ new u. (ok (summed row root new u), u)) in
      let with_row : ℕ × Meta R × ℕ → Step Page Snapshot =
        λ row. lift (λ t. read_node f t.disk root_node_base_page row.0) >>= with_root row in
      (
        summed row (n, k) new u,
        u,
        run_on (lift (λ t. read_super f t.disk)) with_row rested rested row
              (ap (λ o. (o, rested)) sound.super)
            ∙ run_on (lift (λ t. read_node f t.disk root_node_base_page epoch)) (with_root row)
                rested rested (n, k) (ap (λ o. (o, rested)) root)
            ∙ run_on (resolve_all f requested epoch []) (λ new u. (ok (summed row (n, k) new u), u))
                rested u new run,
        disk,
        refl,
        refl,
        answers,
      )
