-- ===== src/Radix/Recovery.antt =====
-- `recover` after a transaction that stopped before its superblock: the tail is cut off, the map is the
-- committed one, and what the stopped transaction wrote to older nodes stays on the disk.
use durable_infinite_context.Prelude.{
  ℕ, suc, ◌+◌, ◌*◌, ◌%◌, ◌<◌, ◌≤◌, ◌≡◌, inl, inr, ◌^◌, Bool, false, none, some, List, String,
  length, All, ltb, if◌then◌else◌, arith, sym, ap, ◌∙◌, Bool-cases, Outcome, ok, err,
}
use durable_infinite_context.Prelude.Dicts.{number_key, get}
use durable_infinite_context.Radix.{Node, Meta, Fault}
use durable_infinite_context.Radix.Disk.{
  Disk, Format, IsFormat, Same, node_at, pread, ftruncate, node_at-ftruncate, node_at-past,
  super_at, super_at-ftruncate,
}
use durable_infinite_context.Radix.Commit.{Sound, segments_of, Copies-next}
use durable_infinite_context.Radix.Copies.{inner, newest_node, frozen}
use durable_infinite_context.Radix.Mapping.{recover, stage_batch}
use durable_infinite_context.Radix.Pending.{path, covered}
use durable_infinite_context.Radix.Runs.{Ended}
use durable_infinite_context.Radix.Safety.{Safe}
use durable_infinite_context.Radix.Transactions.{
  Isolated, Safe-Isolated, Staged, Halted, stage_batch-Ended, stage_batch-Isolated,
}
use durable_infinite_context.Radix.Tree.{reach}
use durable_infinite_context.Radix.Txn.{Txn, newest, visible, latest, or_raise, read_super}

module _ {Page R : Type 0} (f : Format Page R) (law : IsFormat f) where
  -- the disk as `recover` leaves it
  abbrev cut : ℕ → Disk Page → Disk Page
  cut frontier d = if ltb frontier d.size then ftruncate f frontier d else d

  cut_page :
      (frontier : ℕ) (d : Disk Page) (i : ℕ)
      → i < frontier
      → node_at f (cut frontier d) i ≡ node_at f d i
  cut_page frontier d i lt = elim (Bool-cases (ltb frontier d.size)) [
    | inl t ↦
        ap (λ c. node_at f (if c then ftruncate f frontier d else d) i) t
        ∙ node_at-ftruncate f frontier d i law lt
    | inr t ↦ ap (λ c. node_at f (if c then ftruncate f frontier d else d) i) t
  ]

  cut_super :
      (frontier : ℕ) (d : Disk Page) (i : ℕ)
      → i < frontier
      → super_at f (cut frontier d) i ≡ super_at f d i
  cut_super frontier d i lt = elim (Bool-cases (ltb frontier d.size)) [
    | inl t ↦
        ap (λ c. super_at f (if c then ftruncate f frontier d else d) i) t
        ∙ super_at-ftruncate f frontier d i law lt
    | inr t ↦ ap (λ c. super_at f (if c then ftruncate f frontier d else d) i) t
  ]

  past_end : (d : Disk Page) (i : ℕ) → d.size ≤ i → node_at f d i ≡ none
  unfolding pread
  past_end d i le =
      let test : ltb i d.size ≡ false = ground arith in
      ap (λ c. f.decode_node (if c then d.pages i else f.missing)) test ∙ law.missing

  cut_tail :
      (frontier : ℕ) (d : Disk Page) (i : ℕ) → frontier ≤ i → node_at f (cut frontier d) i ≡ none
  cut_tail frontier d i le = elim (Bool-cases (ltb frontier d.size)) [
    | inl t ↦
        ap (λ c. node_at f (if c then ftruncate f frontier d else d) i) t
        ∙ node_at-past f frontier d i law le
    | inr t ↦
        let short : d.size ≤ frontier = ground arith in
        ap (λ c. node_at f (if c then ftruncate f frontier d else d) i) t
        ∙ past_end d i (omega arith)
  ]

  cut-frozen_at :
      (epoch frontier : ℕ) (d : Disk Page) (b : ℕ)
      → frozen f (cut frontier d) epoch frontier b ≡ frozen f d epoch frontier b
  unfolding frozen latest
  cut-frozen_at epoch frontier d b = elim (Bool-cases (inner frontier b)) [
    | inl t ↦
        let below : b + 2 ≤ frontier = ground arith in
        ap
          (λ c.
            if inner frontier b
            then newest_node
                (newest (visible epoch c) (visible epoch (node_at f (cut frontier d) (b + 1))))
            else none)
          (cut_page frontier d b (omega arith))
        ∙ ap
            (λ c.
              if inner frontier b
              then newest_node (newest (visible epoch (node_at f d b)) (visible epoch c))
              else none)
            (cut_page frontier d (b + 1) (omega arith))
    | inr t ↦
        ap (λ c. if c then newest_node (latest f (cut frontier d) b epoch) else none) t
        ∙ sym (ap (λ c. if c then newest_node (latest f d b epoch) else none) t)
  ]

  frozen-cut :
      (epoch frontier : ℕ) (d : Disk Page)
      → frozen f (cut frontier d) epoch frontier ≡ frozen f d epoch frontier
  frozen-cut epoch frontier d = λ i b. cut-frozen_at epoch frontier d b i

module _ {Page R : Type 0} (f : Format Page R) (law : IsFormat f) (s : Txn Page) (epoch : ℕ)
    (m : Meta R) (slot : ℕ) (sound : Sound f s.disk epoch m slot) (epochs : suc epoch < 2 ^ 64)
    (failpoint : String → Txn Page → Bool) where
  abbrev begin : ℕ
  begin = m.next_physical_page

  -- A disk that was recovered: the committed superblock and map, and nothing past the frontier.
  pub record Recovered (d : Disk Page) : Type 0 where
    pub super : read_super f d ≡ ok (epoch, m, slot)
    pub segments : (q : ℕ) → segments_of f d epoch begin q ≡ segments_of f s.disk epoch begin q
    pub tail : (i : ℕ) → begin ≤ i → node_at f d i ≡ none

  recover-Recovered :
      (t : Txn Page)
      → Isolated f law s epoch m slot sound epochs failpoint t.disk
      → (d : Disk Page) × (recover f t.disk ≡ ok d) × Recovered d
  unfolding recover segments_of
  recover-Recovered t isolated =
      let room : 4 ≤ begin = sound.room in
      (
        cut f law begin t.disk,
        ap
            (λ o. elim o [
              | err e ↦ err e
              | ok (e, m', k) ↦ ok (
                  if ltb m'.next_physical_page t.disk.size
                  then ftruncate f m'.next_physical_page t.disk
                  else t.disk)
            ])
            isolated.super,
        record {
          super =
              ap
                (λ c.
                  or_raise Fault.no_valid_super (newest c (super_at f (cut f law begin t.disk) 1)))
                (cut_super f law begin t.disk 0 (omega arith))
              ∙ ap (λ c. or_raise Fault.no_valid_super (newest (super_at f t.disk 0) c))
                  (cut_super f law begin t.disk 1 (omega arith))
              ∙ isolated.super;
          segments = λ q.
              ap (λ v. reach v (path q)) (frozen-cut f law epoch begin t.disk)
              ∙ isolated.segments q;
          tail = cut_tail f law begin t.disk;
        },
      )

  recovered_is :
      (t : Txn Page) (d : Disk Page)
      → read_super f t.disk ≡ ok (epoch, m, slot)
      → recover f t.disk ≡ ok d
      → d ≡ cut f law begin t.disk
  unfolding recover
  recovered_is t d read run =
      let code : Outcome Fault (ℕ × Meta R × ℕ) → Outcome Fault (Disk Page) = λ o. elim o [
        | err e ↦ err e
        | ok (e, m', k) ↦ ok (
            if ltb m'.next_physical_page t.disk.size
            then ftruncate f m'.next_physical_page t.disk
            else t.disk)
      ] in
      let both : ok d ≡ ok (cut f law begin t.disk) = sym run ∙ ap code read in
      ap (λ o. elim o [ ok x ↦ x | err e ↦ t.disk ]) both

  stopped_recovers :
      (requested : List ℕ) (bound : ℕ) (o : Outcome Fault (ℕ × Meta R) × Txn Page)
      → Ended
          (λ row t.
            (row ≡ (epoch, m)) × Staged f law s epoch m slot sound epochs failpoint requested t)
          (Halted f law s epoch m slot sound epochs failpoint bound)
          o
      → (d : Disk Page) × (recover f o.1.disk ≡ ok d) × Recovered d
  stopped_recovers requested bound _ (Ended.returned row t (is, staged)) =
      recover-Recovered t
        (Safe-Isolated f law s epoch m slot sound epochs failpoint t staged.0 staged.1.ready.safe)
  stopped_recovers requested bound _ (Ended.raised e t (cause, (frontier, safe))) =
      recover-Recovered t
        (Safe-Isolated f law s epoch m slot sound epochs failpoint t frontier safe)

  -- From a store at rest: wherever the writes of a batch of ids of the namespace stop before its
  -- superblock, by a failpoint or by the end of the page ids, or if they all are made, recovery returns,
  -- and the disk then has the committed superblock, maps every id as before the batch, and has no node
  -- past the committed frontier.
  pub stage_batch_recovers :
      (requested : List ℕ)
      → All (λ q. q < 2 ^ 64) requested
      → (d : Disk Page) × (recover f (stage_batch f failpoint requested s).1.disk ≡ ok d)
        × Recovered d
  stage_batch_recovers requested words =
      stopped_recovers requested (begin + 46 * length requested)
        (stage_batch f failpoint requested s)
        (stage_batch-Ended f law s epoch m slot sound epochs failpoint requested words)

  left_behind :
      (t : Txn Page) (frontier base : ℕ) (n : Node)
      → Safe f s.disk epoch begin t.disk t.pending_nodes t.pending_node_slots frontier
      → get base t.pending_nodes ≡ some n
      → base % 2 ≡ 0
      → 2 ≤ base
      → base + 2 ≤ begin
      → (n' : Node) × (frozen f t.disk (suc epoch) begin base ≡ some n') × Same n n'
  left_behind t frontier base n safe has halves low below =
      Copies-next f s.disk epoch begin t.disk t.pending_nodes t.pending_node_slots frontier safe
        sound.clean begin base n (get base t.pending_nodes) (get base t.pending_node_slots) halves
        low below (safe.copies base halves low)
        (ap (λ o. covered o (frozen f s.disk epoch begin base)) has)

  stopped_leaves :
      (requested : List ℕ) (bound : ℕ) (o : Outcome Fault (ℕ × Meta R) × Txn Page) (d : Disk Page)
      (base : ℕ) (n : Node)
      → Ended
          (λ row t.
            (row ≡ (epoch, m)) × Staged f law s epoch m slot sound epochs failpoint requested t)
          (Halted f law s epoch m slot sound epochs failpoint bound)
          o
      → get base o.1.pending_nodes ≡ some n
      → base % 2 ≡ 0
      → 2 ≤ base
      → base + 2 ≤ begin
      → (n' : Node) × (frozen f o.1.disk (suc epoch) begin base ≡ some n') × Same n n'
  stopped_leaves requested bound _ d base n (Ended.returned row t (is, staged)) has halves low
        below =
      left_behind t staged.0 base n staged.1.ready.safe has halves low below
  stopped_leaves requested bound _ d base n (Ended.raised e t (cause, (frontier, safe))) has halves
        low below =
      left_behind t frontier base n safe has halves low below

  -- From a store at rest: a node below the committed frontier that a batch of ids of the namespace had
  -- rewritten when it stopped keeps what the batch wrote through recovery, as what a reader at the next
  -- epoch finds in it.
  pub stage_batch_leaves :
      (requested : List ℕ) (d : Disk Page) (base : ℕ) (n : Node)
      → All (λ q. q < 2 ^ 64) requested
      → recover f (stage_batch f failpoint requested s).1.disk ≡ ok d
      → get base (stage_batch f failpoint requested s).1.pending_nodes ≡ some n
      → base % 2 ≡ 0
      → 2 ≤ base
      → base + 2 ≤ begin
      → (n' : Node) × (frozen f d (suc epoch) begin base ≡ some n') × Same n n'
  stage_batch_leaves requested d base n words recovered has halves low below =
      let t : Txn Page = (stage_batch f failpoint requested s).1 in
      let (n', found, same) =
        stopped_leaves requested (begin + 46 * length requested)
          (stage_batch f failpoint requested s) d base n
          (stage_batch-Ended f law s epoch m slot sound epochs failpoint requested words) has halves
          low below in
      let (d', run, r) = stage_batch_recovers requested words in
      let isolated =
        stage_batch-Isolated f law s epoch m slot sound epochs failpoint requested words in
      (
        n',
        ap (λ v. v base)
              (ap (λ x. frozen f x (suc epoch) begin) (recovered_is t d isolated.super recovered)
                ∙ frozen-cut f law (suc epoch) begin t.disk)
            ∙ found,
        same,
      )
