-- ===== src/Radix/Stores.antt =====
-- What batches do to a store on disk: the theorems on batches and on recovery over the pages that the codecs
-- of the source read and write.
use durable_infinite_context.Prelude.{
  ℕ, suc, ◌+◌, ◌*◌, ◌%◌, ◌^◌, ◌<◌, ◌≤◌, ◌≡◌, Bool, false, Option, none, some, List, [], String, All,
  length, ok,
}
use durable_infinite_context.Prelude.Dicts.{number_key, get}
use durable_infinite_context.Radix.{Node, Meta}
use durable_infinite_context.Radix.Disk.{Disk, Format, IsFormat, Same}
use durable_infinite_context.Radix.Codec.{max_payload, super_magic, paged}
use durable_infinite_context.Radix.Codec.Records.{packed, pack_record-returns, paged-IsFormat}
use durable_infinite_context.Radix.Commit.{Sound}
use durable_infinite_context.Radix.Copies.{frozen}
use durable_infinite_context.Radix.Mapping.{
  MappingBatchTrace, batch_fault, stage_batch, recover, materialize_segment_mappings,
}
use durable_infinite_context.Radix.Publication.{Committed, materialize_segment_mappings-Committed}
use durable_infinite_context.Radix.Recovery.{Recovered, stage_batch_recovers, stage_batch_leaves}
use durable_infinite_context.Radix.Txn.{Txn}

-- a store that was just constructed
abbrev pub opened_on : {Page : Type 0} → Disk Page → Txn Page
opened_on d = record {
  disk = d;
  pending_nodes = [];
  pending_node_slots = [];
  pending_segments = [];
  pending_new_segments = [];
  pending_frontier_start = none;
  pending_frontier = none;
  pending_allocated_pages = 0;
  pending_radix_pwrites = 0;
  segment_cache = [];
}

module _ {R : Type 0} (crc32 : List ℕ → ℕ) (dumps : Meta R → List ℕ)
    (loads : List ℕ → Option (Meta R)) (loaded : (m : Meta R) → loads (dumps m) ≡ some m) where
  abbrev pub pages : Format (List ℕ) R
  pages = paged crc32 dumps loads

  abbrev pub law : IsFormat pages
  law = paged-IsFormat crc32 loads dumps loaded

  fits_page :
      (epoch : ℕ) (m : Meta R)
      → length (dumps m) ≤ max_payload
      → epoch < 2 ^ 64
      → (page : List ℕ) × (pages.encode_super epoch m ≡ ok page)
  fits_page epoch m fits word = (
    packed crc32 super_magic epoch (dumps m),
    pack_record-returns crc32 super_magic epoch (dumps m) fits word,
  )

  module _ (s : Txn (List ℕ)) (epoch : ℕ) (m : Meta R) (slot : ℕ)
      (sound : Sound pages s.disk epoch m slot) (epochs : suc epoch < 2 ^ 64)
      (failpoint : String → Txn (List ℕ) → Bool) where
    -- From a store at rest below epoch 2^64 - 1, with no failpoint and room for 46 pages for each id below
    -- 2^64, where the superblock's JSON fits a page up to that room and is loaded as it was dumped: a
    -- batch of distinct ids of the namespace returns. The store is then at rest one epoch later, the trace
    -- has that epoch and the new frontier, every requested id is mapped, a mapped id keeps its pages, and
    -- an id that was not requested is mapped as before.
    pub batch_commits :
        (requested : List ℕ)
        → batch_fault pages failpoint requested ≡ none
        → m.next_physical_page + 46 * length requested ≤ 2 ^ 64
        → ((label : String) (t : Txn (List ℕ)) → failpoint label t ≡ false)
        → ((frontier : ℕ)
            → m.next_physical_page ≤ frontier
            → frontier ≤ m.next_physical_page + 46 * length requested
            → length (dumps (record m { next_physical_page = frontier })) ≤ max_payload)
        → (trace : MappingBatchTrace) × (u : Txn (List ℕ)) × (materialize_segment_mappings pages
              failpoint requested s
            ≡ (ok trace, u))
          × Committed pages law s epoch m slot sound epochs failpoint requested trace u
    batch_commits requested fine range never fits =
        materialize_segment_mappings-Committed pages law s epoch m slot sound epochs failpoint
          requested fine range never
          (λ frontier low high.
            fits_page (suc epoch) (record m { next_physical_page = frontier })
              (fits frontier low high) epochs)

    -- From a store at rest below epoch 2^64 - 1, whose superblocks are loaded as they were dumped: wherever
    -- the writes of a batch of ids of the namespace stop before its superblock, by a failpoint or by the
    -- end of the page ids, or if they all are made, recovery returns, and the disk then has the committed
    -- superblock, maps every id as before the batch, and has no node past the committed frontier.
    pub stopped_batch_recovers :
        (requested : List ℕ)
        → All (λ q. q < 2 ^ 64) requested
        → (d : Disk (List ℕ)) × (recover pages (stage_batch pages failpoint requested s).1.disk
            ≡ ok d)
          × Recovered pages law s epoch m slot sound epochs failpoint d
    stopped_batch_recovers = stage_batch_recovers pages law s epoch m slot sound epochs failpoint

    -- From a store at rest below epoch 2^64 - 1, whose superblocks are loaded as they were dumped: a node
    -- below the committed frontier that a batch of ids of the namespace had rewritten when it stopped
    -- keeps what the batch wrote through recovery, as what a reader at the next epoch finds in it.
    pub stopped_batch_leaves :
        (requested : List ℕ) (d : Disk (List ℕ)) (base : ℕ) (n : Node)
        → All (λ q. q < 2 ^ 64) requested
        → recover pages (stage_batch pages failpoint requested s).1.disk ≡ ok d
        → get base (stage_batch pages failpoint requested s).1.pending_nodes ≡ some n
        → base % 2 ≡ 0
        → 2 ≤ base
        → base + 2 ≤ m.next_physical_page
        → (n' : Node) × (frozen pages d (suc epoch) m.next_physical_page base ≡ some n') × Same n n'
    stopped_batch_leaves = stage_batch_leaves pages law s epoch m slot sound epochs failpoint
