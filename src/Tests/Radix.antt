-- ===== src/Tests/Radix.antt =====
-- A store that was initialized, with a checksum and a text format for its superblock, and what the radix
-- theorems state of batches in that store.
use durable_infinite_context.Prelude.{
  ℕ, ◌-◌, ◌*◌, ◌%◌, ◌^◌, ◌≡◌, inl, inr, Bool, false, Option, none, some, List, [], ◌∷◌, String,
  length, length-replicate, replicate, if◌then◌else◌, arith, refl, ap, ◌∙◌, Option-cases, ok,
  str_eq,
}
use durable_infinite_context.Prelude.Bytes.{of_be}
use durable_infinite_context.Prelude.Dicts.{number_key, get, Unique}
use durable_infinite_context.Radix.{Node, Meta}
use durable_infinite_context.Radix.Disk.{Disk, Format, IsFormat, Same, Fits}
use durable_infinite_context.Radix.Codec.{
  super_magic, encode_fixed_radix_node, decode_fixed_radix_node,
}
use durable_infinite_context.Radix.Codec.Nodes.{encode_node-decode}
use durable_infinite_context.Radix.Codec.Records.{packed, pack_record-returns}
use durable_infinite_context.Radix.Commit.{Sound, segments_of}
use durable_infinite_context.Radix.Copies.{frozen}
use durable_infinite_context.Radix.Digits.{length-path}
use durable_infinite_context.Radix.Initial.{initialize, initialize-Sound}
use durable_infinite_context.Radix.Mapping.{
  Snapshot, mapping_snapshot, page_size, recover, materialize_segment_mappings, stage_batch,
  batch_fault, has_duplicates, has_number, out_of_namespace, MappingBatchTrace,
}
use durable_infinite_context.Radix.Pending.{path, overlay, covered}
use durable_infinite_context.Radix.Publication.{Committed, never_halts}
use durable_infinite_context.Radix.Recovery.{Recovered}
use durable_infinite_context.Radix.Snapshots.{mapping_snapshot_answers}
use durable_infinite_context.Radix.Stores.{
  opened_on, pages, law, batch_commits, stopped_batch_recovers, stopped_batch_leaves,
}
use durable_infinite_context.Radix.Transactions.{stage_batch-Ended}
use durable_infinite_context.Radix.Tree.{View, edge, reach, reach-stop}
use durable_infinite_context.Radix.Txn.{Txn}

-- a checksum of 32 bits
abbrev residue : List ℕ → ℕ
residue bytes = of_be 0 bytes % (2 ^ 32 - 5)

-- the frontier in unary
abbrev strokes : Meta Unit → List ℕ
strokes m = replicate m.next_physical_page b'1'

abbrev counted : List ℕ → Option (Meta Unit)
counted raw = some (record { next_physical_page = length raw; rest = tt })

counted-strokes : (m : Meta Unit) → counted (strokes m) ≡ some m
counted-strokes m =
    let one : ℕ = b'1' in
    ap (λ k. some (record { next_physical_page = k; rest = tt }))
      (length-replicate m.next_physical_page one)

length-strokes : (m : Meta Unit) → length (strokes m) ≡ m.next_physical_page
length-strokes m = let one : ℕ = b'1' in length-replicate m.next_physical_page one

abbrev unary : Format (List ℕ) Unit
unary = pages residue strokes counted counted-strokes

abbrev unary_law : IsFormat unary
unary_law = law residue strokes counted counted-strokes

abbrev first_meta : Meta Unit
first_meta = record { next_physical_page = 4; rest = tt }

super_page : (page : List ℕ) × (unary.encode_super 1 first_meta ≡ ok page)
super_page =
    let size = length-strokes first_meta in
    (
      packed residue super_magic 1 (strokes first_meta),
      pack_record-returns residue super_magic 1 (strokes first_meta) (omega arith) (omega arith),
    )

first_store :
    (d : Disk (List ℕ)) × (initialize unary (λ r. r) [] tt ≡ ok d)
    × Sound unary d 1 first_meta 0
    × ((e : ℕ) (p : List ℕ) → reach (frozen unary d 1 4) (e ∷ p) ≡ none)
first_store =
    initialize-Sound unary unary_law (λ r. r) [] tt super_page.0 super_page.0 super_page.1
      super_page.1

abbrev first_txn : Txn (List ℕ)
first_txn = opened_on first_store.0

abbrev never : String → Txn (List ℕ) → Bool
never label t = false

-- two segments whose paths part at the last digit, and one that parts from them at the first
abbrev batch : List ℕ
batch = 5 ∷ 6 ∷ 2 ^ 60 ∷ []

batch_fine : batch_fault unary never batch ≡ none
unfolding has_duplicates has_number out_of_namespace
batch_fine = refl

batch_commits_example :
    (trace : MappingBatchTrace) × (u : Txn (List ℕ)) × (materialize_segment_mappings unary never
        batch first_txn
      ≡ (ok trace, u))
    × Committed unary unary_law first_txn 1 first_meta 0 first_store.2
        (omega arith)
        never
        batch
        trace
        u
batch_commits_example =
    batch_commits residue strokes counted counted-strokes first_txn 1 first_meta 0 first_store.2
      (omega arith) never batch batch_fine (omega arith) (λ label t. refl)
      (λ frontier low high.
        omega (arith, length-strokes (record { next_physical_page = frontier; rest = tt })))

abbrev at_parent : String → Txn (List ℕ) → Bool
at_parent label t = str_eq label "parent_written"

stopped_batch_recovers_example :
    (d : Disk (List ℕ)) × (recover unary (stage_batch unary at_parent batch first_txn).1.disk
      ≡ ok d)
    × Recovered unary unary_law first_txn 1 first_meta 0 first_store.2 (omega arith) at_parent d
stopped_batch_recovers_example =
    stopped_batch_recovers residue strokes counted counted-strokes first_txn 1 first_meta 0
      first_store.2 (omega arith) at_parent batch (omega arith, (omega arith, (omega arith, tt)))

-- A view whose root has no entries maps nothing.
stays_unmapped :
    (v w : View)
    → ((e : ℕ) (p : List ℕ) → reach v (e ∷ p) ≡ none)
    → w 2 ≡ v 2
    → (p : List ℕ) → length p ≡ 8
    → reach w p ≡ none
unfolding reach
stays_unmapped v w nothing same [] full = absurd (omega arith)
stays_unmapped v w nothing same (e ∷ p) full = under e p
  where
    under : (e : ℕ) (p : List ℕ) → reach w (e ∷ p) ≡ none
    under e [] = ap (edge e) same ∙ nothing e []
    under e (e' ∷ p) = reach-stop w e (e' ∷ p) (under e' p)

-- A batch that maps a segment of the new store has rewritten the root.
rooted : (n : Node) × (get 2 (stage_batch unary never (5 ∷ []) first_txn).1.pending_nodes ≡ some n)
unfolding overlay has_number
rooted =
    let (t, run, staged) =
      never_halts unary unary_law first_txn 1 first_meta 0 first_store.2 (omega arith) never
        (5 ∷ []) 50 (stage_batch unary never (5 ∷ []) first_txn) (λ label t. refl) (omega arith)
        (stage_batch-Ended unary unary_law first_txn 1 first_meta 0 first_store.2 (omega arith)
          never (5 ∷ []) (omega arith, tt)) in
    let (b, at) = staged.1.here 5 (omega arith) refl in
    elim (Option-cases (get 2 t.pending_nodes)) [
      | inr (n, is) ↦ (n, ap (λ o. get 2 o.1.pending_nodes) run ∙ is)
      | inl gone ↦ absurd (
          let nothing =
            stays_unmapped (frozen unary first_store.0 1 4)
              (overlay t.pending_nodes (frozen unary first_store.0 1 4)) first_store.3
              (ap (λ o. covered o (frozen unary first_store.0 1 4 2)) gone) (path 5)
              (length-path 5) in
          cc)
    ]

-- the disk of a batch that wrote its nodes and not its superblock, recovered
recovered_disk :
    (d : Disk (List ℕ)) × (recover unary (stage_batch unary never (5 ∷ []) first_txn).1.disk ≡ ok d)
    × Recovered unary unary_law first_txn 1 first_meta 0 first_store.2 (omega arith) never d
recovered_disk =
    stopped_batch_recovers residue strokes counted counted-strokes first_txn 1 first_meta 0
      first_store.2 (omega arith) never (5 ∷ []) (omega arith, tt)

stopped_batch_leaves_example :
    (n' : Node) × (frozen unary recovered_disk.0 2 4 2 ≡ some n') × Same rooted.0 n'
stopped_batch_leaves_example =
    stopped_batch_leaves residue strokes counted counted-strokes first_txn 1 first_meta 0
      first_store.2 (omega arith) never (5 ∷ []) recovered_disk.0 2 rooted.0 (omega arith, tt)
      recovered_disk.1 rooted.1 refl (omega arith) (omega arith)

-- two batches, of which the second requests a segment of the first again
abbrev series : List (List ℕ)
series = batch ∷ (5 ∷ 7 ∷ []) ∷ []

abbrev leaf_node : Node
leaf_node = record { depth = 7; entries = (255, 2 ^ 64 - 32) ∷ (0, 36) ∷ [] }

leaf-Fits : Fits leaf_node
unfolding get Unique
leaf-Fits = record {
  depth = omega arith;
  unique = (refl, (refl, tt));
  entries = λ d v there. ground arith;
}

encode_node-decode_example :
    (page : List ℕ) × (n' : Node) × (encode_fixed_radix_node residue 9 leaf_node ≡ ok page)
    × (decode_fixed_radix_node residue page ≡ some (9, n'))
    × Same leaf_node n'
encode_node-decode_example = encode_node-decode residue 9 leaf_node (omega arith) leaf-Fits

mapping_snapshot_answers_example :
    (snapshot : Snapshot) × (u : Txn (List ℕ)) × (mapping_snapshot unary batch first_txn
      ≡ (ok snapshot, u))
    × (u.disk ≡ first_store.0)
    × (snapshot.committed_epoch ≡ 1)
    × (snapshot.committed_physical_frontier_bytes ≡ 4 * page_size)
    × ((q : ℕ)
        → get q snapshot.mappings
          ≡ (if has_number q batch then some (segments_of unary first_store.0 1 4 q) else none))
mapping_snapshot_answers_example =
    mapping_snapshot_answers unary first_txn 1 first_meta 0 first_store.2 batch
      (omega arith, (omega arith, (omega arith, tt)))
