-- ===== src/Lib.antt =====
-- Durable-Infinite-Context: hash indexes, crash recovery, descriptor pages, and the state of assertions.
--
-- The repository keeps assertions about subjects, reconciles them into state cells, and studies storage
-- layouts whose work per mutation is bounded and that recover from power loss. The parts that are
-- modelled here, and the files that model them:
--
-- storage/bounded_placement.py, BoundedBucketCuckooIndex - Placement.antt and Placement/.
--   Placement.antt has the state (Config for the immutable attributes, Index for `_buckets`, `_stash` and
--   `size`), `__init__` (new), `bucket_pair`, `_first_empty`, `_victim_slot` and the work bound.
--   Placement/Insert.antt is `insert`: the direct placements, the relocation loop (kicks, structural on
--   the `max_kicks` rounds that are left), the stash and the rollback. Placement/Lookup.antt is `lookup`.
--   Slots, Kicks, Invariant, Construction, Relocation, Totality, Membership and Rollback hold proofs.
--   The keyed blake2b is a parameter: a function from a key and a text to a number.
--
-- storage/incremental_hash.py - Probing.antt, Probing/, Generations.antt and Generations/.
--   Probing.antt is _GenerationTable: `probe` is the loop over the probe positions, to which `place` and
--   `lookup` give their bodies. Probing/Linear.antt is FixedLinearProbeIndex of bounded_placement.py on the
--   same tables; Probing/Resize.antt is StopTheWorldHashIndex of storage/hash_resize.py, whose rehash
--   places the keys of the slots into an empty table. Generations.antt has the state of
--   IncrementalHashIndex and `_start_migration`, Generations/Stepping.antt `_migrate_step` (its loop is
--   structural on the budget that is left),
--   Generations/Operations.antt `insert` and `lookup`. The errors are the values of Fault; the state after
--   an error is not kept. The comparisons of a float with `max_load` are two tests in Settings, and an
--   amplification is the pair of the numbers that are divided. The other files hold proofs.
--
-- storage/persistence_fault_model.py - Persistence.antt and Persistence/.
--   The file lengths and overflow rows as records, each method as a function to the new state, the two
--   recovery passes with a failpoint as a data type; a pass that returns early is `stopped`.
--
-- storage/lazy_generation_allocation.py - Residue.antt.
--   The file-length formulas. They share the stale tail with the fault model.
--
-- storage/retirement_descriptor_pool.py - Descriptor.antt and Descriptor/.
--   Descriptor.antt is the codec over lists of bytes; Descriptor/Copies.antt is TaggedDescriptorIO over a
--   file that is a map from offsets to pages. zlib.crc32 is a parameter. Fields, Encoded,
--   RoundTrip and Versions hold proofs.
--
-- core/models.py and core/predicates.py - Models.antt. state/reconciliation.py - Reconciliation.antt
--   and Reconciliation/. Python's values, their repr and their equality are parameters. Sets and
--   dictionaries of ids are lists without repetition.
--
-- core/storage.py, MemoryStore - Store.antt and Store/.
--   The canonical records and the four locality indexes as one record; Store/Rebuild.antt is
--   `rebuild_locality_indexes`. An index entry that names a missing assertion makes a query `none`, the
--   KeyError of the source. Invariant says when the indexes are exact; References, Preservation,
--   Rehydration and Queries hold proofs.
--
-- state/incremental.py - Incremental.antt and Incremental/.
--   `apply_incremental_current_state` from a store to the cost and the new store, each shape of the
--   updated cell as a function, and `fast_cell` for the tests that choose among them. A KeyError is a
--   value of Fault. Candidates, Cells, Agreement and Updates hold proofs.
--
-- state/projection.py - Projection.antt and Projection/.
--   The two ways to answer a query, and `refresh_current_state`, on the store and on `reconcile`.
--
-- state/dependencies.py, DependencyGraph - Dependencies.antt and Dependencies/.
--   The four dictionaries as a record; Dependencies.antt has `invalidate_from`, Dependencies/Edges.antt
--   `register_derived` and `remove_derived`, Dependencies/Lifecycle.antt `invalidate_nodes`, the marks, the
--   queries and the sum of traces. Walks, Exactness, Nodes and Mirrors hold proofs. The loop over the
--   queue runs on fuel: the number of roots and of all stored dependents, since each round takes out a
--   root or a dependent that was not seen before. A set is a list in some order.
--
-- storage/fixed_width_radix_primary.py over storage/transactional_segmented_primary.py and
--   storage/segmented_fixed_page_primary.py - Radix.antt and Radix/.
--   Radix/Disk.antt is a file of pages, and what a page format has to satisfy; Radix/Codec.antt has the
--   codecs of the nodes and of the superblock's record on bytes, with crc32 and json as parameters, and
--   Radix/Codec/ the proof that they satisfy it. Radix/Initial.antt is `initialize`, Radix/Series.antt a
--   series of batches, and Radix/Stores.antt states the theorems on batches over those pages.
--   Radix/Txn.antt has the pending state of a transaction, the steps that raise and keep their writes,
--   and the reads (`_read_node`, `_transaction_node_view`, `_resolve_segment`, `_read_super`);
--   Radix/Mapping.antt the writes, `_reserve_fresh_mapping`, `materialize_segment_mappings`,
--   `mapping_snapshot` and `recover`. The walks are structural on the digits of the segment. Radix/Tree.antt
--   and Radix/Tree/ say what a tree of nodes maps, and how one link or a whole path changes it; the other
--   files hold proofs: Newest, Copies and Safety of the two copies of a node, Pending, Walks, Resolution,
--   Writes, Allocation, Digits, Reservation and Batches of a transaction, Transactions, Commit, Publication,
--   Recovery and Snapshots of the whole. A failpoint is a test on the label and the state. Page reads and writes are
--   of whole pages, and a write is either made or not.
--
-- Prelude.antt and Prelude/ have the shared names, tests, lists, bytes, bits, sets of ids, dictionaries
-- (Prelude/Dicts.antt, over an instance of Hashable for their keys) and dictionaries of sets (Buckets).
-- Tests.antt and Tests/ apply the theorems at concrete inputs.
--
-- Numbers are natural numbers; where the source has a guard against a negative argument, the guard has
-- no counterpart. Apart from the queue of an invalidation, the loops are
-- structural on a list or on a number of rounds.
--
-- Not modelled: the stores over SQLite, the buckets of the fixed-page stores and their page codecs, the
-- reclaiming stores, the cascade over the
-- dependency graph, the recovery plans, the planners, the simulations and the benchmarks.
pub mod Prelude
pub mod Placement
pub mod Probing
pub mod Generations
pub mod Persistence
pub mod Residue
pub mod Descriptor
pub mod Models
pub mod Store
pub mod Reconciliation
pub mod Incremental
pub mod Projection
pub mod Radix
pub mod Dependencies
pub mod Tests
