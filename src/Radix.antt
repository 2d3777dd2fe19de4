-- ===== src/Radix.antt =====
-- storage/fixed_width_radix_primary.py over storage/transactional_segmented_primary.py and
-- storage/segmented_fixed_page_primary.py: the map from logical segments to physical pages, a radix tree
-- of nodes with two copies each. Pages are read and written whole, so the disk is indexed by page
-- numbers. The counters of preads and pwrites are left out, but for the radix writes of the trace. A
-- failpoint is a test that says where the callback raises.
pub mod Disk
pub mod Codec
pub mod Tree
pub mod Newest
pub mod Txn
pub mod Copies
pub mod Pending
pub mod Walks
pub mod Runs
pub mod Safety
pub mod Writes
pub mod Allocation
pub mod Digits
pub mod Resolution
pub mod Reservation
pub mod Batches
pub mod Commit
pub mod Transactions
pub mod Publication
pub mod Recovery
pub mod Initial
pub mod Series
pub mod Stores
pub mod Snapshots
pub mod Mapping
use durable_infinite_context.Prelude.{ℕ, zero, suc, ◌-◌, ◌+◌, ◌*◌, ◌/◌, ◌^◌, List, [], ◌∷◌}
use durable_infinite_context.Prelude.Dicts.{Dict}
use Prim.Native.Nat.{bit_and}

abbrev pub radix_fanout : ℕ
radix_fanout = 256

abbrev pub radix_levels : ℕ
radix_levels = 8

abbrev pub max_physical_page_id : ℕ
max_physical_page_id = 2 ^ 64 - 1

abbrev pub root_node_base_page : ℕ
root_node_base_page = 2

-- DATA_PAGE_COPIES * SEGMENT_BUCKET_PAGES
abbrev pub segment_pages : ℕ
segment_pages = 2 * 16

abbrev pub radix_node_copies : ℕ
radix_node_copies = 2

-- the payload of a node: its entries map digits to physical pages
pub record Node : Type 0 where
  pub depth : ℕ
  pub entries : Dict ℕ ℕ

-- the digits at the shifts 8 * (n - 1), ..., 8, 0
unfoldable pub digits_from : ℕ → ℕ → List ℕ
digits_from zero segment_id = []
digits_from (suc n) segment_id =
    bit_and (segment_id / 2 ^ (8 * n)) (256 - 1) ∷ digits_from n segment_id

-- `_radix_digits` of an id below 2^64
abbrev pub radix_digits : ℕ → List ℕ
radix_digits segment_id = digits_from 8 segment_id

-- `new_node_bases`: the bases of so many nodes from the frontier on
unfoldable pub new_bases : ℕ → ℕ → List ℕ
new_bases zero at = []
new_bases (suc count) at = at ∷ new_bases count (at + radix_node_copies)

abbrev pub first_or : List ℕ → ℕ → ℕ
first_or [] segment_base = segment_base
first_or (base ∷ bases) segment_base = base

-- The new nodes from a depth down, each with its one entry: the next of them, or the segment.
unfoldable pub children : ℕ → List ℕ → List ℕ → ℕ → Dict ℕ Node
children depth (d ∷ ds) (base ∷ bases) segment_base =
    (base, record { depth = depth; entries = (d, first_or bases segment_base) ∷ [] })
    ∷ children (suc depth) ds bases segment_base
children depth ds bases segment_base = []

-- the superblock's meta data: the append frontier, and the rest of it
pub record Meta (R : Type 0) : Type 0 where
  pub next_physical_page : ℕ
  pub rest : R

pub data Fault : Type 0 where
  bad_node : Fault
  layout_drifted : Fault
  bad_super : Fault
  no_valid_node : Fault
  no_valid_super : Fault
  depth_drifted : Fault
  no_frontier : Fault
  fell_through : Fault
  pointer_overflow : Fault
  no_segments : Fault
  duplicate_segments : Fault
  out_of_namespace : Fault
  injected : Fault
  missing_key : Fault
