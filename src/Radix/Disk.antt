-- ===== src/Radix/Disk.antt =====
-- A file of pages, and the page formats of the nodes and of the superblock.
use durable_infinite_context.Prelude.{
  ℕ, suc, ◌^◌, ◌<◌, ◌≤◌, ◌≡◌, Option, none, some, ltb, ◌==◌, if◌then◌else◌, arith, Outcome, ok,
}
use durable_infinite_context.Prelude.Dicts.{number_key, get, Unique}
use durable_infinite_context.Radix.{Node, Meta, Fault}

-- the file's length in pages, and its pages
pub record Disk (Page : Type 0) : Type 0 where
  pub size : ℕ
  pub pages : ℕ → Page

-- How pages are read as nodes and as superblocks: `encode_fixed_radix_node` and its inverse, and
-- `_pack_record` and `_unpack_record`. `missing` is what a read past the end gets, `zeros` a page that
-- was never written.
pub record Format (Page R : Type 0) : Type 0 where
  pub missing : Page
  pub zeros : Page
  pub encode_node : ℕ → Node → Outcome Fault Page
  pub decode_node : Page → Option (ℕ × Node)
  pub encode_super : ℕ → Meta R → Outcome Fault Page
  pub decode_super : Page → Option (ℕ × Meta R)

-- the same depth and the same entries, in whatever order
pub record Same (n n' : Node) : Type 0 where
  pub depth : n'.depth ≡ n.depth
  pub entries : (d : ℕ) → get d n'.entries ≡ get d n.entries

-- what fits the page of a node: one pointer of 64 bits for each digit of 8 bits
pub record Fits (n : Node) : Type 0 where
  pub depth : n.depth < 8
  pub unique : Unique n.entries
  pub entries : (d v : ℕ) → get d n.entries ≡ some v → (d < 256) × (v < 2 ^ 64)

-- what a store needs of its page formats: unused pages hold nothing, and what is encoded is read back
pub record IsFormat {Page R : Type 0} (f : Format Page R) : Type 0 where
  pub missing : f.decode_node f.missing ≡ none
  pub zeros : f.decode_node f.zeros ≡ none
  pub missing_super : f.decode_super f.missing ≡ none
  pub zeros_super : f.decode_super f.zeros ≡ none
  pub node :
      (epoch : ℕ) (n : Node) (page : Page)
      → f.encode_node epoch n ≡ ok page
      → (n' : Node) × (f.decode_node page ≡ some (epoch, n')) × Same n n'
  pub fits :
      (epoch : ℕ) (n : Node)
      → epoch < 2 ^ 64
      → Fits n
      → (page : Page) × (f.encode_node epoch n ≡ ok page)
  pub unique :
      (page : Page) (epoch : ℕ) (n : Node) → f.decode_node page ≡ some (epoch, n) → Unique n.entries
  pub super :
      (epoch : ℕ) (m : Meta R) (page : Page)
      → f.encode_super epoch m ≡ ok page
      → f.decode_super page ≡ some (epoch, m)

module _ {Page R : Type 0} (f : Format Page R) where
  -- `os.pread` of one page
  unfoldable pub pread : Disk Page → ℕ → Page
  pread d i = if ltb i d.size then d.pages i else f.missing

  -- `os.pwrite` of one page, which extends the file where it writes past the end
  unfoldable pub pwrite : Page → ℕ → Disk Page → Disk Page
  pwrite page at d = record {
    size = if ltb at d.size then d.size else suc at;
    pages = λ i. if i == at then page else if ltb i d.size then d.pages i else f.zeros;
  }

  unfoldable pub ftruncate : ℕ → Disk Page → Disk Page
  ftruncate size d = record {
    size = size;
    pages = λ i. if ltb i d.size then d.pages i else f.zeros;
  }

  -- the copy of a node at a page
  abbrev pub node_at : Disk Page → ℕ → Option (ℕ × Node)
  node_at d i = f.decode_node (pread d i)

  abbrev pub super_at : Disk Page → ℕ → Option (ℕ × Meta R)
  super_at d i = f.decode_super (pread d i)

  pub node_at-pwrite :
      (page : Page) (at : ℕ) (d : Disk Page) (i : ℕ)
      → IsFormat f
      → node_at (pwrite page at d) i ≡ (if i == at then f.decode_node page else node_at d i)
  unfolding pread pwrite
  node_at-pwrite page at d i law = ground (arith, law.missing, law.zeros)

  pub node_at-ftruncate :
      (size : ℕ) (d : Disk Page) (i : ℕ)
      → IsFormat f
      → i < size
      → node_at (ftruncate size d) i ≡ node_at d i
  unfolding pread ftruncate
  node_at-ftruncate size d i law lt = ground (arith, law.missing, law.zeros)

  pub super_at-pwrite :
      (page : Page) (at : ℕ) (d : Disk Page) (i : ℕ)
      → IsFormat f
      → super_at (pwrite page at d) i ≡ (if i == at then f.decode_super page else super_at d i)
  unfolding pread pwrite
  super_at-pwrite page at d i law = ground (arith, law.missing_super, law.zeros_super)

  pub super_at-ftruncate :
      (size : ℕ) (d : Disk Page) (i : ℕ)
      → IsFormat f
      → i < size
      → super_at (ftruncate size d) i ≡ super_at d i
  unfolding pread ftruncate
  super_at-ftruncate size d i law lt = ground (arith, law.missing_super, law.zeros_super)

  -- Past the new end nothing is read.
  pub node_at-past :
      (size : ℕ) (d : Disk Page) (i : ℕ)
      → IsFormat f
      → size ≤ i
      → node_at (ftruncate size d) i ≡ none
  unfolding pread ftruncate
  node_at-past size d i law le = ground (arith, law.missing)
