-- ===== src/Radix/Codec.antt =====
-- The page codecs: encode_fixed_radix_node and decode_fixed_radix_node of
-- storage/fixed_width_radix_primary.py, _pack_record and _unpack_record of
-- storage/fixed_page_primary.py for the superblock. A page is a list of bytes. zlib's crc32 is a parameter,
-- and so are json.dumps, with its arguments and the encoding to bytes, and json.loads, which is none
-- where the source catches an error or gets no dict. Digits are the numbers that int() makes of the keys.
pub mod Arrays
pub mod Filling
pub mod Pages
pub mod Normal
pub mod Layout
pub mod Nodes
pub mod Records
use durable_infinite_context.Prelude.{
  ℕ, zero, suc, ◌+◌, ◌-◌, ◌*◌, ◌^◌, Bool, true, false, not, ◌||◌, Option, none, some, List, [], ◌∷◌,
  ◌++◌, ltb, ◌==◌, if◌then◌else◌, length, replicate, Outcome, ok, err, ◌>>=◌,
}
use durable_infinite_context.Prelude.Bytes.{to_be, of_be, take, drop}
use durable_infinite_context.Prelude.ByteBits.{has_bit, set_bit}
use durable_infinite_context.Prelude.Dicts.{number_key, Dict, get, put}
use durable_infinite_context.Descriptor.{checksum, same_bytes}
use durable_infinite_context.Radix.{
  Node, Meta, Fault, radix_fanout, radix_levels, max_physical_page_id,
}
use durable_infinite_context.Radix.Disk.{Format}

abbrev pub page_bytes : ℕ
page_bytes = 4096

-- b"DICMAP31"
abbrev pub node31_magic : List ℕ
node31_magic = b'D' ∷ b'I' ∷ b'C' ∷ b'M' ∷ b'A' ∷ b'P' ∷ b'3' ∷ b'1' ∷ []

-- b"DICSUP24"
abbrev pub super_magic : List ℕ
super_magic = b'D' ∷ b'I' ∷ b'C' ∷ b'S' ∷ b'U' ∷ b'P' ∷ b'2' ∷ b'4' ∷ []

-- b"DICMAP30", of the nodes of the base class
abbrev pub node_magic : List ℕ
node_magic = b'D' ∷ b'I' ∷ b'C' ∷ b'M' ∷ b'A' ∷ b'P' ∷ b'3' ∷ b'0' ∷ []

-- the sizes of ">8sQBH", ">I", the bitmap and the pointers
abbrev pub node_header_size : ℕ
node_header_size = 19

abbrev pub node_crc_size : ℕ
node_crc_size = 4

abbrev pub node_bitmap_bytes : ℕ
node_bitmap_bytes = 32

abbrev pub node_pointer_bytes : ℕ
node_pointer_bytes = 2048

abbrev pub fixed_node_used_bytes : ℕ
fixed_node_used_bytes = 2103

-- the size of ">8sQII", and PAGE_SIZE - HEADER_SIZE
abbrev pub header_size : ℕ
header_size = 24

abbrev pub max_payload : ℕ
max_payload = 4072

abbrev pub is_there : Option ℕ → Bool
is_there none = false
is_there (some v) = true

-- The loop of `_normalize_entries`, with what it has gathered.
unfoldable pub normalize_from : Dict ℕ ℕ → Dict ℕ ℕ → Outcome Fault (Dict ℕ ℕ)
normalize_from normalized [] = ok normalized
normalize_from normalized ((key, value) ∷ entries) =
    let rest = normalize_from (put key value normalized) entries in
    if not (ltb key radix_fanout)
    then err Fault.bad_node
    else if ltb max_physical_page_id value
    then err Fault.bad_node
    else if is_there (get key normalized)
    then err Fault.bad_node
    else rest

abbrev pub normalize_entries : Dict ℕ ℕ → Outcome Fault (Dict ℕ ℕ)
normalize_entries entries = normalize_from [] entries

-- `struct.pack_into` of the bytes at an offset
unfoldable pub write_at : ℕ → List ℕ → List ℕ → List ℕ
write_at zero bytes buffer = bytes ++ drop (length bytes) buffer
write_at (suc offset) bytes [] = []
write_at (suc offset) bytes (b ∷ buffer) = b ∷ write_at offset bytes buffer

-- the loop over the entries that fills the bitmap and the pointers
unfoldable pub fill : Dict ℕ ℕ → List ℕ → List ℕ → List ℕ × List ℕ
fill [] bitmap pointers = (bitmap, pointers)
fill ((digit, value) ∷ entries) bitmap pointers =
    fill entries (set_bit digit bitmap) (write_at (8 * digit) (to_be 8 value) pointers)

-- `struct.unpack_from(">Q", pointers, digit * 8)`: the array has eight bytes for every digit
unfoldable pub pointer_at : ℕ → List ℕ → ℕ
pointer_at digit pointers = of_be 0 (take 8 (drop (8 * digit) pointers))

-- the loop of the decoder over so many digits from one on
unfoldable pub read_entries : ℕ → ℕ → List ℕ → List ℕ → Dict ℕ ℕ
read_entries zero digit bitmap pointers = []
read_entries (suc count) digit bitmap pointers =
    let rest = read_entries count (suc digit) bitmap pointers in
    if has_bit digit bitmap then (digit, pointer_at digit pointers) ∷ rest else rest

-- the first two fields of both headers
abbrev pub sealed : List ℕ → ℕ → List ℕ
sealed magic epoch = magic ++ to_be 8 epoch

abbrev pub node_prefix : ℕ → ℕ → ℕ → List ℕ
node_prefix epoch depth count = sealed node31_magic epoch ++ to_be 1 depth ++ to_be 2 count

-- the checks of the layout, and the zeros up to the page's end
unfoldable pub padded : List ℕ → Outcome Fault (List ℕ)
padded page =
    if not (length page == fixed_node_used_bytes)
    then err Fault.layout_drifted
    else if ltb page_bytes (length page)
    then err Fault.layout_drifted
    else ok (page ++ replicate (page_bytes - length page) 0)

-- a node whose magic, depth, count and checksum passed
unfoldable pub decode_body : ℕ → ℕ → ℕ → List ℕ → Option (ℕ × Node)
decode_body epoch depth count body =
    let entries =
      read_entries radix_fanout 0 (take node_bitmap_bytes body) (drop node_bitmap_bytes body) in
    if not (length entries == count)
    then none
    else some (epoch, record { depth = depth; entries = entries })

module _ (crc32 : List ℕ → ℕ) where
  unfoldable pub node_record : ℕ → ℕ → ℕ → List ℕ × List ℕ → Outcome Fault (List ℕ)
  node_record epoch depth count (bitmap, pointers) =
      let prefix = node_prefix epoch depth count in
      let body = bitmap ++ pointers in
      padded (prefix ++ to_be 4 (checksum crc32 (prefix ++ body)) ++ body)

  -- behind `_normalize_entries`: the header is packed only if the epoch has 64 bits
  unfoldable pub encode_entries : ℕ → ℕ → Dict ℕ ℕ → Outcome Fault (List ℕ)
  encode_entries epoch depth entries =
      if ltb radix_fanout (length entries)
      then err Fault.bad_node
      else if not (ltb epoch (2 ^ 64))
      then err Fault.bad_node
      else node_record epoch depth (length entries)
          (fill entries (replicate node_bitmap_bytes 0) (replicate node_pointer_bytes 0))

  unfoldable pub encode_fixed_radix_node : ℕ → Node → Outcome Fault (List ℕ)
  encode_fixed_radix_node epoch n =
      if not (ltb n.depth radix_levels)
      then err Fault.bad_node
      else normalize_entries n.entries >>= encode_entries epoch n.depth

  unfoldable pub decode_fixed_radix_node : List ℕ → Option (ℕ × Node)
  decode_fixed_radix_node page =
      let depth = of_be 0 (take 1 (drop 16 page)) in
      let count = of_be 0 (take 2 (drop 17 page)) in
      let body = drop (node_header_size + node_crc_size) (take fixed_node_used_bytes page) in
      if not (length page == page_bytes)
      then none
      else if ltb (length page) fixed_node_used_bytes
      then none
      else if not (same_bytes (take 8 page) node31_magic)
          || not (ltb depth radix_levels)
          || ltb radix_fanout count
      then none
      else if not (
          checksum crc32 (take node_header_size page ++ body)
          == of_be 0 (take node_crc_size (drop node_header_size page)))
      then none
      else decode_body (of_be 0 (take 8 (drop 8 page))) depth count body

  -- `struct.pack(">QI", epoch, length)` is packed only if the epoch has 64 bits
  unfoldable pub pack_record : List ℕ → ℕ → List ℕ → Outcome Fault (List ℕ)
  pack_record magic epoch raw =
      let prefix = sealed magic epoch ++ to_be 4 (length raw) in
      if ltb max_payload (length raw)
      then err Fault.bad_super
      else if not (ltb epoch (2 ^ 64))
      then err Fault.bad_super
      else ok (
          prefix
          ++ to_be 4 (checksum crc32 (prefix ++ raw))
          ++ raw
          ++ replicate (max_payload - length raw) 0)

  unfoldable pub unpack_record :
      {R : Type 0} → (List ℕ → Option (Meta R)) → List ℕ → List ℕ → Option (ℕ × Meta R)
  unpack_record loads magic page =
      let got_magic = take 8 page in
      let epoch = of_be 0 (take 8 (drop 8 page)) in
      let size = of_be 0 (take 4 (drop 16 page)) in
      let raw = take size (drop header_size page) in
      let prefix = got_magic ++ to_be 8 epoch ++ to_be 4 size in
      if not (length page == page_bytes)
      then none
      else if not (same_bytes got_magic magic) || ltb max_payload size
      then none
      else if not (checksum crc32 (prefix ++ raw) == of_be 0 (take 4 (drop 20 page)))
      then none
      else elim (loads raw) [ none ↦ none | some payload ↦ some (epoch, payload) ]

  -- The pages of the store. A read past the end returns no bytes.
  abbrev pub paged :
      {R : Type 0} → (Meta R → List ℕ) → (List ℕ → Option (Meta R)) → Format (List ℕ) R
  paged dumps loads = record {
    missing = [];
    zeros = replicate page_bytes 0;
    encode_node = encode_fixed_radix_node;
    decode_node = decode_fixed_radix_node;
    encode_super = λ epoch m. pack_record super_magic epoch (dumps m);
    decode_super = unpack_record loads super_magic;
  }
