-- ===== src/Radix/Codec/Nodes.antt =====
-- encode_fixed_radix_node against decode_fixed_radix_node.
use Prim.Native.Nat.{bit_and, bit_and-bitwise}
use durable_infinite_context.Prelude.{
  ℕ, ◌^◌, ◌<◌, ◌≤◌, ◌≡◌, Bool, true, false, not, ◌||◌, Option, none, some, List, [], ◌++◌, ltb,
  ◌==◌, if◌then◌else◌, arith, refl, sym, ap, subst, ◌∙◌, length, length-append, length-replicate,
  replicate, Outcome, ok, err, ◌>>=◌, passed, get_or-replicate, some_same, Bool-cases, Option-cases,
  inl, inr, ◌/◌, ◌%◌, ◌&&◌,
}
use durable_infinite_context.Prelude.Bytes.{of_be, take, drop, take-append, drop-append}
use durable_infinite_context.Prelude.ByteBits.{has_bit}
use durable_infinite_context.Prelude.Dicts.{number_key, Dict, get, Unique}
use durable_infinite_context.Descriptor.{checksum, same_bytes}
use durable_infinite_context.Radix.{Node, Fault}
use durable_infinite_context.Radix.Disk.{Same, Fits}
use durable_infinite_context.Radix.Codec.{
  page_bytes, node31_magic, node_bitmap_bytes, node_pointer_bytes, is_there, normalize_from, fill,
  read_entries, node_record, pointer_at, encode_entries, encode_fixed_radix_node, decode_body,
  decode_fixed_radix_node,
}
use durable_infinite_context.Radix.Codec.Arrays.{
  within, tally, length-read_entries, tally_bound, get-read_entries, read_entries-Unique,
}
use durable_infinite_context.Radix.Codec.Filling.{AreEntries, IsFilled, fill-IsFilled}
use durable_infinite_context.Radix.Codec.Normal.{
  past_guard, either, IsNormal, normalize-IsNormal, normalize_returns,
}
use durable_infinite_context.Radix.Codec.Layout.{
  record_of, page_of, padded-is, length-record_of, decode-page_of,
}

or_false : (b : Bool) → (b || false) ≡ b
or_false true = refl
or_false false = refl

abbrev pub no_bits : List ℕ
no_bits = replicate node_bitmap_bytes 0

abbrev pub no_pointers : List ℕ
no_pointers = replicate node_pointer_bytes 0

clear : (q : ℕ) → has_bit q no_bits ≡ false
unfolding has_bit
clear q =
    let zero : ℕ = 0 in
    let gone : bit_and zero (2 ^ (q % 8)) ≡ 0 = bit_and-bitwise 0 (2 ^ (q % 8)) in
    ap (λ b. not (bit_and b (2 ^ (q % 8)) == 0)) (get_or-replicate 32 (q / 8) zero)
    ∙ ap (λ b. not (b == 0)) gone

none_set : tally 256 0 no_bits ≡ 0
unfolding tally has_bit
none_set = refl

-- the arrays of entries
module _ (entries : Dict ℕ ℕ) where
  abbrev pub bits : List ℕ
  bits = (fill entries no_bits no_pointers).0

  abbrev pub pointers : List ℕ
  pointers = (fill entries no_bits no_pointers).1

  module _ (unique : Unique entries) (are : AreEntries entries) where
    filled : IsFilled entries no_bits no_pointers bits pointers
    filled =
        fill-IsFilled entries no_bits no_pointers unique are
          (λ i. let zero : ℕ = 0 in omega (arith, get_or-replicate 32 i zero))
          (let zero : ℕ = 0 in length-replicate 32 zero)
          (let zero : ℕ = 0 in length-replicate 2048 zero) (λ q v there. clear q)

    pub length-arrays : length (bits ++ pointers) ≡ 2080
    length-arrays = omega (arith, length-append bits pointers, filled.width, filled.pointer_width)

    pub count_bound : length entries ≤ 256
    count_bound = omega (arith, filled.count, none_set, tally_bound 256 0 bits)

    -- What the decoder's loop reads are those entries.
    reads_entry : (q : ℕ) → get q (read_entries 256 0 bits pointers) ≡ get q entries
    reads_entry q = get-read_entries 256 0 q bits pointers ∙ elim (Bool-cases (within 256 0 q)) [
      | inr t ↦ elim (Option-cases (get q entries)) [
        | inl off ↦
            ap (λ c. if c && has_bit q bits then some (pointer_at q pointers) else none) t ∙ sym off
        | inr (v, there) ↦ let (digit, word) = are q v there in absurd (ground arith)
      ]
      | inl t ↦
          let low : q < 256 = ground arith in
          let bit : has_bit q bits ≡ is_there (get q entries) =
            filled.bits q low
            ∙ ap (λ c. is_there (get q entries) || c) (clear q)
            ∙ or_false (is_there (get q entries)) in
          ap (λ c. if c && has_bit q bits then some (pointer_at q pointers) else none) t
          ∙ ap (λ c. if c then some (pointer_at q pointers) else none) bit
          ∙ elim (Option-cases (get q entries)) [
            | inl off ↦
                ap (λ o. if is_there o then some (pointer_at q pointers) else none) off ∙ sym off
            | inr (v, there) ↦
                ap (λ o. if is_there o then some (pointer_at q pointers) else none) there
                ∙ ap some (filled.values q v there)
                ∙ sym there
          ]
    ]

    pub decode_body-arrays :
        (epoch depth : ℕ)
        → (n : Node) × (decode_body epoch depth (length entries) (bits ++ pointers)
            ≡ some (epoch, n))
          × (n.depth ≡ depth)
          × ((q : ℕ) → get q n.entries ≡ get q entries)
    unfolding decode_body
    decode_body-arrays epoch depth =
        let read : Dict ℕ ℕ = read_entries 256 0 bits pointers in
        let size : length read ≡ length entries =
          length-read_entries 256 0 bits pointers ∙ omega (arith, filled.count, none_set) in
        let t : (length read == length entries) ≡ true = ground arith in
        let first : take 32 (bits ++ pointers) ≡ bits = take-append bits pointers 32 filled.width in
        let second : drop 32 (bits ++ pointers) ≡ pointers =
          drop-append bits pointers 32 filled.width in
        (record { depth = depth; entries = read }, rw (first, second, t) refl, refl, reads_entry)

module _ (crc32 : List ℕ → ℕ) where
  encode_entries-returns :
      (epoch depth : ℕ) (entries : Dict ℕ ℕ)
      → Unique entries
      → AreEntries entries
      → epoch < 2 ^ 64
      → encode_entries crc32 epoch depth entries
        ≡ ok (page_of crc32 epoch depth (length entries) (bits entries ++ pointers entries))
  unfolding encode_entries node_record
  encode_entries-returns epoch depth entries unique are word =
      let t1 : ltb 256 (length entries) ≡ false =
        let few = count_bound entries unique are in ground arith in
      let t2 : ltb epoch (2 ^ 64) ≡ true = ground arith in
      let body : List ℕ = bits entries ++ pointers entries in
      rw (t1, t2)
        (padded-is (record_of crc32 epoch depth (length entries) body) (
          length-record_of crc32 epoch depth (length entries) body
            (length-arrays entries unique are)))

  ok_same : {A : Type 0} (o : Outcome Fault A) (a b : A) → o ≡ ok a → o ≡ ok b → a ≡ b
  ok_same o a b is is' = ap (λ r. elim r [ ok x ↦ x | err e ↦ a ]) (sym is ∙ is')

  -- What is encoded is decoded: the epoch, the depth, and the entries in the order of the digits.
  pub decode-encode_node :
      (epoch : ℕ) (n : Node) (page : List ℕ)
      → encode_fixed_radix_node crc32 epoch n ≡ ok page
      → (n' : Node) × (decode_fixed_radix_node crc32 page ≡ some (epoch, n')) × Same n n'
  unfolding encode_fixed_radix_node encode_entries either get Unique
  decode-encode_node epoch n page run =
      let bad : Fault = Fault.bad_node in
      let coded : Dict ℕ ℕ → Outcome Fault (List ℕ) = encode_entries crc32 epoch n.depth in
      let (levels, run1) =
        past_guard (not (ltb n.depth 8)) bad (normalize_from [] n.entries >>= coded) page run in
      let (out, run2, normal) = passed coded (normalize_from [] n.entries) run1 in
      let is : IsNormal [] n.entries out = normalize-IsNormal n.entries [] out normal in
      let unique : Unique out = is.unique tt in
      let are : AreEntries out = is.are (λ d v there. absurd (cc)) in
      let (few, run3) =
        past_guard (ltb 256 (length out)) bad
          (if not (ltb epoch (2 ^ 64))
            then err bad
            else node_record crc32 epoch n.depth (length out) (fill out no_bits no_pointers))
          page run2 in
      let (word, run4) =
        past_guard (not (ltb epoch (2 ^ 64))) bad
          (node_record crc32 epoch n.depth (length out) (fill out no_bits no_pointers)) page run3 in
      let body : List ℕ = bits out ++ pointers out in
      let same : page_of crc32 epoch n.depth (length out) body ≡ page =
        ok_same (coded out) (page_of crc32 epoch n.depth (length out) body) page
          (encode_entries-returns epoch n.depth out unique are (ground arith)) run2 in
      let (n', read, depth, gets) = decode_body-arrays out unique are epoch n.depth in
      (
        n',
        ap (decode_fixed_radix_node crc32) (sym same)
            ∙ decode-page_of crc32 epoch n.depth (length out) body (length-arrays out unique are)
                (ground arith) (ground arith) (count_bound out unique are)
            ∙ read,
        record { depth = depth; entries = λ q. gets q ∙ is.gets q },
      )

  -- A node of at most 64-bit pointers at distinct digits is encoded.
  pub encode_node-returns :
      (epoch : ℕ) (n : Node)
      → epoch < 2 ^ 64
      → Fits n
      → (page : List ℕ) × (encode_fixed_radix_node crc32 epoch n ≡ ok page)
  unfolding encode_fixed_radix_node get Unique
  encode_node-returns epoch n word fits =
      let (out, run) =
        normalize_returns n.entries [] fits.unique fits.entries (λ q v there. refl) in
      let is : IsNormal [] n.entries out = normalize-IsNormal n.entries [] out run in
      let unique : Unique out = is.unique tt in
      let are : AreEntries out = is.are (λ d v there. absurd (cc)) in
      let low : n.depth < 8 = fits.depth in
      let t : ltb n.depth 8 ≡ true = ground arith in
      (
        page_of crc32 epoch n.depth (length out) (bits out ++ pointers out),
        rw (t, run) (encode_entries-returns epoch n.depth out unique are word),
      )

  -- A node of a depth below 8, of distinct digits below 256 and of pointers below 2^64 is encoded at any
  -- epoch below 2^64, and its page is decoded as that epoch and a node with the same depth and the same
  -- entries.
  pub encode_node-decode :
      (epoch : ℕ) (n : Node)
      → epoch < 2 ^ 64
      → Fits n
      → (page : List ℕ) × (n' : Node) × (encode_fixed_radix_node crc32 epoch n ≡ ok page)
        × (decode_fixed_radix_node crc32 page ≡ some (epoch, n'))
        × Same n n'
  encode_node-decode epoch n word fits =
      let (page, run) = encode_node-returns epoch n word fits in
      let (n', read, same) = decode-encode_node epoch n page run in (page, n', run, read, same)

  past_none :
      {A : Type 0} (c : Bool) (o : Option A) (a : A) → (if c then none else o) ≡ some a → o ≡ some a
  past_none true o a h = cc
  past_none false o a h = h

  pub decode_node-Unique :
      (page : List ℕ) (epoch : ℕ) (n : Node)
      → decode_fixed_radix_node crc32 page ≡ some (epoch, n)
      → Unique n.entries
  unfolding decode_fixed_radix_node decode_body
  decode_node-Unique page epoch n run =
      let depth : ℕ = of_be 0 (take 1 (drop 16 page)) in
      let count : ℕ = of_be 0 (take 2 (drop 17 page)) in
      let body : List ℕ = drop 23 (take 2103 page) in
      let entries : Dict ℕ ℕ = read_entries 256 0 (take 32 body) (drop 32 body) in
      let found : ℕ × Node =
        (of_be 0 (take 8 (drop 8 page)), record { depth = depth; entries = entries }) in
      let last : Option (ℕ × Node) = if not (length entries == count) then none else some found in
      let c3 : Bool =
        not (same_bytes (take 8 page) node31_magic) || not (ltb depth 8) || ltb 256 count in
      let c4 : Bool =
        not (checksum crc32 (take 19 page ++ body) == of_be 0 (take 4 (drop 19 page))) in
      let run1 =
        past_none (not (length page == 4096))
          (if ltb (length page) 2103 then none else if c3 then none else if c4 then none else last)
          (epoch, n) run in
      let run2 =
        past_none (ltb (length page) 2103) (if c3 then none else if c4 then none else last)
          (epoch, n) run1 in
      let run3 = past_none c3 (if c4 then none else last) (epoch, n) run2 in
      let run4 = past_none c4 last (epoch, n) run3 in
      let run5 = past_none (not (length entries == count)) (some found) (epoch, n) run4 in
      let both : found ≡ (epoch, n) = some_same run5 in
      subst (λ x. Unique x.1.entries) both (read_entries-Unique 256 0 (take 32 body) (drop 32 body))

  pub decode_node-missing : decode_fixed_radix_node crc32 [] ≡ none
  unfolding decode_fixed_radix_node
  decode_node-missing = refl

  pub decode_node-zeros : decode_fixed_radix_node crc32 (replicate page_bytes 0) ≡ none
  unfolding decode_fixed_radix_node
  decode_node-zeros = refl
