-- ===== src/Radix/Codec/Layout.antt =====
-- The record of a node: the pieces of its page, and what the decoder makes of them.
use mathlib.Core.List.{append_assoc}
use durable_infinite_context.Prelude.{
  ℕ, ◌-◌, ◌^◌, ◌<◌, ◌≤◌, ◌≡◌, true, false, List, [], ◌++◌, ltb, ◌==◌, arith, refl, ap, ◌∙◌, length,
  length-append, length-replicate, replicate, ok,
}
use durable_infinite_context.Prelude.Bytes.{
  to_be, of_be, take, drop, length-to_be, take-append, drop-append, of_be-to_be,
}
use durable_infinite_context.Prelude.Dicts.{number_key}
use durable_infinite_context.Descriptor.{checksum, same_bytes}
use durable_infinite_context.Radix.Codec.{
  page_bytes, node31_magic, sealed, node_prefix, padded, decode_body, decode_fixed_radix_node,
}
use durable_infinite_context.Radix.Codec.Pages.{
  same_bytes_refl, ==-refl, piece, checksum_bound, reads_magic, reads_epoch,
}

-- a page of the pieces of a node's record
module _ (magic e d c sum body zeros : List ℕ) (page : List ℕ)
    (is : page ≡ magic ++ e ++ d ++ c ++ sum ++ body ++ zeros) (m8 : length magic ≡ 8)
    (e8 : length e ≡ 8) (d1 : length d ≡ 1) (c2 : length c ≡ 2) (s4 : length sum ≡ 4)
    (b2080 : length body ≡ 2080) where
  abbrev header : List ℕ
  header = magic ++ e ++ d ++ c

  behind_prefix : page ≡ header ++ (sum ++ (body ++ zeros))
  behind_prefix =
      is ∙ append_assoc (header ++ sum) body zeros ∙ append_assoc header sum (body ++ zeros)

  behind_depth : page ≡ magic ++ e ++ d ++ (c ++ (sum ++ (body ++ zeros)))
  behind_depth = behind_prefix ∙ append_assoc (magic ++ e ++ d) c (sum ++ (body ++ zeros))

  pub behind_epoch : page ≡ magic ++ e ++ (d ++ (c ++ (sum ++ (body ++ zeros))))
  behind_epoch = behind_depth ∙ append_assoc (magic ++ e) d (c ++ (sum ++ (body ++ zeros)))

  length-epoch : length (magic ++ e) ≡ 16
  length-epoch = omega (arith, length-append magic e)

  length-depth : length (magic ++ e ++ d) ≡ 17
  length-depth = omega (arith, length-append (magic ++ e) d, length-epoch)

  length-prefix : length header ≡ 19
  length-prefix = omega (arith, length-append (magic ++ e ++ d) c, length-depth)

  length-sum : length (header ++ sum) ≡ 23
  length-sum = omega (arith, length-append header sum, length-prefix)

  pub length-record : length (header ++ sum ++ body) ≡ 2103
  length-record = omega (arith, length-append (header ++ sum) body, length-sum)

  pub reads_depth : take 1 (drop 16 page) ≡ d
  reads_depth =
      piece (magic ++ e) d (c ++ (sum ++ (body ++ zeros))) page 1 16 behind_epoch length-epoch d1

  pub reads_count : take 2 (drop 17 page) ≡ c
  reads_count =
      piece (magic ++ e ++ d) c (sum ++ (body ++ zeros)) page 2 17 behind_depth length-depth c2

  pub reads_sum : take 4 (drop 19 page) ≡ sum
  reads_sum = piece header sum (body ++ zeros) page 4 19 behind_prefix length-prefix s4

  pub reads_prefix : take 19 page ≡ header
  reads_prefix =
      ap (take 19) behind_prefix ∙ take-append header (sum ++ (body ++ zeros)) 19 length-prefix

  pub reads_body : drop 23 (take 2103 page) ≡ body
  reads_body =
      ap (λ l. drop 23 (take 2103 l)) is
      ∙ ap (drop 23) (take-append (header ++ sum ++ body) zeros 2103 length-record)
      ∙ drop-append (header ++ sum) body 23 length-sum

below : (a b : ℕ) → a < b → ltb a b ≡ true
below a b lt = ground arith

at_most : (a b : ℕ) → a ≤ b → ltb b a ≡ false
at_most a b le = ground arith

pub padded-is :
    (record_of : List ℕ)
    → length record_of ≡ 2103
    → padded record_of ≡ ok (record_of ++ replicate (page_bytes - length record_of) 0)
unfolding padded
padded-is record_of size =
    let t1 : (length record_of == 2103) ≡ true = ground arith in
    let t2 : ltb 4096 (length record_of) ≡ false = ground arith in rw (t1, t2) refl

pub length-padded :
    (record_of : List ℕ)
    → length record_of ≡ 2103
    → length (record_of ++ replicate (page_bytes - length record_of) 0) ≡ page_bytes
length-padded record_of size =
    let zero : ℕ = 0 in
    omega (
      arith,
      length-append record_of (replicate (page_bytes - length record_of) zero),
      length-replicate (page_bytes - length record_of) zero,
    )

module _ (crc32 : List ℕ → ℕ) where
  -- A page whose fields were read passes the checks.
  pub decode-fields :
      (page prefix body : List ℕ) (epoch depth count : ℕ)
      → length page ≡ page_bytes
      → take 8 page ≡ node31_magic
      → of_be 0 (take 8 (drop 8 page)) ≡ epoch
      → of_be 0 (take 1 (drop 16 page)) ≡ depth
      → of_be 0 (take 2 (drop 17 page)) ≡ count
      → take 19 page ≡ prefix
      → drop 23 (take 2103 page) ≡ body
      → of_be 0 (take 4 (drop 19 page)) ≡ checksum crc32 (prefix ++ body)
      → depth < 8
      → count ≤ 256
      → decode_fixed_radix_node crc32 page ≡ decode_body epoch depth count body
  unfolding decode_fixed_radix_node
  decode-fields page prefix body epoch depth count full magic first levels fanout front rest stored
        low few =
      let t1 : (length page == 4096) ≡ true = ap (λ k. k == 4096) full in
      let t2 : ltb (length page) 2103 ≡ false = ap (λ k. ltb k 2103) full in
      let t3 : same_bytes (take 8 page) node31_magic ≡ true =
        ap (λ l. same_bytes l node31_magic) magic ∙ same_bytes_refl node31_magic in
      let t4 : ltb depth 8 ≡ true = below depth 8 low in
      let t5 : ltb 256 count ≡ false = at_most count 256 few in
      let t6 : (checksum crc32 (prefix ++ body) == checksum crc32 (prefix ++ body)) ≡ true =
        ==-refl (checksum crc32 (prefix ++ body)) in
      rw (t1, t2, t3, levels, fanout, t4, t5, rest, front, stored, t6, first) refl

  abbrev pub body_sum : ℕ → ℕ → ℕ → List ℕ → ℕ
  body_sum epoch depth count body = checksum crc32 (node_prefix epoch depth count ++ body)

  abbrev pub record_of : ℕ → ℕ → ℕ → List ℕ → List ℕ
  record_of epoch depth count body =
      node_prefix epoch depth count ++ to_be 4 (body_sum epoch depth count body) ++ body

  abbrev pub page_of : ℕ → ℕ → ℕ → List ℕ → List ℕ
  page_of epoch depth count body =
      let r = record_of epoch depth count body in r ++ replicate (page_bytes - length r) 0

  module _ (epoch depth count : ℕ) (body : List ℕ) (b2080 : length body ≡ 2080) where
    pub length-record_of : length (record_of epoch depth count body) ≡ 2103
    length-record_of =
        length-record node31_magic (to_be 8 epoch) (to_be 1 depth) (to_be 2 count)
          (to_be 4 (body_sum epoch depth count body)) body [] _ refl refl (length-to_be 8 epoch)
          (length-to_be 1 depth) (length-to_be 2 count)
          (length-to_be 4 (body_sum epoch depth count body)) b2080

    -- The page of a node reads as its fields.
    pub decode-page_of :
        epoch < 2 ^ 64
        → depth < 8
        → count ≤ 256
        → decode_fixed_radix_node crc32 (page_of epoch depth count body)
          ≡ decode_body epoch depth count body
    decode-page_of word low few =
        let s : ℕ = body_sum epoch depth count body in
        let sum : List ℕ = to_be 4 s in
        let page : List ℕ = page_of epoch depth count body in
        let zeros : List ℕ = replicate (page_bytes - length (record_of epoch depth count body)) 0 in
        let e8 = length-to_be 8 epoch in
        let d1 = length-to_be 1 depth in
        let c2 = length-to_be 2 count in
        let s4 = length-to_be 4 s in
        let tail : List ℕ = to_be 1 depth ++ (to_be 2 count ++ (sum ++ (body ++ zeros))) in
        let front : page ≡ sealed node31_magic epoch ++ tail =
          behind_epoch node31_magic (to_be 8 epoch) (to_be 1 depth) (to_be 2 count) sum body zeros
            page refl refl e8 d1 c2 s4 b2080 in
        decode-fields page (node_prefix epoch depth count) body epoch depth count
          (length-padded (record_of epoch depth count body) length-record_of)
          (reads_magic node31_magic tail page epoch front refl)
          (reads_epoch node31_magic tail page epoch front refl word)
          (ap (of_be 0) (
              reads_depth node31_magic (to_be 8 epoch) (to_be 1 depth) (to_be 2 count) sum body
                zeros page refl refl e8 d1 c2 s4 b2080)
            ∙ of_be-to_be 1 depth (omega arith))
          (ap (of_be 0) (
              reads_count node31_magic (to_be 8 epoch) (to_be 1 depth) (to_be 2 count) sum body
                zeros page refl refl e8 d1 c2 s4 b2080)
            ∙ of_be-to_be 2 count (omega arith))
          (reads_prefix node31_magic (to_be 8 epoch) (to_be 1 depth) (to_be 2 count) sum body zeros
            page refl refl e8 d1 c2 s4 b2080)
          (reads_body node31_magic (to_be 8 epoch) (to_be 1 depth) (to_be 2 count) sum body zeros
            page refl refl e8 d1 c2 s4 b2080)
          (ap (of_be 0) (
              reads_sum node31_magic (to_be 8 epoch) (to_be 1 depth) (to_be 2 count) sum body zeros
                page refl refl e8 d1 c2 s4 b2080)
            ∙ of_be-to_be 4 s (checksum_bound crc32 (node_prefix epoch depth count ++ body)))
          low few
