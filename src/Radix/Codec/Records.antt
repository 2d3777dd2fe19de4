-- ===== src/Radix/Codec/Records.antt =====
-- `_pack_record` against `_unpack_record`, and the laws that a store needs of its pages.
use mathlib.Core.List.{append_assoc}
use durable_infinite_context.Prelude.{
  ℕ, ◌-◌, ◌^◌, ◌<◌, ◌≤◌, ◌≡◌, true, false, not, Option, none, some, List, [], ◌++◌, ltb, ◌==◌,
  if◌then◌else◌, arith, refl, sym, ap, ◌∙◌, length, length-append, length-replicate, replicate, ok,
  err,
}
use durable_infinite_context.Prelude.Bytes.{to_be, of_be, take, drop, length-to_be}
use durable_infinite_context.Descriptor.{checksum, same_bytes}
use durable_infinite_context.Radix.{Meta, Fault}
use durable_infinite_context.Radix.Disk.{IsFormat}
use durable_infinite_context.Radix.Codec.{
  page_bytes, max_payload, super_magic, sealed, pack_record, unpack_record, paged,
}
use durable_infinite_context.Radix.Codec.Pages.{
  same_bytes_refl, ==-refl, piece, number, checksum_bound, length-sealed, reads_magic, reads_epoch,
}
use durable_infinite_context.Radix.Codec.Normal.{past_guard}
use durable_infinite_context.Radix.Codec.Nodes.{
  decode-encode_node, encode_node-returns, decode_node-Unique, decode_node-missing,
  decode_node-zeros,
}

module _ (crc32 : List ℕ → ℕ) (magic : List ℕ) (epoch : ℕ) (raw : List ℕ) where
  abbrev heading : List ℕ
  heading = sealed magic epoch ++ to_be 4 (length raw)

  abbrev sum : ℕ
  sum = checksum crc32 (heading ++ raw)

  abbrev zeros : List ℕ
  zeros = replicate (max_payload - length raw) 0

  abbrev pub packed : List ℕ
  packed = heading ++ to_be 4 sum ++ raw ++ zeros

  pub pack_record-returns :
      length raw ≤ max_payload → epoch < 2 ^ 64 → pack_record crc32 magic epoch raw ≡ ok packed
  unfolding pack_record
  pack_record-returns fits word =
      let t1 : ltb 4072 (length raw) ≡ false = ground arith in
      let t2 : ltb epoch (2 ^ 64) ≡ true = ground arith in rw (t1, t2) refl

  pub pack_record-fits :
      (page : List ℕ)
      → pack_record crc32 magic epoch raw ≡ ok page
      → (length raw ≤ max_payload) × (epoch < 2 ^ 64) × (packed ≡ page)
  unfolding pack_record
  pack_record-fits page run =
      let bad : Fault = Fault.bad_super in
      let (fits, run1) =
        past_guard (ltb 4072 (length raw)) bad
          (if not (ltb epoch (2 ^ 64)) then err bad else ok packed) page run in
      let (word, run2) = past_guard (not (ltb epoch (2 ^ 64))) bad (ok packed) page run1 in
      (ground arith, ground arith, ap (λ o. elim o [ ok x ↦ x | err e ↦ packed ]) run2)

  module _ (m8 : length magic ≡ 8) (fits : length raw ≤ max_payload) (word : epoch < 2 ^ 64) where
    behind_heading : packed ≡ heading ++ (to_be 4 sum ++ (raw ++ zeros))
    behind_heading =
        append_assoc (heading ++ to_be 4 sum) raw zeros
        ∙ append_assoc heading (to_be 4 sum) (raw ++ zeros)

    behind_sum : packed ≡ (heading ++ to_be 4 sum) ++ (raw ++ zeros)
    behind_sum = append_assoc (heading ++ to_be 4 sum) raw zeros

    behind_epoch :
        packed ≡ sealed magic epoch ++ (to_be 4 (length raw) ++ (to_be 4 sum ++ (raw ++ zeros)))
    behind_epoch =
        behind_heading
        ∙ append_assoc (sealed magic epoch) (to_be 4 (length raw)) (to_be 4 sum ++ (raw ++ zeros))

    length-heading : length heading ≡ 20
    length-heading = omega (
      arith,
      length-append (sealed magic epoch) (to_be 4 (length raw)),
      length-sealed magic epoch m8,
      length-to_be 4 (length raw),
    )

    length-both : length (heading ++ to_be 4 sum) ≡ 24
    length-both =
        omega (arith, length-append heading (to_be 4 sum), length-heading, length-to_be 4 sum)

    pub length-packed : length packed ≡ page_bytes
    length-packed =
        let nil : ℕ = 0 in
        omega (
          arith,
          length-append (heading ++ to_be 4 sum ++ raw) zeros,
          length-append (heading ++ to_be 4 sum) raw,
          length-both,
          length-replicate (max_payload - length raw) nil,
        )

    pub reads_first : take 8 packed ≡ magic
    reads_first = reads_magic magic _ packed epoch behind_epoch m8

    pub reads_second : of_be 0 (take 8 (drop 8 packed)) ≡ epoch
    reads_second = reads_epoch magic _ packed epoch behind_epoch m8 word

    pub reads_size : of_be 0 (take 4 (drop 16 packed)) ≡ length raw
    reads_size =
        number (sealed magic epoch) (to_be 4 sum ++ (raw ++ zeros)) packed 4 16 (length raw)
          behind_epoch (length-sealed magic epoch m8) (omega arith)

    pub reads_sum : of_be 0 (take 4 (drop 20 packed)) ≡ sum
    reads_sum =
        number heading (raw ++ zeros) packed 4 20 sum behind_heading length-heading
          (checksum_bound crc32 (heading ++ raw))

    pub reads_raw : take (length raw) (drop 24 packed) ≡ raw
    reads_raw =
        piece (heading ++ to_be 4 sum) raw zeros packed (length raw) 24 behind_sum length-both refl

module _ (crc32 : List ℕ → ℕ) {R : Type 0} (loads : List ℕ → Option (Meta R)) where
  -- A page whose fields were read passes the checks.
  unpack-fields :
      (magic page raw : List ℕ) (epoch : ℕ) (m : Meta R)
      → length page ≡ page_bytes
      → take 8 page ≡ magic
      → of_be 0 (take 8 (drop 8 page)) ≡ epoch
      → of_be 0 (take 4 (drop 16 page)) ≡ length raw
      → take (length raw) (drop 24 page) ≡ raw
      → of_be 0 (take 4 (drop 20 page))
        ≡ checksum crc32 (magic ++ to_be 8 epoch ++ to_be 4 (length raw) ++ raw)
      → length raw ≤ max_payload
      → loads raw ≡ some m
      → unpack_record crc32 loads magic page ≡ some (epoch, m)
  unfolding unpack_record
  unpack-fields magic page raw epoch m full first second size rest stored fits loaded =
      let s : ℕ = checksum crc32 (magic ++ to_be 8 epoch ++ to_be 4 (length raw) ++ raw) in
      let t1 : (length page == 4096) ≡ true = ap (λ k. k == 4096) full in
      let t2 : same_bytes magic magic ≡ true = same_bytes_refl magic in
      let t3 : ltb 4072 (length raw) ≡ false = ground arith in
      let t4 : (s == s) ≡ true = ==-refl s in
      rw (t1, first, t2, size, t3, rest, second, stored, t4, loaded) (ap (λ e. some (e, m)) second)

  unpack-pack :
      (magic : List ℕ) (epoch : ℕ) (raw page : List ℕ) (m : Meta R)
      → length magic ≡ 8
      → loads raw ≡ some m
      → pack_record crc32 magic epoch raw ≡ ok page
      → unpack_record crc32 loads magic page ≡ some (epoch, m)
  unpack-pack magic epoch raw page m m8 loaded run =
      let (fits, word, is) = pack_record-fits crc32 magic epoch raw page run in
      ap (unpack_record crc32 loads magic) (sym is)
      ∙ unpack-fields magic (packed crc32 magic epoch raw) raw epoch m
          (length-packed crc32 magic epoch raw m8 fits word)
          (reads_first crc32 magic epoch raw m8 fits word)
          (reads_second crc32 magic epoch raw m8 fits word)
          (reads_size crc32 magic epoch raw m8 fits word)
          (reads_raw crc32 magic epoch raw m8 fits word)
          (reads_sum crc32 magic epoch raw m8 fits word) fits loaded

  unpack-missing : unpack_record crc32 loads super_magic [] ≡ none
  unfolding unpack_record
  unpack-missing = refl

  unpack-zeros : unpack_record crc32 loads super_magic (replicate page_bytes 0) ≡ none
  unfolding unpack_record
  unpack-zeros = refl

  -- The pages of the store are read back, if what json.dumps returns is loaded as it was.
  pub paged-IsFormat :
      (dumps : Meta R → List ℕ)
      → ((m : Meta R) → loads (dumps m) ≡ some m)
      → IsFormat (paged crc32 dumps loads)
  paged-IsFormat dumps loaded = record {
    missing = decode_node-missing crc32;
    zeros = decode_node-zeros crc32;
    missing_super = unpack-missing;
    zeros_super = unpack-zeros;
    node = decode-encode_node crc32;
    fits = encode_node-returns crc32;
    unique = decode_node-Unique crc32;
    super = λ epoch m page run. unpack-pack super_magic epoch (dumps m) page m refl (loaded m) run;
  }
