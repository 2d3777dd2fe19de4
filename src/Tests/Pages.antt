-- ===== src/Tests/Pages.antt =====
-- The descriptor pages at concrete payloads; the checksum is the sum of the bytes.
use durable_infinite_context.Prelude.{
  err, ok, ℕ, ◌+◌, ◌≡◌, ◌≢◌, refl, inl, Option, some, none, List, [], ◌∷◌, arith, length,
}
use durable_infinite_context.Prelude.Bytes.{to_be, of_be}
use durable_infinite_context.Descriptor.{
  page_size, null_page, Payload, Result, encode_descriptor, decode_descriptor, write_record,
  ownership_values, encode_reference, pack, unpack, field_at, decode_values, decode_reference,
}
use durable_infinite_context.Descriptor.RoundTrip.{decode-encode_descriptor, last_page_unreadable}
use durable_infinite_context.Descriptor.Copies.{File, offset, pwrite, read, write_existing}

sum_bytes : List ℕ → ℕ
sum_bytes [] = 0
sum_bytes (b ∷ bs) = b + sum_bytes bs

abbrev queued : ℕ → Option ℕ → Payload
queued incarnation cursor = record {
  incarnation = incarnation;
  status = 1;
  generation = some 7;
  cursor_header_page = cursor;
  remaining_segments = 3;
  next_descriptor_page = none;
  next_descriptor_incarnation = none;
}

-- the page of an encoded payload
page_of : Result (List ℕ) → List ℕ
page_of (ok page) = page
page_of (err e) = []

abbrev page : ℕ → ℕ → Option ℕ → List ℕ
page epoch incarnation cursor =
    page_of (encode_descriptor sum_bytes epoch (queued incarnation cursor))

encoded : encode_descriptor sum_bytes 5 (queued 1 (some 9)) ≡ ok (page 5 1 (some 9))
unfolding encode_descriptor write_record ownership_values encode_reference pack to_be sum_bytes
    page_of
encoded = refl

not_last : some 9 ≢ some null_page
not_last = ground arith

no_next : none ≢ some null_page
no_next = cc

decode-encode_descriptor_example :
    (length (page 5 1 (some 9)) ≡ page_size)
    × (decode_descriptor sum_bytes (page 5 1 (some 9)) ≡ some (5, queued 1 (some 9)))
decode-encode_descriptor_example =
    decode-encode_descriptor sum_bytes 5 (queued 1 (some 9)) (page 5 1 (some 9)) not_last no_next
      encoded

encoded_last :
    encode_descriptor sum_bytes 5 (queued 1 (some null_page)) ≡ ok (page 5 1 (some null_page))
unfolding encode_descriptor write_record ownership_values encode_reference pack to_be sum_bytes
    page_of
encoded_last = refl

last_page_unreadable_example : decode_descriptor sum_bytes (page 5 1 (some null_page)) ≡ none
last_page_unreadable_example =
    last_page_unreadable sum_bytes 5 (queued 1 (some null_page)) (page 5 1 (some null_page))
      (inl refl) encoded_last

-- A descriptor at pages 2 and 3, written at epoch 5 and updated at epoch 6 to incarnation 2.
blank_file : File
blank_file i = []

written : File
unfolding blank_file
written = pwrite blank_file (page 5 1 (some 9)) (offset 2 0)

updated : File
updated = pwrite written (page 6 2 (some 9)) (offset 2 1)

-- everything that a run of the codec and the store computes with
run : Unit {0}
unfolding read pwrite offset written updated write_existing decode_descriptor decode_values unpack
    field_at decode_reference of_be encode_descriptor write_record ownership_values encode_reference
    pack to_be sum_bytes page_of
run = tt
