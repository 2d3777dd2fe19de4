-- ===== src/Descriptor.antt =====
-- storage/retirement_descriptor_pool.py: the descriptor page codec. A page is a list of bytes; crc32 is
-- zlib's and a parameter. int() of an int is the int itself, so it has no counterpart, and negative
-- arguments are not modelled.
pub mod Copies
pub mod Encoded
pub mod Fields
pub mod RoundTrip
pub mod Versions
use Prim.Native.Nat.{bit_and}
use durable_infinite_context.Prelude.{
  Outcome, err, ok, ◌>>=◌, ℕ, ◌+◌, ◌-◌, ◌*◌, ◌^◌, Bool, true, false, ◌||◌, ◌&&◌, not, Option, none,
  some, List, [], ◌∷◌, ◌++◌, ltb, leb, ◌==◌, if◌then◌else◌, length, replicate,
}
use durable_infinite_context.Prelude.Bytes.{to_be, of_be, take, drop}

-- NULL_PAGE and MAX_PHYSICAL_PAGE_ID of the modules that this one imports: both 2^64 - 1
abbrev pub null_page : ℕ
null_page = 2 ^ 64 - 1

abbrev pub max_physical_page_id : ℕ
max_physical_page_id = 2 ^ 64 - 1

abbrev pub page_size : ℕ
page_size = 4096

-- b"DICRET35"
abbrev pub magic : List ℕ
magic = b'D' ∷ b'I' ∷ b'C' ∷ b'R' ∷ b'E' ∷ b'T' ∷ b'3' ∷ b'5' ∷ []

abbrev pub status_queued : ℕ
status_queued = 1

abbrev pub status_free : ℕ
status_free = 2

abbrev pub prefix_size : ℕ
prefix_size = 72

abbrev pub used_bytes : ℕ
used_bytes = 76

-- the ValueErrors, the AssertionError on the layout, the RuntimeErrors of `read`, and the OSError of a write
pub data Error : Type 0 where
  bad_reference bad_epoch bad_incarnation bad_status bad_queued bad_cursor bad_free layout_drifted :
      Error
  no_valid_descriptor incarnation_mismatch status_mismatch negative_offset : Error

abbrev pub Result {ℓ} : Type ℓ → Type ℓ
Result A = Outcome Error A

unfoldable pub encode_reference : Option ℕ → Option ℕ → Result (ℕ × ℕ)
encode_reference none none = ok (null_page, 0)
encode_reference none (some i) = err bad_reference
encode_reference (some p) none = err bad_reference
encode_reference (some p) (some i) =
    if i == 0
    then err bad_reference
    else if ltb max_physical_page_id p
    then err bad_reference
    else if ltb null_page i
    then err bad_reference
    else ok (p, i)

unfoldable pub decode_reference : ℕ → ℕ → Result (Option ℕ × Option ℕ)
decode_reference p i =
    if p == null_page
    then (if i == 0 then ok (none, none) else err bad_reference)
    else if ltb max_physical_page_id p
    then err bad_reference
    else if i == 0 || ltb null_page i
    then err bad_reference
    else ok (some p, some i)

-- the payload of a descriptor: the keyword arguments of the encoder, the dict of the decoder
pub record Payload : Type 0 where
  pub incarnation : ℕ
  pub status : ℕ
  pub generation : Option ℕ
  pub cursor_header_page : Option ℕ
  pub remaining_segments : ℕ
  pub next_descriptor_page : Option ℕ
  pub next_descriptor_incarnation : Option ℕ

-- `generation_value` and `cursor_value`, with the checks of the two statuses
unfoldable pub ownership_values : Payload → Result (ℕ × ℕ)
ownership_values p =
    if p.status == status_queued
    then elim p.generation [
      | none ↦ err bad_queued
      | some g ↦ if ltb null_page g then err bad_queued else elim p.cursor_header_page [
        | none ↦ err bad_queued
        | some c ↦
            if p.remaining_segments == 0 || ltb null_page p.remaining_segments
            then err bad_queued
            else if ltb max_physical_page_id c
            then err bad_cursor
            else ok (g, c)
      ]
    ]
    else elim p.generation [
      | some g ↦ err bad_free
      | none ↦ elim p.cursor_header_page [
        | some c ↦ err bad_free
        | none ↦ if p.remaining_segments == 0 then ok (null_page, null_page) else err bad_free
      ]
    ]

unfoldable pub pack : List (List ℕ) → List ℕ
pack [] = []
pack (field ∷ fields) = field ++ pack fields

abbrev pub fields_of : ℕ → ℕ → ℕ → ℕ → ℕ → ℕ → ℕ → ℕ → List (List ℕ)
fields_of epoch incarnation status generation cursor remaining next_page next_incarnation =
    magic
    ∷ to_be 8 epoch
    ∷ to_be 8 incarnation
    ∷ to_be 8 status
    ∷ to_be 8 generation
    ∷ to_be 8 cursor
    ∷ to_be 8 remaining
    ∷ to_be 8 next_page
    ∷ to_be 8 next_incarnation
    ∷ []

-- the k-th of the fields of 8 bytes, the magic being the 0th
unfoldable pub field_at : ℕ → List ℕ → List ℕ
field_at k page = take 8 (drop (8 * k) page)

abbrev pub same_bytes : List ℕ → List ℕ → Bool
same_bytes [] [] = true
same_bytes (a ∷ xs) (b ∷ ys) = a == b && same_bytes xs ys
same_bytes _ _ = false

-- what `struct.unpack` returns behind the magic
pub record Values : Type 0 where
  pub epoch : ℕ
  pub incarnation : ℕ
  pub status : ℕ
  pub generation : ℕ
  pub cursor : ℕ
  pub remaining : ℕ
  pub next_page : ℕ
  pub next_incarnation : ℕ

unfoldable pub unpack : List ℕ → Values
unpack page =
    let number = λ (k : ℕ). of_be 0 (field_at k page) in
    record {
      epoch = number 1;
      incarnation = number 2;
      status = number 3;
      generation = number 4;
      cursor = number 5;
      remaining = number 6;
      next_page = number 7;
      next_incarnation = number 8;
    }

abbrev payload_of : Values → Option ℕ → Option ℕ → Option ℕ × Option ℕ → Option (ℕ × Payload)
payload_of v generation cursor next = some (
  v.epoch,
  record {
    incarnation = v.incarnation;
    status = v.status;
    generation = generation;
    cursor_header_page = cursor;
    remaining_segments = v.remaining;
    next_descriptor_page = next.0;
    next_descriptor_incarnation = next.1;
  },
)

-- the checks and the payload of a page with the magic and a good checksum
unfoldable pub decode_values : Values → Option (ℕ × Payload)
decode_values v =
    if v.incarnation == 0
    then none
    else if not (v.status == status_queued || v.status == status_free)
    then none
    else elim (decode_reference v.next_page v.next_incarnation) [
      | err e ↦ none
      | ok next ↦
          if v.status == status_queued
          then (if v.remaining == 0 || v.cursor == null_page
              then none
              else payload_of v (some v.generation) (some v.cursor) next)
          else if not (v.generation == null_page)
              || not (v.cursor == null_page)
              || not (v.remaining == 0)
          then none
          else payload_of v none none next
    ]

module _ (crc32 : List ℕ → ℕ) where
  abbrev pub checksum : List ℕ → ℕ
  checksum prefix = bit_and (crc32 prefix) (2 ^ 32 - 1)

  -- the record with its checksum, padded to a page
  unfoldable pub write_record : ℕ → Payload → ℕ × ℕ → ℕ × ℕ → Result (List ℕ)
  write_record epoch p values next =
      let prefix = pack (
        fields_of epoch p.incarnation p.status values.0 values.1 p.remaining_segments next.0
          next.1) in
      let body = prefix ++ to_be 4 (checksum prefix) in
      if not (length body == used_bytes) || ltb page_size (length body)
      then err layout_drifted
      else ok (body ++ replicate (page_size - length body) 0)

  abbrev pub encode_links : ℕ → Payload → Result (List ℕ)
  encode_links epoch p = ownership_values p >>= λ values.
      encode_reference p.next_descriptor_page p.next_descriptor_incarnation
      >>= write_record epoch p values

  unfoldable pub encode_descriptor : ℕ → Payload → Result (List ℕ)
  encode_descriptor epoch p =
      if ltb null_page epoch
      then err bad_epoch
      else if p.incarnation == 0 || ltb null_page p.incarnation
      then err bad_incarnation
      else if not (p.status == status_queued || p.status == status_free)
      then err bad_status
      else encode_links epoch p

  unfoldable pub decode_descriptor : List ℕ → Option (ℕ × Payload)
  decode_descriptor page =
      if not (length page == page_size)
      then none
      else if not (same_bytes (field_at 0 page) magic)
          || not (checksum (take prefix_size page) == of_be 0 (take 4 (drop prefix_size page)))
      then none
      else decode_values (unpack page)
