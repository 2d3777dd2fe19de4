-- ===== src/Descriptor/Encoded.antt =====
-- What a page that encode_descriptor returned holds.
use durable_infinite_context.Prelude.{
  passed, ok, ℕ, ◌-◌, ◌≤◌, ◌<◌, ◌≡◌, ◌⊎◌, refl, ap, ◌∙◌, inl, inr, Option, none, some, List, ◌++◌,
  arith, length, replicate, length-append, length-replicate,
}
use durable_infinite_context.Prelude.Bytes.{length-to_be}
use durable_infinite_context.Descriptor.{
  null_page, page_size, status_queued, status_free, used_bytes, encode_reference, Payload,
  ownership_values, fields_of, encode_descriptor, decode_values, decode_descriptor, encode_links,
  write_record,
}
use durable_infinite_context.Descriptor.Fields.{AllEight, body_of, values_of, reads, header}

-- What the guards of the encoder have established.
record Checked (epoch : ℕ) (p : Payload) : Type 0 where
  epoch_fits : epoch ≤ null_page
  positive : 0 < p.incarnation
  incarnation_fits : p.incarnation ≤ null_page
  known : (p.status ≡ status_queued) ⊎ (p.status ≡ status_free)

pub data Owned (p : Payload) (g c : ℕ) : Type 0 where
  queued :
      p.status ≡ status_queued
      → p.generation ≡ some g
      → p.cursor_header_page ≡ some c
      → 0 < p.remaining_segments
      → p.remaining_segments ≤ null_page
      → g ≤ null_page
      → c ≤ null_page
      → Owned p g c
  free :
      p.status ≡ status_free
      → p.generation ≡ none
      → p.cursor_header_page ≡ none
      → p.remaining_segments ≡ 0
      → g ≡ null_page
      → c ≡ null_page
      → Owned p g c

ownership_values-Owned :
    (p : Payload) (g c : ℕ)
    → (p.status ≡ status_queued) ⊎ (p.status ≡ status_free)
    → ownership_values p ≡ ok (g, c)
    → Owned p g c
unfolding ownership_values
ownership_values-Owned p g c (inl is) run =
    queued is (ground arith) (ground arith) (ground arith) (ground arith) (ground arith)
      (ground arith)
ownership_values-Owned p g c (inr is) run =
    free is (ground arith) (ground arith) (ground arith) (ground arith) (ground arith)

reference_fits :
    (a i : Option ℕ) (np ni : ℕ)
    → encode_reference a i ≡ ok (np, ni)
    → (np ≤ null_page) × (ni ≤ null_page)
unfolding encode_reference
reference_fits a i np ni run = ground arith

status_fits :
    (p : Payload) (g c : ℕ)
    → Owned p g c
    → (p.status ≤ null_page)
      × (p.remaining_segments ≤ null_page)
      × (g ≤ null_page)
      × (c ≤ null_page)
status_fits p g c (queued is gen cur rem rem' fits fits') = omega arith
status_fits p g c (free is gen cur rem fits fits') = omega arith

page_width :
    (body : List ℕ)
    → length body ≡ used_bytes
    → length (body ++ replicate (page_size - length body) 0) ≡ page_size
page_width body e = omega (
  arith,
  length-append body (replicate (page_size - length body) 0),
  length-replicate {A = ℕ} (page_size - length body) 0,
)

module _ (crc32 : List ℕ → ℕ) where
  checked :
      (epoch : ℕ) (p : Payload) (page : List ℕ)
      → encode_descriptor crc32 epoch p ≡ ok page
      → Checked epoch p × (encode_links crc32 epoch p ≡ ok page)
  unfolding encode_descriptor
  checked epoch p page run = (ground arith, ground arith)

  -- A page is the packed fields, their checksum and zeros.
  written :
      (epoch : ℕ) (p : Payload) (values next : ℕ × ℕ) (page : List ℕ)
      → write_record crc32 epoch p values next ≡ ok page
      → let fs =
          fields_of epoch p.incarnation p.status values.0 values.1 p.remaining_segments next.0
            next.1 in
        (page ≡ body_of crc32 fs ++ replicate (page_size - length (body_of crc32 fs)) 0)
        × (length (body_of crc32 fs) ≡ used_bytes)
  unfolding write_record
  written epoch p values next page run = (ground arith, ground arith)

  -- What an encoded page holds.
  pub record Encoded (epoch : ℕ) (p : Payload) (page : List ℕ) : Type 0 where
    pub g : ℕ
    pub c : ℕ
    pub np : ℕ
    pub ni : ℕ
    pub positive : 0 < p.incarnation
    pub owned : Owned p g c
    pub linked : encode_reference p.next_descriptor_page p.next_descriptor_incarnation ≡ ok (np, ni)
    pub width : length page ≡ page_size
    pub decoded :
        decode_descriptor crc32 page
        ≡ decode_values (values_of epoch p.incarnation p.status g c p.remaining_segments np ni)

  pub encode_descriptor-Encoded :
      (epoch : ℕ) (p : Payload) (page : List ℕ)
      → encode_descriptor crc32 epoch p ≡ ok page
      → Encoded epoch p page
  encode_descriptor-Encoded epoch p page run =
      let (k, run₁) = checked epoch p page run in
      let (values, run₂, owned) = passed _ (ownership_values p) run₁ in
      let (next, run₃, linked) =
        passed _ (encode_reference p.next_descriptor_page p.next_descriptor_incarnation) run₂ in
      let g = values.0 in
      let c = values.1 in
      let np = next.0 in
      let ni = next.1 in
      let fs = fields_of epoch p.incarnation p.status g c p.remaining_segments np ni in
      let all : AllEight fs = omega (arith, length-to_be) in
      let rest = replicate (page_size - length (body_of crc32 fs)) 0 in
      let (shape, size) = written epoch p values next page run₃ in
      let width : length page ≡ page_size = rw shape (page_width (body_of crc32 fs) size) in
      let o = ownership_values-Owned p g c k.known owned in
      let (np_fits, ni_fits) =
        reference_fits p.next_descriptor_page p.next_descriptor_incarnation np ni linked in
      let (status_le, rem_le, g_le, c_le) = status_fits p g c o in
      let same =
        reads crc32 epoch p.incarnation p.status g c p.remaining_segments np ni rest page shape
          (k.epoch_fits, k.incarnation_fits, status_le, g_le, c_le, rem_le, np_fits, ni_fits) in
      record {
        g = g;
        c = c;
        np = np;
        ni = ni;
        positive = k.positive;
        owned = o;
        linked = linked;
        width = width;
        decoded = header crc32 fs rest page shape all refl refl width ∙ ap decode_values same;
      }
