-- ===== src/Descriptor/RoundTrip.antt =====
-- encode_descriptor against decode_descriptor.
use durable_infinite_context.Prelude.{
  ok, ℕ, ◌<◌, ◌≡◌, ◌≢◌, ◌⊎◌, ap, ◌∙◌, inl, inr, Option, none, some, List, arith, length,
}
use durable_infinite_context.Descriptor.{
  null_page, page_size, encode_reference, decode_reference, Payload, encode_descriptor,
  decode_values, decode_descriptor,
}
use durable_infinite_context.Descriptor.Fields.{values_of}
use durable_infinite_context.Descriptor.Encoded.{Owned, queued, free, encode_descriptor-Encoded}

-- A reference that does not name the null page is read back.
pub decode-encode_reference :
    (p i : Option ℕ) (page inc : ℕ)
    → p ≢ some null_page
    → encode_reference p i ≡ ok (page, inc)
    → decode_reference page inc ≡ ok (p, i)
unfolding encode_reference decode_reference
decode-encode_reference none none page inc h run = ground arith
decode-encode_reference none (some i) page inc h run = cc
decode-encode_reference (some p) none page inc h run = cc
decode-encode_reference (some p) (some i) page inc h run = ground arith

decode_known :
    (epoch g c np ni : ℕ) (p : Payload)
    → 0 < p.incarnation
    → Owned p g c
    → p.cursor_header_page ≢ some null_page
    → decode_reference np ni ≡ ok (p.next_descriptor_page, p.next_descriptor_incarnation)
    → decode_values (values_of epoch p.incarnation p.status g c p.remaining_segments np ni)
      ≡ some (epoch, p)
unfolding decode_values
decode_known epoch g c np ni p pos (queued is gen cur rem rem' fits fits') h link =
    let other : c ≢ null_page = λ e. h (cur ∙ ap some e) in ground arith
decode_known epoch g c np ni p pos (free is gen cur rem fits fits') h link = ground arith

decode_values-last_page :
    (epoch g c np ni : ℕ) (p : Payload)
    → Owned p g c
    → p.cursor_header_page ≡ some null_page
    → decode_values (values_of epoch p.incarnation p.status g c p.remaining_segments np ni) ≡ none
unfolding decode_values
decode_values-last_page epoch g c np ni p (queued is gen cur rem rem' fits fits') last =
    let same : c ≡ null_page = ground arith in ground arith
decode_values-last_page epoch g c np ni p (free is gen cur rem fits fits') last = cc

decode_reference-last_page :
    (epoch g c np ni : ℕ) (p : Payload)
    → encode_reference p.next_descriptor_page p.next_descriptor_incarnation ≡ ok (np, ni)
    → p.next_descriptor_page ≡ some null_page
    → decode_values (values_of epoch p.incarnation p.status g c p.remaining_segments np ni) ≡ none
unfolding decode_values encode_reference decode_reference
decode_reference-last_page epoch g c np ni p linked last = ground arith

module _ (crc32 : List ℕ → ℕ) where
  -- Whatever descriptor is encoded, with neither its cursor nor its next page at the last page id,
  -- fills one page, and decoding that page returns the epoch and the payload exactly.
  pub decode-encode_descriptor :
      (epoch : ℕ) (p : Payload) (page : List ℕ)
      → p.cursor_header_page ≢ some null_page
      → p.next_descriptor_page ≢ some null_page
      → encode_descriptor crc32 epoch p ≡ ok page
      → (length page ≡ page_size) × (decode_descriptor crc32 page ≡ some (epoch, p))
  decode-encode_descriptor epoch p page h h' run =
      let e = encode_descriptor-Encoded crc32 epoch p page run in
      let link =
        decode-encode_reference p.next_descriptor_page p.next_descriptor_incarnation e.np e.ni h'
          e.linked in
      (e.width, e.decoded ∙ decode_known epoch e.g e.c e.np e.ni p e.positive e.owned h link)

  -- The encoder accepts the last page id as a cursor or as the next page, and the decoder refuses every
  -- page that it writes then: the id is the null page's.
  pub last_page_unreadable :
      (epoch : ℕ) (p : Payload) (page : List ℕ)
      → (p.cursor_header_page ≡ some null_page) ⊎ (p.next_descriptor_page ≡ some null_page)
      → encode_descriptor crc32 epoch p ≡ ok page
      → decode_descriptor crc32 page ≡ none
  last_page_unreadable epoch p page (inl last) run =
      let e = encode_descriptor-Encoded crc32 epoch p page run in
      e.decoded ∙ decode_values-last_page epoch e.g e.c e.np e.ni p e.owned last
  last_page_unreadable epoch p page (inr last) run =
      let e = encode_descriptor-Encoded crc32 epoch p page run in
      e.decoded ∙ decode_reference-last_page epoch e.g e.c e.np e.ni p e.linked last
