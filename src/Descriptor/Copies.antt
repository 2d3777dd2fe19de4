-- ===== src/Descriptor/Copies.antt =====
-- TaggedDescriptorIO of storage/retirement_descriptor_pool.py: two copies of a descriptor, the newest
-- committed one selected first, its identity checked afterwards. The file is the page read at each
-- page-aligned byte offset; every access of the class is to one whole page.
use durable_infinite_context.Prelude.{
  err, ok, ◌>>=◌, ℕ, ◌+◌, ◌-◌, ◌*◌, Bool, false, Option, none, some, List, [], ◌∷◌, ◌++◌, ltb, leb,
  ◌==◌, not, if◌then◌else◌,
}
use durable_infinite_context.Descriptor.{
  page_size, Payload, Result, no_valid_descriptor, incarnation_mismatch, negative_offset,
  status_mismatch, encode_descriptor, decode_descriptor,
}

abbrev pub File : Type 0
File = ℕ → List ℕ

unfoldable pub offset : ℕ → ℕ → ℕ
offset base_page copy_slot = (base_page + copy_slot) * page_size

unfoldable pub pwrite : File → List ℕ → ℕ → File
pwrite f page at i = if i == at then page else f i

-- (epoch, payload, copy slot)
abbrev pub Candidate : Type 0
Candidate = ℕ × Payload × ℕ

-- `max(candidates, key=epoch)`: the first of the largest
unfoldable pub newest : Candidate → List Candidate → Candidate
newest best [] = best
newest best (x ∷ xs) = newest (if ltb best.0 x.0 then x else best) xs

-- `expected is not None and observed != expected`
abbrev differs : Option ℕ → ℕ → Bool
differs none observed = false
differs (some expected) observed = not (observed == expected)

-- the identity checks on the selected copy
unfoldable pub validate : Option ℕ → Option ℕ → Candidate → Result (Payload × ℕ × ℕ)
validate incarnation status (epoch, payload, slot) =
    if differs incarnation payload.incarnation
    then err incarnation_mismatch
    else if differs status payload.status
    then err status_mismatch
    else ok (payload, slot, 2)

-- one copy, if it is readable and not of a later epoch
unfoldable pub candidates : Option (ℕ × Payload) → ℕ → ℕ → List Candidate
candidates none committed slot = []
candidates (some (epoch, payload)) committed slot =
    if leb epoch committed then (epoch, payload, slot) ∷ [] else []

-- the newest candidate first, then its identity
unfoldable pub select : Option ℕ → Option ℕ → List Candidate → Result (Payload × ℕ × ℕ)
unfolding newest validate
select incarnation status [] = err no_valid_descriptor
select incarnation status (best ∷ others) = validate incarnation status (newest best others)

module _ (crc32 : List ℕ → ℕ) where
  abbrev pub copy : File → ℕ → ℕ → Option (ℕ × Payload)
  copy f base slot = decode_descriptor crc32 (f (offset base slot))

  unfoldable pub read : File → ℕ → ℕ → Option ℕ → Option ℕ → Result (Payload × ℕ × ℕ)
  unfolding candidates select
  read f base committed incarnation status =
      select incarnation status
        (candidates (copy f base 0) committed 0 ++ candidates (copy f base 1) committed 1)

  unfoldable pub write_new : File → ℕ → ℕ → Payload → Result (ℕ × File)
  write_new f base epoch payload =
      encode_descriptor crc32 epoch payload >>= λ page. ok (1, pwrite f page (offset base 0))

  -- The slot is the one given, or that of the committed copy: the write goes to the other, at
  -- `(base_page + (1 - committed_slot)) * PAGE_SIZE`. A negative offset is an OSError.
  unfoldable pub write_existing : File → ℕ → ℕ → ℕ → Option ℕ → Payload → Result ((ℕ × ℕ) × File)
  write_existing f base committed epoch slot payload =
      (elim slot [
        | some s ↦ ok (s, 0)
        | none ↦ read f base committed none none >>= λ r. ok (r.1, r.2)
      ])
      >>= λ (s : ℕ × ℕ). encode_descriptor crc32 epoch payload >>= λ page.
          if ltb (base + 1) s.0
          then err negative_offset
          else ok ((s.1, 1), pwrite f page (offset (base + 1 - s.0) 0))
