-- ===== src/Descriptor/Fields.antt =====
-- How the fields of a descriptor page are read back from the bytes they were packed in.
use mathlib.Core.List.{append_assoc}
use durable_infinite_context.Prelude.{
  ℕ, zero, suc, ◌+◌, ◌*◌, ◌^◌, ◌≤◌, ◌<◌, ◌≡◌, refl, true, List, [], ◌∷◌, ◌++◌, arith, ◌==◌, length,
  get_or, length-append,
}
use durable_infinite_context.Prelude.Bytes.{
  to_be, of_be, take, drop, length-to_be, of_be-to_be, take-append, drop-append,
}
use durable_infinite_context.Prelude.Bits.{bit_and-low_ones}
use durable_infinite_context.Descriptor.{
  null_page, page_size, magic, prefix_size, pack, fields_of, field_at, same_bytes, checksum, Values,
  unpack, decode_values, decode_descriptor,
}

abbrev pub AllEight : List (List ℕ) → Type 0
AllEight [] = Unit
AllEight (f ∷ fs) = (length f ≡ 8) × AllEight fs

drop_past : (xs ys : List ℕ) (j n : ℕ) → j ≡ length xs + n → drop j (xs ++ ys) ≡ drop n ys
drop_past [] ys j n e = let e' : j ≡ n = omega arith in rw e'
drop_past (x ∷ xs) ys zero n e = absurd (omega arith)
drop_past (x ∷ xs) ys (suc j) n e = drop_past xs ys j n (omega arith)

-- The fields of 8 bytes are read back from where they were packed.
field_at-pack :
    (fs : List (List ℕ)) (rest : List ℕ) (k : ℕ)
    → AllEight fs
    → k < length fs
    → field_at k (pack fs ++ rest) ≡ get_or fs k []
unfolding field_at pack
field_at-pack [] rest k all lt = absurd (omega arith)
field_at-pack (f ∷ fs) rest zero all lt =
    rw (append_assoc f (pack fs) rest) (take-append f (pack fs ++ rest) 8 all.0)
field_at-pack (f ∷ fs) rest (suc k) all lt =
    rw
      (
        append_assoc f (pack fs) rest,
        drop_past f (pack fs ++ rest) (8 * suc k) (8 * k) (omega (arith, all.0)),
      )
      (field_at-pack fs rest k all.1 (omega arith))

pub length-pack : (fs : List (List ℕ)) → AllEight fs → length (pack fs) ≡ 8 * length fs
unfolding pack
length-pack [] all = omega arith
length-pack (f ∷ fs) all = omega (arith, length-append f (pack fs), length-pack fs all.1, all.0)

==-refl : (a : ℕ) → (a == a) ≡ true
==-refl a = ground arith

same_bytes_refl : (xs : List ℕ) → same_bytes xs xs ≡ true
same_bytes_refl [] = refl
same_bytes_refl (x ∷ xs) = ground (arith, same_bytes_refl xs)

abbrev pub values_of : ℕ → ℕ → ℕ → ℕ → ℕ → ℕ → ℕ → ℕ → Values
values_of epoch incarnation status g c remaining np ni = record {
  epoch = epoch;
  incarnation = incarnation;
  status = status;
  generation = g;
  cursor = c;
  remaining = remaining;
  next_page = np;
  next_incarnation = ni;
}

module _ (crc32 : List ℕ → ℕ) where
  abbrev pub body_of : List (List ℕ) → List ℕ
  body_of fs = pack fs ++ to_be 4 (checksum crc32 (pack fs))

  -- A page with the packed fields in front reads as those fields.
  reads_field :
      (fs : List (List ℕ)) (rest page : List ℕ) (k v : ℕ)
      → page ≡ body_of fs ++ rest
      → AllEight fs
      → k < length fs
      → get_or fs k [] ≡ to_be 8 v
      → v ≤ null_page
      → of_be 0 (field_at k page) ≡ v
  reads_field fs rest page k v e all lt there fits =
      let sum = to_be 4 (checksum crc32 (pack fs)) in
      rw (e, append_assoc (pack fs) sum rest, field_at-pack fs (sum ++ rest) k all lt, there)
        (of_be-to_be 8 v (omega arith))

  reads_checksum :
      (fs : List (List ℕ)) (rest page : List ℕ)
      → page ≡ body_of fs ++ rest
      → length (pack fs) ≡ prefix_size
      → (take prefix_size page ≡ pack fs)
        × (of_be 0 (take 4 (drop prefix_size page)) ≡ checksum crc32 (pack fs))
  reads_checksum fs rest page e width =
      let cs = checksum crc32 (pack fs) in
      let small : cs < 256 ^ 4 = rw (bit_and-low_ones 32 (crc32 (pack fs))) (omega arith) in
      (
        rw (e, append_assoc (pack fs) (to_be 4 cs) rest)
            (take-append (pack fs) (to_be 4 cs ++ rest) prefix_size width),
        rw
            (
              e,
              append_assoc (pack fs) (to_be 4 cs) rest,
              drop-append (pack fs) (to_be 4 cs ++ rest) prefix_size width,
              take-append (to_be 4 cs) rest 4 (length-to_be 4 cs),
            )
            (of_be-to_be 4 cs small),
      )

  pub reads :
      (epoch incarnation status g c remaining np ni : ℕ) (rest page : List ℕ)
      → page ≡ body_of (fields_of epoch incarnation status g c remaining np ni) ++ rest
      → (epoch ≤ null_page)
        × (incarnation ≤ null_page)
        × (status ≤ null_page)
        × (g ≤ null_page)
        × (c ≤ null_page)
        × (remaining ≤ null_page)
        × (np ≤ null_page)
        × (ni ≤ null_page)
      → unpack page ≡ values_of epoch incarnation status g c remaining np ni
  unfolding unpack
  reads epoch incarnation status g c remaining np ni rest page e fits =
      let fs = fields_of epoch incarnation status g c remaining np ni in
      let all : AllEight fs = omega (arith, length-to_be) in
      let field = λ (k v : ℕ). reads_field fs rest page k v e all in
      λ i. record {
        epoch = field 1 epoch (omega arith) refl fits.0 i;
        incarnation = field 2 incarnation (omega arith) refl fits.1 i;
        status = field 3 status (omega arith) refl fits.2 i;
        generation = field 4 g (omega arith) refl fits.3 i;
        cursor = field 5 c (omega arith) refl fits.4 i;
        remaining = field 6 remaining (omega arith) refl fits.5 i;
        next_page = field 7 np (omega arith) refl fits.6 i;
        next_incarnation = field 8 ni (omega arith) refl fits.7 i;
      }

  -- A page with the packed fields in front passes the checks on magic and checksum.
  pub header :
      (fs : List (List ℕ)) (rest page : List ℕ)
      → page ≡ body_of fs ++ rest
      → AllEight fs
      → length fs ≡ 9
      → get_or fs 0 [] ≡ magic
      → length page ≡ page_size
      → decode_descriptor crc32 page ≡ decode_values (unpack page)
  unfolding decode_descriptor
  header fs rest page e all nine first width =
      let sum = reads_checksum fs rest page e (omega (arith, length-pack fs all)) in
      let signed : same_bytes (field_at 0 page) magic ≡ true =
        rw
          (
            e,
            append_assoc (pack fs) (to_be 4 (checksum crc32 (pack fs))) rest,
            field_at-pack fs (to_be 4 (checksum crc32 (pack fs)) ++ rest) 0 all (omega arith),
            first,
          )
          (same_bytes_refl magic) in
      let summed : (checksum crc32 (take prefix_size page)
            == of_be 0 (take 4 (drop prefix_size page)))
          ≡ true =
        rw (sum.0, sum.1) (==-refl (checksum crc32 (pack fs))) in
      rw (width, signed, summed)
