-- ===== src/Radix/Codec/Filling.antt =====
-- The encoder's loop over the entries of a node.
use durable_infinite_context.Prelude.{
  ℕ, suc, ◌+◌, ◌*◌, ◌/◌, ◌^◌, ◌<◌, ◌≡◌, true, false, ◌||◌, none, some, List, [], ◌∷◌, ◌==◌,
  if◌then◌else◌, arith, refl, sym, ap, ◌∙◌, length, some_same,
}
use native.Mathlib.Decide.{ℕ_discrete}
use durable_infinite_context.Prelude.Bytes.{to_be, length-to_be}
use durable_infinite_context.Prelude.ByteBits.{
  has_bit, set_bit, has_bit-set_bit, AreBytes, set_bit-AreBytes, length-set_bit,
}
use durable_infinite_context.Prelude.Dicts.{number_key, Dict, get, Unique}
use durable_infinite_context.Radix.Codec.{
  is_there, write_at, fill, pointer_at, node_bitmap_bytes, node_pointer_bytes,
}
use durable_infinite_context.Radix.Codec.Arrays.{
  pointer_at-write_at, tally, within, tally-set_bit, length-write_at,
}

-- The loop over entries with digits below 256, each new, and pointers of 64 bits.
abbrev pub AreEntries : Dict ℕ ℕ → Type 0
AreEntries entries = (d v : ℕ) → get d entries ≡ some v → (d < 256) × (v < 2 ^ 64)

pub record IsFilled (entries : Dict ℕ ℕ) (bitmap pointers bitmap' pointers' : List ℕ) : Type 0 where
  pub bytes : AreBytes bitmap'
  pub width : length bitmap' ≡ node_bitmap_bytes
  pub pointer_width : length pointers' ≡ node_pointer_bytes
  pub bits : (q : ℕ) → q < 256 → has_bit q bitmap' ≡ (is_there (get q entries) || has_bit q bitmap)
  pub values : (q v : ℕ) → get q entries ≡ some v → pointer_at q pointers' ≡ v
  pub kept :
      (q : ℕ) → q < 256 → get q entries ≡ none → pointer_at q pointers' ≡ pointer_at q pointers
  pub count : tally 256 0 bitmap' ≡ length entries + tally 256 0 bitmap

head_entry : (d v : ℕ) (entries : Dict ℕ ℕ) → get d ((d, v) ∷ entries) ≡ some v
unfolding get
head_entry d v entries =
    let e : (d == d) ≡ true = ground arith in ap (λ c. if c then some v else get d entries) e

tail_entries :
    (d v : ℕ) (entries : Dict ℕ ℕ)
    → get d entries ≡ none
    → AreEntries ((d, v) ∷ entries)
    → AreEntries entries
unfolding get
tail_entries d v entries new are q w there = are q w (elim (ℕ_discrete q d) [
  | yes e ↦ absurd (let no : get q entries ≡ none = ap (λ i. get i entries) e ∙ new in cc)
  | no ne ↦
      let test : (q == d) ≡ false = ground arith in
      ap (λ c. if c then some v else get q entries) test ∙ there
])

pub fill-IsFilled :
    (entries : Dict ℕ ℕ) (bitmap pointers : List ℕ)
    → Unique entries
    → AreEntries entries
    → AreBytes bitmap
    → length bitmap ≡ node_bitmap_bytes
    → length pointers ≡ node_pointer_bytes
    → ((q v : ℕ) → get q entries ≡ some v → has_bit q bitmap ≡ false)
    → IsFilled entries bitmap pointers
        (fill entries bitmap pointers).0
        (fill entries bitmap pointers).1
unfolding fill get Unique
fill-IsFilled [] bitmap pointers unique are bytes width width' new = record {
  bytes = bytes;
  width = width;
  pointer_width = width';
  bits = λ q lt. refl;
  values = λ q v there. absurd (cc);
  kept = λ q lt off. refl;
  count = omega arith;
}
fill-IsFilled ((d, v) ∷ entries) bitmap pointers (off, unique) are bytes width width' new =
    let (digit, word) = are d v (head_entry d v entries) in
    let place : d / 8 < length bitmap = omega arith in
    let free : has_bit d bitmap ≡ false = new d v (head_entry d v entries) in
    let p : List ℕ = write_at (8 * d) (to_be 8 v) pointers in
    let rest =
      fill-IsFilled entries (set_bit d bitmap) p unique (tail_entries d v entries off are)
        (set_bit-AreBytes d bitmap bytes) (length-set_bit d bitmap ∙ width)
        (length-write_at (8 * d) (to_be 8 v) pointers (omega (arith, length-to_be 8 v)) ∙ width')
        (λ q w there. elim (ℕ_discrete q d) [
          | yes e ↦ absurd (let no : get q entries ≡ none = ap (λ i. get i entries) e ∙ off in cc)
          | no ne ↦
              let test : (q == d) ≡ false = ground arith in
              has_bit-set_bit q d bitmap bytes place
              ∙ ap (λ c. c || has_bit q bitmap) test
              ∙ new q w (ap (λ c. if c then some v else get q entries) test ∙ there)
        ]) in
    record {
      bytes = rest.bytes;
      width = rest.width;
      pointer_width = rest.pointer_width;
      bits = λ q lt. elim (ℕ_discrete q d) [
        | yes e ↦ rw e (ground (arith, rest.bits d digit, has_bit-set_bit d d bitmap bytes place))
        | no ne ↦ ground (arith, rest.bits q lt, has_bit-set_bit q d bitmap bytes place)
      ];
      values = λ q w there. elim (ℕ_discrete q d) [
        | yes e ↦
            let test : (q == d) ≡ true = ground arith in
            let same : v ≡ w =
              some_same (sym (ap (λ c. if c then some v else get q entries) test) ∙ there) in
            rest.kept q (omega arith) (ap (λ i. get i entries) e ∙ off)
            ∙ pointer_at-write_at q d v pointers word width' digit (omega arith)
            ∙ ap (λ c. if c then v else pointer_at q pointers) test
            ∙ same
        | no ne ↦
            let test : (q == d) ≡ false = ground arith in
            rest.values q w (sym (ap (λ c. if c then some v else get q entries) test) ∙ there)
      ];
      kept = λ q lt none_q. elim (ℕ_discrete q d) [
        | yes e ↦ absurd (
            let test : (q == d) ≡ true = ground arith in
            let on : some v ≡ none =
              sym (ap (λ c. if c then some v else get q entries) test) ∙ none_q in
            cc)
        | no ne ↦
            let test : (q == d) ≡ false = ground arith in
            rest.kept q lt (sym (ap (λ c. if c then some v else get q entries) test) ∙ none_q)
            ∙ pointer_at-write_at q d v pointers word width' digit lt
            ∙ ap (λ c. if c then v else pointer_at q pointers) test
      ];
      count =
          let more = tally-set_bit 256 0 d bitmap bytes place free in
          let range : within 256 0 d ≡ true = ground arith in
          let one : tally 256 0 (set_bit d bitmap) ≡ suc (tally 256 0 bitmap) =
            more ∙ ap (λ c. if c then suc (tally 256 0 bitmap) else tally 256 0 bitmap) range in
          omega (arith, rest.count);
    }
