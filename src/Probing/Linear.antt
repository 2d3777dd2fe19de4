-- ===== src/Probing/Linear.antt =====
-- storage/bounded_placement.py, FixedLinearProbeIndex: the linear-probing control of fixed capacity.
use durable_infinite_context.Prelude.{
  ℕ, ◌+◌, ◌≤◌, ◌<◌, ◌≡◌, ◌≢◌, ◌^◌, inl, inr, refl, sym, ap, subst, ◌∙◌, String, Bool, true, false,
  ◌&&◌, ◌||◌, Option, none, some, [], ◌==◌, str_eq, if◌then◌else◌, length, arith, ltb, Outcome, ok,
  err,
}
use durable_infinite_context.Prelude.Bits.{no_power, power_of_no_power}
use durable_infinite_context.Prelude.Slots.{to_nat, copies, copies-set, copies-replicate, filled_lt}
use durable_infinite_context.Probing.{Table, new_table, position, probe, lookup, write_slot}
use durable_infinite_context.Probing.Loop.{probe-Ends}
use durable_infinite_context.Probing.Chains.{
  IsProbed, slot_at, write_slot-IsProbed, full-size, position_lt, new_table-IsProbed,
}
use durable_infinite_context.Probing.Tables.{lookup-copies}

pub record LinearInsertTrace : Type 0 where
  pub key : String
  pub success : Bool
  pub slot_probes : ℕ
  pub page_probes : ℕ

-- the ValueErrors of `__init__`
pub data BadParameter : Type 0 where
  bad_capacity : BadParameter
  bad_page : BadParameter

unfoldable pub new_index : (capacity_slots slots_per_page : ℕ) → Outcome BadParameter Table
new_index capacity_slots slots_per_page =
    if no_power capacity_slots
    then err bad_capacity
    else if slots_per_page == 0
    then err bad_page
    else ok (new_table capacity_slots slots_per_page)

-- `_start` before its mask
abbrev pub start : (String → ℕ) → Option (String → ℕ) → String → ℕ
start hash none key = hash key
start hash (some start_slot_override) key = start_slot_override key

-- one round of `insert`
abbrev pub try_insert :
    Table → String → ℕ → ℕ → ℕ → Option String → Option (LinearInsertTrace × Table)
try_insert t key probes pages p none = some (
  record { key = key; success = true; slot_probes = probes; page_probes = pages },
  write_slot t p key,
)
try_insert t key probes pages p (some k) = none

try_insert_passed :
    (t : Table) (key : String) (n p at : ℕ) (slot : Option String)
    → try_insert t key n p at slot ≡ none
    → slot ≢ none
try_insert_passed t key n p at none h gone = cc
try_insert_passed t key n p at (some k) h gone = cc

try_insert_returned :
    (t : Table) (key : String) (n p at : ℕ) (slot : Option String) {r : LinearInsertTrace × Table}
    → try_insert t key n p at slot ≡ some r
    → (slot ≡ none)
      × (r ≡ (
        record { key = key; success = true; slot_probes = n; page_probes = p },
        write_slot t at key,
      ))
try_insert_returned t key n p at none h = (refl, ground arith)
try_insert_returned t key n p at (some k) h = absurd (cc)

either_found :
    (before after : ℕ) (hit : Bool) {found found' : Bool}
    → after ≡ to_nat hit + before
    → found ≡ ltb 0 before
    → found' ≡ ltb 0 after
    → found' ≡ (hit || found)
either_found before after true e f g = ground arith
either_found before after false e f g = ground arith

module _ (hash : String → ℕ) (start_slot_override : Option (String → ℕ)) where
  unfoldable pub insert_linear : String → Table → LinearInsertTrace × Table
  unfolding probe
  insert_linear key t =
      probe (start hash start_slot_override) t key (try_insert t key)
        (λ pages.
          (record { key = key; success = false; slot_probes = t.capacity; page_probes = pages }, t))
        t.capacity 0 []

  abbrev pub lookup_linear : String → Table → Bool × ℕ × ℕ
  lookup_linear key t = lookup (start hash start_slot_override) key t

  -- An accepted table is well-formed, and holds no key.
  pub new_index-IsProbed :
      (capacity pages : ℕ) (t : Table)
      → new_index capacity pages ≡ ok t
      → IsProbed (start hash start_slot_override) t × ((q : String) → (lookup_linear q t).0 ≡ false)
  unfolding new_index new_table
  new_index-IsProbed capacity pages t run =
      let (k, e) = power_of_no_power capacity (ground arith) in
      let out : new_table (2 ^ k) pages ≡ t = ground arith in
      let v =
        subst (IsProbed (start hash start_slot_override)) out
          (new_table-IsProbed (start hash start_slot_override) k pages) in
      (
        v,
        (λ q.
            let held = lookup-copies (start hash start_slot_override) t q v in
            let empty : copies q t.slots ≡ 0 =
              ap (λ (r : Table). copies q r.slots) (sym out) ∙ copies-replicate q (2 ^ k) in
            ground arith),
      )

  -- what an insertion did
  record Inserts (key : String) (t : Table) (r : LinearInsertTrace × Table) : Type 0 where
    probed : IsProbed (start hash start_slot_override) r.1
    copied :
        (q : String) → copies q r.1.slots ≡ to_nat (r.0.success && str_eq key q) + copies q t.slots
    grown : r.1.size ≡ to_nat r.0.success + t.size
    room : r.0.success ≡ ltb t.size t.capacity
    work : r.0.slot_probes ≤ t.capacity
    paged : r.0.page_probes ≤ r.0.slot_probes

  insert_linear-Inserts :
      (key : String) (t : Table)
      → IsProbed (start hash start_slot_override) t
      → Inserts key t (insert_linear key t)
  unfolding insert_linear
  insert_linear-Inserts key t v =
      let h = start hash start_slot_override in
      let refuse : ℕ → LinearInsertTrace × Table = λ pages.
        (record { key = key; success = false; slot_probes = t.capacity; page_probes = pages }, t) in
      elim (probe-Ends h t key (try_insert t key) refuse t.capacity 0 t.capacity [] (omega arith)
        (omega arith)) [
          | inl r ↦
              let p = position h t.capacity key r.at in
              let (vacant, e) =
                try_insert_returned t key (r.at + 1) r.pages p (slot_at h t key r.at) r.returned in
              let lt : p < length t.slots = rw v.shape.width (position_lt h t key r.at v.shape) in
              let fewer = filled_lt t.slots p lt vacant in
              let taken : (i : ℕ) → i < r.at → slot_at h t key i ≢ none = λ i less.
                let (n, on) = r.passed i (omega arith) less in
                try_insert_passed t key (i + 1) n (position h t.capacity key i) (slot_at h t key i)
                  on in
              subst (Inserts key t) (sym e) (record {
                probed = write_slot-IsProbed h t key r.at v taken r.below vacant;
                copied = λ q. copies-set q key t.slots p lt vacant;
                grown = omega arith;
                room = ground (arith, v.count, v.shape.width);
                work = omega (arith, r.below);
                paged = r.few;
              })
          | inr r ↦
              let taken : (i : ℕ) → i < t.capacity → slot_at h t key i ≢ none = λ i less.
                let (n, on) = r.passed i (omega arith) less in
                try_insert_passed t key (i + 1) n (position h t.capacity key i) (slot_at h t key i)
                  on in
              let full = full-size h t key v taken in
              subst (Inserts key t) r.out (record {
                probed = v;
                copied = λ q. omega arith;
                grown = omega arith;
                room = ground arith;
                work = omega arith;
                paged = r.few;
              })
        ]

  -- An insertion into a well-formed table leaves a well-formed one. It reports success exactly if an
  -- empty slot was left; afterwards a lookup finds what it found before, and the key if it reports
  -- success. Neither of them probes more slots than there are.
  pub insert_linear-lookup_linear :
      (key : String) (t : Table)
      → IsProbed (start hash start_slot_override) t
      → IsProbed (start hash start_slot_override) (insert_linear key t).1
        × ((insert_linear key t).0.success ≡ ltb t.size t.capacity)
        × ((q : String)
            → (lookup_linear q (insert_linear key t).1).0
              ≡ ((insert_linear key t).0.success && str_eq key q || (lookup_linear q t).0))
        × ((insert_linear key t).0.slot_probes ≤ t.capacity)
        × ((q : String) → (lookup_linear q t).1 ≤ t.capacity)
  insert_linear-lookup_linear key t v =
      let h = start hash start_slot_override in
      let i = insert_linear-Inserts key t v in
      (
        i.probed,
        i.room,
        (λ q.
            let after = lookup-copies h (insert_linear key t).1 q i.probed in
            let before = lookup-copies h t q v in
            either_found (copies q t.slots) (copies q (insert_linear key t).1.slots)
              ((insert_linear key t).0.success && str_eq key q) (i.copied q) before.0 after.0),
        i.work,
        (λ q. (lookup-copies h t q v).1),
      )
