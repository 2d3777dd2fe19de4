-- ===== src/Probing/Tables.antt =====
-- lookup and place of a table whose keys are distinct.
use durable_infinite_context.Prelude.{
  ℕ, ◌+◌, ◌≤◌, ◌<◌, ◌≡◌, ◌≢◌, ◌⊎◌, inl, inr, refl, sym, ap, String, Bool, true, false, Option, none,
  some, [], str_eq, eq_iff, if◌then◌else◌, length, arith, ltb, Bool-cases, Outcome, ok, err,
}
use durable_infinite_context.Prelude.Slots.{to_nat, copies, copies-set, copies_pos_of_get_or}
use durable_infinite_context.Probing.{
  Table, Fault, generation_full, position, look, lookup, write_slot, try_place, place,
}
use durable_infinite_context.Probing.Loop.{probe-Ends}
use durable_infinite_context.Probing.Chains.{
  IsProbed, slot_at, Others, absent, write_slot-IsProbed, full-size, position_lt,
}

look_passed :
    (key : String) (n p at : ℕ) (slot : Option String)
    → look key n p at slot ≡ none
    → (k : String) × (slot ≡ some k) × (str_eq k key ≡ false)
look_passed key n p at none h = cc
look_passed key n p at (some k) h = (k, refl, ground arith)

look_returned :
    (key : String) (n p at : ℕ) (slot : Option String) {r : Bool × ℕ × ℕ}
    → look key n p at slot ≡ some r
    → ((slot ≡ none) × (r ≡ (false, n, p))) ⊎ ((slot ≡ some key) × (r ≡ (true, n, p)))
look_returned key n p at none h = inl (refl, ground arith)
look_returned key n p at (some k) h = elim (Bool-cases (str_eq k key)) [
  | inl same ↦ inr (ap some ((eq_iff k key).0 same), ground arith)
  | inr other ↦ absurd (ground arith)
]

try_place_passed :
    (t : Table) (key : String) (n p at : ℕ) (slot : Option String)
    → try_place t key n p at slot ≡ none
    → (k : String) × (slot ≡ some k) × (str_eq k key ≡ false)
try_place_passed t key n p at none h = cc
try_place_passed t key n p at (some k) h = (k, refl, ground arith)

try_place_returned :
    (t : Table) (key : String) (n p at : ℕ) (slot : Option String)
    {r : Outcome Fault (ℕ × ℕ × Bool × Table)}
    → try_place t key n p at slot ≡ some r
    → ((slot ≡ none) × (r ≡ ok (n, p, true, write_slot t at key)))
      ⊎ ((slot ≡ some key) × (r ≡ ok (n, p, false, t)))
try_place_returned t key n p at none h = inl (refl, ground arith)
try_place_returned t key n p at (some k) h = elim (Bool-cases (str_eq k key)) [
  | inl same ↦ inr (ap some ((eq_iff k key).0 same), ground arith)
  | inr other ↦ absurd (ground arith)
]

-- What a placement did: a new key has one more copy, a key that was there changes nothing.
pub record Placed (key : String) (t : Table) (probes pages : ℕ) (new : Bool) (t' : Table)
    : Type 0 where
  pub copied :
      (q : String)
      → copies q t'.slots ≡ (if new then to_nat (str_eq key q) else 0) + copies q t.slots
  pub counted : t'.size ≡ to_nat new + t.size
  pub fresh : new ≡ true → copies key t.slots ≡ 0
  pub known : new ≡ false → 0 < copies key t.slots
  pub capacity : t'.capacity ≡ t.capacity
  pub probed : probes ≤ t.capacity
  pub paged : pages ≤ probes

module _ (hash : String → ℕ) where
  nonempty :
      (t : Table) (key : String) (m : ℕ)
      → Others hash t key m
      → (i : ℕ) → i < m
      → slot_at hash t key i ≢ none
  nonempty t key m others i less gone = let (k, e, other) = others i less in cc

  -- A lookup finds exactly the keys that the table holds, with at most one probe for each slot.
  pub lookup-copies :
      (t : Table) (key : String)
      → IsProbed hash t
      → ((lookup hash key t).0 ≡ ltb 0 (copies key t.slots))
        × ((lookup hash key t).1 ≤ t.capacity)
        × ((lookup hash key t).2 ≤ (lookup hash key t).1)
  unfolding lookup
  lookup-copies t key v =
      elim (probe-Ends hash t key (look key) (λ pages. (false, t.capacity, pages)) t.capacity 0
        t.capacity [] (omega arith) (omega arith)) [
          | inl r ↦
              let others : Others hash t key r.at = λ i less.
                let (p, e) = r.passed i (omega arith) less in
                look_passed key (i + 1) p (position hash t.capacity key i) (slot_at hash t key i)
                  e in
              elim (look_returned key (r.at + 1) r.pages (position hash t.capacity key r.at)
                (slot_at hash t key r.at) r.returned) [
                  | inl (vacant, e) ↦
                      let gone = absent hash t key r.at v others (λ lt. vacant) in
                      rw e (ground arith, omega (arith, r.below), r.few)
                  | inr (there, e) ↦
                      let held =
                        copies_pos_of_get_or t.slots (position hash t.capacity key r.at) key
                          there in
                      rw e (ground arith, omega (arith, r.below), r.few)
                ]
          | inr r ↦
              let others : Others hash t key t.capacity = λ i less.
                let (p, e) = r.passed i (omega arith) less in
                look_passed key (i + 1) p (position hash t.capacity key i) (slot_at hash t key i)
                  e in
              let gone = absent hash t key t.capacity v others (λ lt. absurd (omega arith)) in
              rw⁻¹ r.out (ground arith, omega arith, r.few)
        ]

  -- A placement into a well-formed table returns, unless the key is not there and no slot is empty.
  pub place-Placed :
      (t : Table) (key : String)
      → IsProbed hash t
      → ((probes : ℕ) × (pages : ℕ) × (new : Bool) × (t' : Table) × (place hash key t
            ≡ ok (probes, pages, new, t'))
          × Placed key t probes pages new t'
          × IsProbed hash t')
        ⊎ ((place hash key t ≡ err generation_full)
            × (t.size ≡ t.capacity)
            × (copies key t.slots ≡ 0))
  unfolding place
  place-Placed t key v =
      elim (probe-Ends hash t key (try_place t key) (λ pages. err generation_full) t.capacity 0
        t.capacity [] (omega arith) (omega arith)) [
          | inl r ↦
              let others : Others hash t key r.at = λ i less.
                let (p, e) = r.passed i (omega arith) less in
                try_place_passed t key (i + 1) p (position hash t.capacity key i)
                  (slot_at hash t key i) e in
              elim (try_place_returned t key (r.at + 1) r.pages (position hash t.capacity key r.at)
                (slot_at hash t key r.at) r.returned) [
                  | inl (vacant, e) ↦
                      let p = position hash t.capacity key r.at in
                      let lt : p < length t.slots =
                        rw v.shape.width (position_lt hash t key r.at v.shape) in
                      inl (
                        r.at + 1,
                        r.pages,
                        true,
                        write_slot t p key,
                        e,
                        record {
                          copied = λ q. copies-set q key t.slots p lt vacant;
                          counted = omega arith;
                          fresh = λ h. absent hash t key r.at v others (λ less. vacant);
                          known = λ h. cc;
                          capacity = refl;
                          probed = omega (arith, r.below);
                          paged = r.few;
                        },
                        write_slot-IsProbed hash t key r.at v (nonempty t key r.at others) r.below
                            vacant,
                      )
                  | inr (there, e) ↦ inl (
                    r.at + 1,
                    r.pages,
                    false,
                    t,
                    e,
                    record {
                      copied = λ q. omega arith;
                      counted = omega arith;
                      fresh = λ h. cc;
                      known = λ h.
                          copies_pos_of_get_or t.slots (position hash t.capacity key r.at) key
                            there;
                      capacity = refl;
                      probed = omega (arith, r.below);
                      paged = r.few;
                    },
                    v,
                  )
                ]
          | inr r ↦
              let others : Others hash t key t.capacity = λ i less.
                let (p, e) = r.passed i (omega arith) less in
                try_place_passed t key (i + 1) p (position hash t.capacity key i)
                  (slot_at hash t key i) e in
              inr (
                sym r.out,
                full-size hash t key v (nonempty t key t.capacity others),
                absent hash t key t.capacity v others (λ lt. absurd (omega arith)),
              )
        ]
