-- ===== src/Generations/Runs.antt =====
-- What insertions that returned have done: lookups, the end of a migration, and bounds.
use durable_infinite_context.Prelude.{
  ℕ, ◌+◌, ◌*◌, ◌≤◌, ◌<◌, ◌≡◌, inl, inr, refl, ap, subst, String, Bool, true, false, ◌||◌, none,
  some, List, [], ◌∷◌, ◌++◌, arith, length, Outcome, ok, ◌>>=◌, passed, ltb, Bool-cases, str_eq,
}
use durable_infinite_context.Prelude.Slots.{to_nat}
use durable_infinite_context.Probing.{Table}
use durable_infinite_context.Generations.{
  Settings, Fault, HashIndex, IncrementalInsertTrace, allocated_capacity_slots,
}
use durable_infinite_context.Generations.Operations.{insert_index, lookup_index}
use durable_infinite_context.Generations.Invariant.{held, IsIndex, IsIndex-cases}
use durable_infinite_context.Generations.Lookup.{lookup_index-held}
use durable_infinite_context.Generations.Insertion.{Inserts}
use durable_infinite_context.Generations.Outcomes.{insert_index-IsIndex}

either_held :
    (before after : ℕ) (hit : Bool) {found found' : Bool}
    → after ≡ to_nat hit + before
    → found ≡ ltb 0 before
    → found' ≡ ltb 0 after
    → found' ≡ (hit || found)
either_held before after true e f g = ground arith
either_held before after false e f g = ground arith

module _ (hash : String → ℕ) (s : Settings) where
  -- the insertions of a list of keys, one after the other
  unfoldable pub insert_all : List String → HashIndex → Outcome Fault HashIndex
  unfolding insert_index
  insert_all [] x = ok x
  insert_all (key ∷ keys) x = insert_index hash s key x >>= λ r. insert_all keys r.1

module _ (hash : String → ℕ) (s : Settings) (positive : 0 < s.migration_slot_budget)
    (tested : (n capacity : ℕ)
      → 0 < capacity
      → s.load_exceeded n capacity ≡ false
      → n < capacity) where
  returned-Inserts :
      (key : String) (x : HashIndex) {trace : IncrementalInsertTrace} {x' : HashIndex}
      → IsIndex hash x
      → insert_index hash s key x ≡ ok (trace, x')
      → Inserts hash s key x trace x'
  returned-Inserts key x {trace} {x'} v run =
      let (held_case, new_case) = insert_index-IsIndex hash s key x v positive tested in
      elim (Bool-cases (ltb 0 (held x key))) [
        | inl here ↦ cc (held_case (ground arith))
        | inr gone ↦ elim (new_case (ground arith)) [
          | inl (over, failed) ↦ cc
          | inr (t, y, e, i) ↦
              let same : (t, y) ≡ (trace, x') = cc in
              subst (λ (r : IncrementalInsertTrace × HashIndex). Inserts hash s key x r.0 r.1) same
                i
        ]
      ]

  -- With a positive budget and a load test that a full table fails: after an insertion into a
  -- well-formed index that returned, the index is well-formed, its live size is one more, and a lookup
  -- finds what it found before and the inserted key, in whichever generation it is.
  pub insert_index-lookup_index :
      (key : String) (x x' : HashIndex) (trace : IncrementalInsertTrace)
      → IsIndex hash x
      → insert_index hash s key x ≡ ok (trace, x')
      → IsIndex hash x'
        × ((q : String)
            → (lookup_index hash q x').found ≡ (str_eq key q || (lookup_index hash q x).found))
        × (x'.live_size ≡ x.live_size + 1)
  insert_index-lookup_index key x x' trace v run =
      let i = returned-Inserts key x v run in
      (
        i.index,
        (λ q.
            either_held (held x q) (held x' q) (str_eq key q) (i.holds q)
              (lookup_index-held hash q x v) (lookup_index-held hash q x' i.index)),
        i.live,
      )

  -- With a positive budget and a load test that a full table fails: an insertion into a well-formed
  -- index that returned scanned at most the budget of source slots, and no more pages than slots; at
  -- most one and a half times the current capacity is allocated.
  pub insert_index_work :
      (key : String) (x x' : HashIndex) (trace : IncrementalInsertTrace)
      → IsIndex hash x
      → insert_index hash s key x ≡ ok (trace, x')
      → (trace.migration.scanned ≤ s.migration_slot_budget)
        × (trace.migration.source_pages ≤ trace.migration.scanned)
        × (2 * trace.allocated_capacity_slots ≤ 3 * x'.current.capacity)
  unfolding allocated_capacity_slots
  insert_index_work key x x' trace v run =
      let i = returned-Inserts key x v run in
      (
        i.scanned,
        i.paged,
        (elim (IsIndex-cases hash x' i.index) [
          | inl (there, r) ↦ ground (arith, i.allocated, there)
          | inr (o, there, u) ↦ ground (arith, i.allocated, there, u.moving.doubled)
        ]),
      )

  -- With a positive budget and a load test that a full table fails, a migration of a well-formed index
  -- ends: if insertions return and their budgets reach the old table's end, then after some of them no
  -- old table is left, and the index is well-formed.
  pub insert_all_completes :
      (keys : List String) (x x' : HashIndex) (o : Table)
      → IsIndex hash x
      → x.old ≡ some o
      → insert_all hash s keys x ≡ ok x'
      → o.capacity ≤ x.migration_cursor + length keys * s.migration_slot_budget
      → (before : List String) × (after : List String) × (y : HashIndex) × (keys ≡ before ++ after)
        × (insert_all hash s before x ≡ ok y)
        × (y.old ≡ none)
        × IsIndex hash y
  unfolding insert_all
  insert_all_completes [] x x' o v there run enough = elim (IsIndex-cases hash x v) [
    | inl (gone, r) ↦ absurd (cc)
    | inr (o', is, u) ↦
        let table : o' ≡ o = cc in
        let same : o'.capacity ≡ o.capacity = ap (λ (t : Table). t.capacity) table in
        absurd (omega (arith, u.unfinished))
  ]
  insert_all_completes (key ∷ keys) x x' o v there run enough =
      let ((trace, x1), more, one) = passed _ (insert_index hash s key x) run in
      let i = returned-Inserts key x v one in
      elim (i.progress o there) [
        | inl done ↦ (key ∷ [], keys, x1, refl, rw (one, insert_all) refl, done, i.index)
        | inr (still, on) ↦
            let (before, after, y, e, run', done, w) =
              insert_all_completes keys x1 x' o i.index still more (omega arith) in
            (key ∷ before, after, y, ap (λ l. key ∷ l) e, rw (one, insert_all) run', done, w)
      ]
