-- ===== src/Probing/Resize/Rehash.antt =====
-- Rehashing keeps the keys, and an insertion never meets a full table.
use native.Mathlib.Nat.{pow-suc, one-le-pow}
use durable_infinite_context.Prelude.{
  ℕ, suc, ◌+◌, ◌*◌, ◌^◌, ◌≤◌, ◌<◌, ◌≡◌, inl, inr, refl, sym, ap, subst, ◌∙◌, String, Bool, true,
  false, ◌||◌, none, some, List, [], ◌∷◌, str_eq, eq_iff, if◌then◌else◌, length, arith, ltb,
  Bool-cases, ok,
}
use durable_infinite_context.Prelude.Bits.{power_of_no_power}
use durable_infinite_context.Prelude.Ids.{has}
use durable_infinite_context.Prelude.Slots.{Slots, copies, filled, copies-replicate}
use durable_infinite_context.Probing.{Table, new_table, place}
use durable_infinite_context.Probing.Chains.{IsProbed, new_table-IsProbed}
use durable_infinite_context.Probing.Tables.{place-Placed, lookup-copies}
use durable_infinite_context.Probing.Resize.{
  HashInsertTrace, keys, new_resizing, place_all, resize, make_room, insert_resizing,
  lookup_resizing,
}

has-keys : (q : String) (b : Slots) → has q (keys b) ≡ ltb 0 (copies q b)
unfolding keys has
has-keys q [] = refl
has-keys q (none ∷ b) = has-keys q b
has-keys q (some k ∷ b) = ground (arith, has-keys q b, eq_iff k q, eq_iff q k)

length-keys : (b : Slots) → length (keys b) ≡ filled b
unfolding keys
length-keys [] = refl
length-keys (none ∷ b) = length-keys b
length-keys (some k ∷ b) = ap suc (length-keys b)

module _ (hash : String → ℕ) where
  -- distinct keys, each reachable from its home, and at least one empty slot
  pub record IsTable (t : Table) : Type 0 where
    pub probed : IsProbed hash t
    pub single : (q : String) → copies q t.slots ≤ 1
    pub room : t.size < t.capacity

  -- An accepted new table is well-formed.
  pub new_resizing-IsTable :
      (capacity pages : ℕ) (t : Table) → new_resizing capacity pages ≡ ok t → IsTable t
  unfolding new_resizing new_table
  new_resizing-IsTable capacity pages t run =
      let (k, e) = power_of_no_power capacity (ground arith) in
      let out : new_table (2 ^ k) pages ≡ t = ground arith in
      subst IsTable out (record {
        probed = new_table-IsProbed hash k pages;
        single = λ q. omega (arith, copies-replicate q (2 ^ k));
        room = one-le-pow k 2 (omega arith);
      })

  -- What placements of a list of keys did.
  record Adds (ks : List String) (t t' : Table) : Type 0 where
    probed : IsProbed hash t'
    single : (q : String) → copies q t'.slots ≤ 1
    found : (q : String) → ltb 0 (copies q t'.slots) ≡ (has q ks || ltb 0 (copies q t.slots))
    capacity : t'.capacity ≡ t.capacity
    grown : t'.size ≤ t.size + length ks

  -- one placement into a table that is not full
  place-Adds :
      (key : String) (t : Table)
      → IsProbed hash t
      → ((q : String) → copies q t.slots ≤ 1)
      → t.size < t.capacity
      → (probes : ℕ) × (pages : ℕ) × (inserted : Bool) × (t' : Table) × (place hash key t
          ≡ ok (probes, pages, inserted, t'))
        × Adds (key ∷ []) t t'
  unfolding has
  place-Adds key t v single room = elim (place-Placed hash t key v) [
    | inr (run, full, missing) ↦ absurd (omega arith)
    | inl (probes, pages, inserted, t', run, placed, probed) ↦ (
      probes,
      pages,
      inserted,
      t',
      run,
      elim (Bool-cases inserted) [
        | inl new ↦
            let absent = placed.fresh new in
            record {
              probed = probed;
              single = λ q. ground (arith, placed.copied q, new, single q, absent, eq_iff key q);
              found = λ q. ground (arith, placed.copied q, new, eq_iff key q, eq_iff q key);
              capacity = placed.capacity;
              grown = ground (arith, placed.counted, new);
            }
        | inr known ↦
            let there = placed.known known in
            record {
              probed = probed;
              single = λ q. ground (arith, placed.copied q, known, single q);
              found =
                  λ q. ground (arith, placed.copied q, known, there, eq_iff key q, eq_iff q key);
              capacity = placed.capacity;
              grown = ground (arith, placed.counted, known);
            }
      ],
    )
  ]

  place_all-Adds :
      (ks : List String) (t : Table)
      → IsProbed hash t
      → ((q : String) → copies q t.slots ≤ 1)
      → t.size + length ks ≤ t.capacity
      → (t' : Table) × (place_all hash ks t ≡ ok t') × Adds ks t t'
  unfolding place_all has
  place_all-Adds [] t v single room = (
    t,
    refl,
    record { probed = v; single = single; found = λ q. refl; capacity = refl; grown = omega arith },
  )
  place_all-Adds (k ∷ ks) t v single room =
      let (probes, pages, inserted, t1, one, a) = place-Adds k t v single (omega arith) in
      let (t2, all, b) =
        place_all-Adds ks t1 a.probed a.single (omega (arith, a.grown, a.capacity)) in
      (
        t2,
        rw (one, place_all) all,
        record {
          probed = b.probed;
          single = b.single;
          found = λ q. ground (arith, a.found q, b.found q);
          capacity = b.capacity ∙ a.capacity;
          grown = omega (arith, a.grown, b.grown);
        },
      )

  -- what a rehash into twice the capacity keeps
  record Rehashes (t t' : Table) : Type 0 where
    table : IsTable t'
    found : (q : String) → ltb 0 (copies q t'.slots) ≡ ltb 0 (copies q t.slots)
    doubled : t'.capacity ≡ t.capacity * 2
    spare : t'.size + 1 < t'.capacity

  resize-Rehashes :
      (t : Table)
      → IsTable t
      → (rows : ℕ) × (t' : Table) × (resize hash (t.capacity * 2) t ≡ ok (rows, t')) × Rehashes t t'
  unfolding resize new_table
  resize-Rehashes t v =
      let shape = v.probed.shape in
      let power : t.capacity * 2 ≡ 2 ^ suc shape.bits =
        rw (pow-suc 2 shape.bits) (omega (arith, shape.sized)) in
      let blank : Table = new_table (t.capacity * 2) t.slots_per_page in
      let none_there : (q : String) → copies q blank.slots ≡ 0 =
        λ q. copies-replicate q (t.capacity * 2) in
      let fits = length-keys t.slots in
      let (t', run, a) =
        place_all-Adds (keys t.slots) blank
          (subst (λ n. IsProbed hash (new_table n t.slots_per_page)) (sym power)
            (new_table-IsProbed hash (suc shape.bits) t.slots_per_page))
          (λ q. omega (arith, none_there q)) (omega (arith, fits, v.room, v.probed.count)) in
      let small : t'.size + 1 < t'.capacity =
        omega (arith, a.grown, a.capacity, fits, v.room, v.probed.count) in
      (
        length (keys t.slots),
        t',
        rw (run, resize) refl,
        record {
          table = record { probed = a.probed; single = a.single; room = omega (arith, small) };
          found = λ q. ground (arith, a.found q, has-keys q t.slots, none_there q);
          doubled = a.capacity;
          spare = small;
        },
      )

  -- room for one more key, by a rehash where the load asks for it
  make_room-returns :
      (load_exceeded : ℕ → ℕ → Bool) (t : Table)
      → ((n capacity : ℕ) → 0 < capacity → load_exceeded n capacity ≡ false → n < capacity)
      → IsTable t
      → (resized : Bool) × (rows : ℕ) × (t' : Table) × (make_room hash load_exceeded t
          ≡ ok (resized, rows, t'))
        × IsTable t'
        × ((q : String) → ltb 0 (copies q t'.slots) ≡ ltb 0 (copies q t.slots))
        × (t'.size + 1 < t'.capacity)
        × (t'.capacity ≡ (if resized then t.capacity * 2 else t.capacity))
  unfolding make_room
  make_room-returns load_exceeded t tested v =
      elim (Bool-cases (load_exceeded (t.size + 1) t.capacity)) [
        | inl over ↦
            let (rows, t', run, r) = resize-Rehashes t v in
            (true, rows, t', rw (over, run, make_room) refl, r.table, r.found, r.spare, r.doubled)
        | inr under ↦ (
          false,
          0,
          t,
          rw (under, make_room) refl,
          v,
          (λ q. refl),
          tested (t.size + 1) t.capacity (omega (arith, v.room)) under,
          refl,
        )
      ]

  -- With a load test that a full table fails, an insertion into a well-formed table always returns,
  -- whether the key is new or not, and leaves a well-formed table of the same capacity, or of twice that
  -- after a resize. Afterwards a lookup finds what it found before and the key.
  pub insert_resizing-lookup_resizing :
      (load_exceeded : ℕ → ℕ → Bool) (key : String) (t : Table)
      → ((n capacity : ℕ) → 0 < capacity → load_exceeded n capacity ≡ false → n < capacity)
      → IsTable t
      → (trace : HashInsertTrace) × (t' : Table) × (insert_resizing hash load_exceeded key t
          ≡ ok (trace, t'))
        × IsTable t'
        × ((q : String)
            → (lookup_resizing hash q t').found
              ≡ (str_eq q key || (lookup_resizing hash q t).found))
        × (t'.capacity ≡ (if trace.resized then t.capacity * 2 else t.capacity))
  unfolding insert_resizing lookup_resizing has
  insert_resizing-lookup_resizing load_exceeded key t tested v =
      let (resized, rows, t1, made, w, same, spare, width) =
        make_room-returns load_exceeded t tested v in
      let (probes, pages, inserted, t2, placing, a) = place-Adds key t1 w.probed w.single w.room in
      (
        record {
          inserted_key = key;
          table_size_before = t.size;
          table_size_after = t2.size;
          capacity_before = t.capacity;
          capacity_after = t2.capacity;
          resized = resized;
          rehashed_rows = rows;
          slot_probes = probes;
          page_probes = pages;
        },
        t2,
        rw (made, placing, insert_resizing) refl,
        record {
          probed = a.probed;
          single = a.single;
          room = omega (arith, a.grown, a.capacity, spare);
        },
        (λ q.
            let after = (lookup-copies hash t2 q a.probed).0 in
            let before = (lookup-copies hash t q v.probed).0 in
            ground (arith, after, before, a.found q, same q)),
        a.capacity ∙ width,
      )
