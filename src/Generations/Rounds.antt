-- ===== src/Generations/Rounds.antt =====
-- One round of the loop of `_migrate_step`: it moves at most one key, and what the index holds stays.
use durable_infinite_context.Prelude.{
  ℕ, ◌+◌, ◌/◌, ◌≤◌, ◌<◌, ◌≡◌, inl, inr, refl, ap, ◌∙◌, String, Bool, true, Option, none, some, [],
  ◌∷◌, arith, length, get_or, drop, drop-get_or, ok, if◌then◌else◌, Bool-cases, str_eq, eq_iff,
}
use durable_infinite_context.Prelude.Slots.{Slots, to_nat, copies, filled}
use durable_infinite_context.Probing.{Table, touch, place}
use durable_infinite_context.Probing.Loop.{length-touch}
use durable_infinite_context.Probing.Tables.{place-Placed}
use durable_infinite_context.Generations.{HashIndex}
use durable_infinite_context.Generations.Stepping.{Moves, place_current, move_one}
use durable_infinite_context.Generations.Invariant.{rest, held_moving, IsMoving}

copies-head :
    (q : String) (x : Option String) (b : Slots) → copies q (x ∷ b) ≡ copies q (x ∷ []) + copies q b
copies-head q none b = omega arith
copies-head q (some k) b = omega arith

filled-head : (x : Option String) (b : Slots) → filled (x ∷ b) ≡ filled (x ∷ []) + filled b
filled-head none b = omega arith
filled-head (some k) b = omega arith

-- what is left when a slot has been scanned
copies-rest :
    (o : Table) (x : HashIndex) (q : String)
    → x.migration_cursor < length o.slots
    → copies q (rest o x)
      ≡ copies q (get_or o.slots x.migration_cursor none ∷ [])
        + copies q (drop (x.migration_cursor + 1) o.slots)
copies-rest o x q lt =
    ap (copies q) (drop-get_or o.slots x.migration_cursor none lt)
    ∙ copies-head q (get_or o.slots x.migration_cursor none) (drop (x.migration_cursor + 1) o.slots)

filled-rest :
    (o : Table) (x : HashIndex)
    → x.migration_cursor < length o.slots
    → filled (rest o x)
      ≡ filled (get_or o.slots x.migration_cursor none ∷ [])
        + filled (drop (x.migration_cursor + 1) o.slots)
filled-rest o x lt =
    ap filled (drop-get_or o.slots x.migration_cursor none lt)
    ∙ filled-head (get_or o.slots x.migration_cursor none) (drop (x.migration_cursor + 1) o.slots)

module _ (hash : String → ℕ) where
  -- `n` rounds of the loop
  pub record Advances (o : Table) (m m' : Moves) (n : ℕ) : Type 0 where
    pub moving : IsMoving hash o m'.index
    pub cursor : m'.index.migration_cursor ≡ m.index.migration_cursor + n
    pub scanned : m'.scanned ≡ m.scanned + n
    pub paged : length m'.pages ≤ length m.pages + n
    pub live : m'.index.live_size ≡ m.index.live_size
    pub rows : m'.index.migration_source_rows ≡ m.index.migration_source_rows
    pub old : m'.index.old ≡ m.index.old
    pub id : m'.index.migration_id ≡ m.index.migration_id
    pub held : (q : String) → held_moving o m'.index q ≡ held_moving o m.index q

  -- an empty slot was scanned
  pub skip-Advances :
      (o : Table) (m : Moves)
      → IsMoving hash o m.index
      → m.index.migration_cursor < o.capacity
      → get_or o.slots m.index.migration_cursor none ≡ none
      → (m' : Moves) × (move_one hash o m ≡ ok m') × Advances o m m' 1
  unfolding move_one
  skip-Advances o m v lt vacant =
      let x = m.index in
      let width : x.migration_cursor < length o.slots = rw v.source.shape.width lt in
      let few =
        filled-rest o x width
        ∙ ap (λ s. filled (s ∷ []) + filled (drop (x.migration_cursor + 1) o.slots)) vacant in
      let same = λ (q : String).
        copies-rest o x q width
        ∙ ap (λ s. copies q (s ∷ []) + copies q (drop (x.migration_cursor + 1) o.slots)) vacant in
      let more = length-touch (x.migration_cursor / o.slots_per_page) m.pages in
      (
        record m {
          index = record x { migration_cursor = x.migration_cursor + 1 };
          scanned = m.scanned + 1;
          pages = touch (x.migration_cursor / o.slots_per_page) m.pages;
        },
        rw (vacant, move_one) refl,
        record {
          moving = record {
            current = v.current;
            source = v.source;
            doubled = v.doubled;
            bound = omega arith;
            rows = v.rows;
            moved = omega (arith, v.moved, few);
            live = omega (arith, v.live, few);
            room = v.room;
            single = λ q. omega (arith, v.single q, same q);
            kept = λ q. omega (arith, v.kept q, same q);
          };
          cursor = refl;
          scanned = refl;
          paged = omega (arith, more);
          live = refl;
          rows = refl;
          old = refl;
          id = refl;
          held = λ q. omega (arith, same q);
        },
      )

  pub place_current_lem :
      (key : String) (x : HashIndex) {probes pages : ℕ} {new : Bool} {t : Table}
      → place hash key x.current ≡ ok (probes, pages, new, t)
      → place_current hash key x ≡ ok (probes, pages, new, record x { current = t })
  unfolding place_current
  place_current_lem key x run = rw (run, place_current) refl

  -- a key was scanned, and is new to the current table, which has room
  pub copy-Advances :
      (o : Table) (m : Moves) (key : String)
      → IsMoving hash o m.index
      → m.index.migration_cursor < o.capacity
      → get_or o.slots m.index.migration_cursor none ≡ some key
      → (m' : Moves) × (move_one hash o m ≡ ok m') × Advances o m m' 1
  unfolding move_one
  copy-Advances o m key v lt there =
      let x = m.index in
      let width : x.migration_cursor < length o.slots = rw v.source.shape.width lt in
      let few =
        filled-rest o x width
        ∙ ap (λ s. filled (s ∷ []) + filled (drop (x.migration_cursor + 1) o.slots)) there in
      let same = λ (q : String).
        copies-rest o x q width
        ∙ ap (λ s. copies q (s ∷ []) + copies q (drop (x.migration_cursor + 1) o.slots)) there in
      let more = length-touch (x.migration_cursor / o.slots_per_page) m.pages in
      let awaited : copies key x.current.slots ≡ 0 =
        ground (arith, v.single key, same key, eq_iff key key) in
      elim (place-Placed hash x.current key v.current) [
        | inr (run, full, missing) ↦ absurd (omega (arith, v.live, v.room, few, v.current.count))
        | inl (probes, pages, new, t, run, placed, probed) ↦ elim (Bool-cases new) [
          | inr known ↦ absurd (omega (arith, placed.known known))
          | inl fresh ↦
              let run' : place hash key x.current ≡ ok (probes, pages, true, t) =
                run ∙ ap (λ b. ok (probes, pages, b, t)) fresh in
              let placing =
                place_current_lem key (record x { migration_cursor = x.migration_cursor + 1 })
                  run' in
              let copied : (q : String)
                  → copies q t.slots ≡ to_nat (str_eq key q) + copies q x.current.slots =
                λ q.
                  placed.copied q
                  ∙ ap (λ b. (if b then to_nat (str_eq key q) else 0) + copies q x.current.slots)
                      fresh in
              let counted : t.size ≡ 1 + x.current.size =
                placed.counted ∙ ap (λ b. to_nat b + x.current.size) fresh in
              (
                record m {
                  index = record x {
                    current = t;
                    migration_cursor = x.migration_cursor + 1;
                    migration_copied_total = x.migration_copied_total + 1;
                  };
                  pages = touch (x.migration_cursor / o.slots_per_page) m.pages;
                  scanned = m.scanned + 1;
                  copied = m.copied + 1;
                  destination_slot_probes = m.destination_slot_probes + probes;
                  destination_page_probes = m.destination_page_probes + pages;
                },
                rw (there, placing, move_one) refl,
                record {
                  moving = record {
                    current = probed;
                    source = v.source;
                    doubled = placed.capacity ∙ v.doubled;
                    bound = omega arith;
                    rows = v.rows;
                    moved = omega (arith, v.moved, few);
                    live = omega (arith, v.live, few, counted, probed.count, v.current.count);
                    room = omega (arith, v.room, placed.capacity);
                    single = λ q. omega (arith, v.single q, same q, copied q);
                    kept = λ q. omega (arith, v.kept q, same q, copied q);
                  };
                  cursor = refl;
                  scanned = refl;
                  paged = omega (arith, more);
                  live = refl;
                  rows = refl;
                  old = refl;
                  id = refl;
                  held = λ q. omega (arith, same q, copied q);
                },
              )
        ]
      ]
