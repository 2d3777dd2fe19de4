-- ===== src/Probing/Resize.antt =====
-- storage/hash_resize.py, StopTheWorldHashIndex: a table that is rehashed into one of twice the capacity
-- before an insertion would exceed the load. `load_exceeded n capacity` is `n / capacity > max_load`.
-- A table that runs full is the RuntimeError `generation_full`.
pub mod Rehash
use durable_infinite_context.Prelude.{
  ℕ, ◌+◌, ◌-◌, ◌*◌, ◌/◌, String, Bool, true, false, Option, none, some, List, [], ◌∷◌, ◌==◌, str_eq,
  if◌then◌else◌, length, Outcome, ok, err, ◌>>=◌,
}
use durable_infinite_context.Prelude.Bits.{no_power}
use durable_infinite_context.Prelude.Slots.{Slots}
use durable_infinite_context.Probing.{Table, Fault, new_table, place, lookup}
use durable_infinite_context.Probing.Linear.{BadParameter, bad_capacity, bad_page}

pub record HashInsertTrace : Type 0 where
  pub inserted_key : String
  pub table_size_before : ℕ
  pub table_size_after : ℕ
  pub capacity_before : ℕ
  pub capacity_after : ℕ
  pub resized : Bool
  pub rehashed_rows : ℕ
  pub slot_probes : ℕ
  pub page_probes : ℕ

pub record HashLookupTrace : Type 0 where
  pub key : String
  pub found : Bool
  pub slot_probes : ℕ
  pub page_probes : ℕ

-- `__init__`; the check of `max_load` is on a number that is not kept here
unfoldable pub new_resizing : (initial_capacity slots_per_page : ℕ) → Outcome BadParameter Table
new_resizing initial_capacity slots_per_page =
    if no_power initial_capacity
    then err bad_capacity
    else if slots_per_page == 0
    then err bad_page
    else ok (new_table initial_capacity slots_per_page)

-- the keys of the slots, in order
unfoldable pub keys : Slots → List String
keys [] = []
keys (none ∷ slots) = keys slots
keys (some key ∷ slots) = key ∷ keys slots

unfoldable pub logical_pages : Table → ℕ
logical_pages t = (t.capacity + t.slots_per_page - 1) / t.slots_per_page

module _ (hash : String → ℕ) where
  -- the loop of `_resize`
  unfoldable pub place_all : List String → Table → Outcome Fault Table
  unfolding place
  place_all [] t = ok t
  place_all (key ∷ rest) t = place hash key t >>= λ (probes, pages, inserted, t'). place_all rest t'

  -- the rows that were reinserted, and the new table
  unfoldable pub resize : (new_capacity : ℕ) → Table → Outcome Fault (ℕ × Table)
  unfolding place_all new_table keys
  resize new_capacity t =
      place_all (keys t.slots) (new_table new_capacity t.slots_per_page) >>= λ t'.
      ok (length (keys t.slots), t')

  -- whether the table was resized, the rows that were reinserted, and the table to insert into
  unfoldable pub make_room :
      (load_exceeded : ℕ → ℕ → Bool) → Table → Outcome Fault (Bool × ℕ × Table)
  unfolding resize
  make_room load_exceeded t =
      if load_exceeded (t.size + 1) t.capacity
      then (resize (t.capacity * 2) t >>= λ (rows, t'). ok (true, rows, t'))
      else ok (false, 0, t)

  unfoldable pub insert_resizing :
      (load_exceeded : ℕ → ℕ → Bool) → String → Table → Outcome Fault (HashInsertTrace × Table)
  unfolding make_room place
  insert_resizing load_exceeded key t = make_room load_exceeded t >>= λ (resized, rows, t').
      place hash key t' >>= λ (probes, pages, inserted, t''). ok (
        record {
          inserted_key = key;
          table_size_before = t.size;
          table_size_after = t''.size;
          capacity_before = t.capacity;
          capacity_after = t''.capacity;
          resized = resized;
          rehashed_rows = rows;
          slot_probes = probes;
          page_probes = pages;
        },
        t'',
      )

  unfoldable pub lookup_resizing : String → Table → HashLookupTrace
  unfolding lookup
  lookup_resizing key t =
      let (found, probes, pages) = lookup hash key t in
      record { key = key; found = found; slot_probes = probes; page_probes = pages }
