-- ===== src/Probing.antt =====
-- Open addressing with linear probing: the tables of storage/incremental_hash.py (_GenerationTable)
-- and of storage/bounded_placement.py (FixedLinearProbeIndex). `probe` is the loop over the probe
-- positions that their methods share. `hash` is the keyed blake2b.
pub mod Chains
pub mod Linear
pub mod Loop
pub mod Tables
pub mod Resize
use Prim.Native.Nat.{bit_and}
use durable_infinite_context.Prelude.{
  ℕ, zero, suc, ◌+◌, ◌-◌, ◌/◌, String, Bool, true, false, ◌||◌, Option, none, some, List, [], ◌∷◌,
  ◌==◌, str_eq, if◌then◌else◌, length, get_or, set, replicate, Outcome, ok, err,
}
use durable_infinite_context.Prelude.Slots.{Slots}

pub record Table : Type 0 where
  pub capacity : ℕ
  pub slots_per_page : ℕ
  pub slots : Slots
  pub size : ℕ

unfoldable pub new_table : (capacity slots_per_page : ℕ) → Table
new_table capacity slots_per_page = record {
  capacity = capacity;
  slots_per_page = slots_per_page;
  slots = replicate capacity none;
  size = 0;
}

-- `pages.add(page)`
unfoldable pub touch : ℕ → List ℕ → List ℕ
touch page [] = page ∷ []
touch page (p ∷ ps) = if p == page then p ∷ ps else p ∷ touch page ps

pub data Fault : Type 0 where
  generation_full : Fault

-- one round of `lookup`: an empty slot ends the search
abbrev pub look : String → ℕ → ℕ → ℕ → Option String → Option (Bool × ℕ × ℕ)
look key probes pages p none = some (false, probes, pages)
look key probes pages p (some k) = if str_eq k key then some (true, probes, pages) else none

abbrev pub write_slot : Table → ℕ → String → Table
write_slot t p key = record t { slots = set t.slots p (some key); size = t.size + 1 }

-- one round of `place`: probes, pages, whether the key is new, and the table
abbrev pub try_place :
    Table → String → ℕ → ℕ → ℕ → Option String → Option (Outcome Fault (ℕ × ℕ × Bool × Table))
try_place t key probes pages p none = some (ok (probes, pages, true, write_slot t p key))
try_place t key probes pages p (some k) =
    if str_eq k key then some (ok (probes, pages, false, t)) else none

module _ (hash : String → ℕ) where
  -- the position at an offset of the probe sequence of a key
  abbrev pub position : ℕ → String → ℕ → ℕ
  position capacity key offset = bit_and (bit_and (hash key) (capacity - 1) + offset) (capacity - 1)

  -- The loop over `n` more positions from `offset`. The body gets the probes and the pages so far, the
  -- position and the slot there, and may return; `exhausted` gets the pages of all of them.
  unfoldable pub probe :
      {R : Type 0} (t : Table) (key : String)
      → (ℕ → ℕ → ℕ → Option String → Option R)
      → (ℕ → R)
      → (n offset : ℕ) → List ℕ
      → R
  probe t key body exhausted zero offset pages = exhausted (length pages)
  probe t key body exhausted (suc n) offset pages =
      let p = position t.capacity key offset in
      let pages' = touch (p / t.slots_per_page) pages in
      let rest = probe t key body exhausted n (offset + 1) pages' in
      elim (body (offset + 1) (length pages') p (get_or t.slots p none)) [
        | none ↦ rest
        | some result ↦ result
      ]

  unfoldable pub lookup : String → Table → Bool × ℕ × ℕ
  unfolding probe
  lookup key t = probe t key (look key) (λ pages. (false, t.capacity, pages)) t.capacity 0 []

  unfoldable pub place : String → Table → Outcome Fault (ℕ × ℕ × Bool × Table)
  unfolding probe
  place key t = probe t key (try_place t key) (λ pages. err generation_full) t.capacity 0 []
