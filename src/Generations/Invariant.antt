-- ===== src/Generations/Invariant.antt =====
-- Well-formed indexes: at rest, and with the keys of an old table moving into the current one.
use native.Mathlib.Nat.{one-le-pow}
use durable_infinite_context.Prelude.{
  ℕ, ◌+◌, ◌*◌, ◌≤◌, ◌<◌, ◌≡◌, refl, sym, subst, ap, ◌⊎◌, inl, inr, Option-cases, String, Option,
  none, some, arith, drop, ok,
}
use durable_infinite_context.Prelude.Bits.{power_of_no_power}
use durable_infinite_context.Prelude.Slots.{
  Slots, copies, filled, copies-replicate, filled-replicate,
}
use durable_infinite_context.Probing.{Table, new_table}
use durable_infinite_context.Probing.Chains.{IsProbed, new_table-IsProbed}
use durable_infinite_context.Generations.{Settings, HashIndex, new_index}

-- the slots of an old table that are still to be scanned
abbrev pub rest : Table → HashIndex → Slots
rest o x = drop x.migration_cursor o.slots

-- how often a key is held: in the current table, or still to be moved
abbrev pub held_moving : Table → HashIndex → String → ℕ
held_moving o x q = copies q x.current.slots + copies q (rest o x)

abbrev held_with : Option Table → HashIndex → String → ℕ
held_with none x q = copies q x.current.slots
held_with (some o) x q = held_moving o x q

abbrev pub held : HashIndex → String → ℕ
held x q = held_with x.old x q

pub held_resting : (x : HashIndex) (q : String) → x.old ≡ none → held x q ≡ copies q x.current.slots
held_resting x q e = ap (λ r. held_with r x q) e

pub held_underway :
    (x : HashIndex) (q : String) {o : Table} → x.old ≡ some o → held x q ≡ held_moving o x q
held_underway x q e = ap (λ r. held_with r x q) e

module _ (hash : String → ℕ) where
  -- no migration is active, and one more key fits
  pub record IsResting (x : HashIndex) : Type 0 where
    pub current : IsProbed hash x.current
    pub live : x.live_size ≡ filled x.current.slots
    pub room : x.live_size < x.current.capacity
    pub single : (q : String) → copies q x.current.slots ≤ 1

  -- The keys of `o` move: each of them is in the current table or still to be moved, never both.
  pub record IsMoving (o : Table) (x : HashIndex) : Type 0 where
    pub current : IsProbed hash x.current
    pub source : IsProbed hash o
    pub doubled : x.current.capacity ≡ o.capacity * 2
    pub bound : x.migration_cursor ≤ o.capacity
    pub rows : x.migration_source_rows ≡ filled o.slots
    pub moved : x.migration_copied_total + filled (rest o x) ≡ filled o.slots
    pub live : x.live_size ≡ filled x.current.slots + filled (rest o x)
    pub room : x.live_size < x.current.capacity
    pub single : (q : String) → held_moving o x q ≤ 1
    pub kept : (q : String) → copies q o.slots ≤ held_moving o x q

  -- between insertions: the keys that came since the start are no more than the slots scanned
  pub record IsUnderway (o : Table) (x : HashIndex) : Type 0 where
    pub moving : IsMoving o x
    pub unfinished : x.migration_cursor < o.capacity
    pub paced : x.live_size ≤ x.migration_source_rows + x.migration_cursor
    pub fitted : x.migration_source_rows < o.capacity

  abbrev IsIndexWith : Option Table → HashIndex → Type 0
  IsIndexWith none x = IsResting x
  IsIndexWith (some o) x = IsUnderway o x

  abbrev pub IsIndex : HashIndex → Type 0
  IsIndex x = IsIndexWith x.old x

  pub IsIndex-cases :
      (x : HashIndex)
      → IsIndex x
      → ((x.old ≡ none) × IsResting x) ⊎ ((o : Table) × (x.old ≡ some o) × IsUnderway o x)
  IsIndex-cases x v = elim (Option-cases x.old) [
    | inl e ↦ inl (e, subst (λ r. IsIndexWith r x) e v)
    | inr (o, e) ↦ inr (o, e, subst (λ r. IsIndexWith r x) e v)
  ]

  pub IsResting-IsIndex : (x : HashIndex) → x.old ≡ none → IsResting x → IsIndex x
  IsResting-IsIndex x e v = subst (λ r. IsIndexWith r x) (sym e) v

  pub IsUnderway-IsIndex : (x : HashIndex) {o : Table} → x.old ≡ some o → IsUnderway o x → IsIndex x
  IsUnderway-IsIndex x e v = subst (λ r. IsIndexWith r x) (sym e) v

  -- An accepted new index is well-formed, and holds no key.
  pub new_index-IsIndex :
      (s : Settings) (initial_capacity : ℕ) (x : HashIndex)
      → new_index s initial_capacity ≡ ok x
      → IsIndex x × ((q : String) → held x q ≡ 0) × (x.current.capacity ≡ initial_capacity)
  unfolding new_index new_table
  new_index-IsIndex s capacity x run =
      let (k, e) = power_of_no_power capacity (ground arith) in
      let start : HashIndex = record {
        current = new_table capacity s.slots_per_page;
        old = none;
        migration_cursor = 0;
        migration_id = 0;
        migration_source_rows = 0;
        migration_copied_total = 0;
        live_size = 0;
      } in
      let out : start ≡ x = ground arith in
      subst (λ r. IsIndex r × ((q : String) → held r q ≡ 0) × (r.current.capacity ≡ capacity)) out
        (
          record {
            current =
                subst (λ n. IsProbed hash (new_table n s.slots_per_page)) (sym e)
                  (new_table-IsProbed hash k s.slots_per_page);
            live = omega (arith, filled-replicate capacity);
            room = rw e (one-le-pow k 2 (omega arith));
            single = λ q. omega (arith, copies-replicate q capacity);
          },
          (λ q. copies-replicate q capacity),
          refl,
        )
