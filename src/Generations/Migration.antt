-- ===== src/Generations/Migration.antt =====
-- The loop of `_migrate_step`: what the index holds stays.
use durable_infinite_context.Prelude.{
  ℕ, zero, suc, ◌≤◌, ◌<◌, ◌≡◌, ◌⊎◌, inl, inr, refl, ◌∙◌, String, none, arith, get_or, ok, ltb,
  ltb→lt, Bool-cases, Option-cases,
}
use durable_infinite_context.Probing.{Table}
use durable_infinite_context.Generations.Stepping.{Moves, move_one, move_all}
use durable_infinite_context.Generations.Invariant.{IsMoving}
use durable_infinite_context.Generations.Rounds.{Advances, skip-Advances, copy-Advances}

module _ (hash : String → ℕ) where
  stays-Advances : (o : Table) (m : Moves) → IsMoving hash o m.index → Advances hash o m m 0
  stays-Advances o m v = record {
    moving = v;
    cursor = omega arith;
    scanned = omega arith;
    paged = omega arith;
    live = refl;
    rows = refl;
    old = refl;
    id = refl;
    held = λ q. refl;
  }

  -- A round at an unfinished migration never fails.
  move_one-Advances :
      (o : Table) (m : Moves)
      → IsMoving hash o m.index
      → m.index.migration_cursor < o.capacity
      → (m' : Moves) × (move_one hash o m ≡ ok m') × Advances hash o m m' 1
  move_one-Advances o m v lt = elim (Option-cases (get_or o.slots m.index.migration_cursor none)) [
    | inl vacant ↦ skip-Advances hash o m v lt vacant
    | inr (key, there) ↦ copy-Advances hash o m key v lt there
  ]

  -- The loop never fails: it uses its whole budget, or reaches the end of the old table.
  pub move_all-Advances :
      (budget : ℕ) (o : Table) (m : Moves)
      → IsMoving hash o m.index
      → (m' : Moves) × (n : ℕ) × (move_all hash budget o m ≡ ok m')
        × Advances hash o m m' n
        × (n ≤ budget)
        × ((n ≡ budget) ⊎ (m'.index.migration_cursor ≡ o.capacity))
  unfolding move_all
  move_all-Advances zero o m v = (m, 0, refl, stays-Advances o m v, omega arith, inl refl)
  move_all-Advances (suc budget) o m v =
      elim (Bool-cases (ltb m.index.migration_cursor o.capacity)) [
        | inr end ↦ (
          m,
          0,
          rw (end, move_all) refl,
          stays-Advances o m v,
          omega arith,
          inr (ground (arith, v.bound)),
        )
        | inl on ↦
            let (m1, one, a) =
              move_one-Advances o m v (ltb→lt m.index.migration_cursor o.capacity on) in
            let (m2, n, all, b, le, ends) = move_all-Advances budget o m1 a.moving in
            (
              m2,
              suc n,
              rw (on, one, move_all) all,
              record {
                moving = b.moving;
                cursor = omega (arith, a.cursor, b.cursor);
                scanned = omega (arith, a.scanned, b.scanned);
                paged = omega (arith, a.paged, b.paged);
                live = b.live ∙ a.live;
                rows = b.rows ∙ a.rows;
                old = b.old ∙ a.old;
                id = b.id ∙ a.id;
                held = λ q. b.held q ∙ a.held q;
              },
              omega arith,
              (elim ends [ inl spent ↦ inl (omega arith) | inr done ↦ inr done ]),
            )
      ]
