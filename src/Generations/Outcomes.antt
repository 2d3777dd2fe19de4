-- ===== src/Generations/Outcomes.antt =====
-- Every way an insertion goes: from a resting index, at the start of a migration and during one.
use durable_infinite_context.Prelude.{
  ℕ, ◌+◌, ◌*◌, ◌<◌, ◌≡◌, ◌⊎◌, inl, inr, refl, sym, ap, ◌∙◌, String, Bool, true, false, Option, none,
  some, arith, ok, err, if◌then◌else◌, Bool-cases,
}
use durable_infinite_context.Prelude.Slots.{copies, copies-replicate}
use durable_infinite_context.Probing.{Table}
use durable_infinite_context.Generations.{
  Settings, duplicate_key, budget_failed, HashIndex, IncrementalInsertTrace, is_some,
}
use durable_infinite_context.Generations.Operations.{begin_insert, lookup_index, insert_index}
use durable_infinite_context.Generations.Stepping.{no_step}
use durable_infinite_context.Generations.Invariant.{
  held_moving, held, held_resting, held_underway, IsResting, IsMoving, IsUnderway, IsIndex,
  IsIndex-cases, IsResting-IsIndex,
}
use durable_infinite_context.Generations.Lookup.{lookup_index-held}
use durable_infinite_context.Generations.Steps.{OverLimit, migrate_step-Steps}
use durable_infinite_context.Generations.Insertion.{
  single_more, Places, place_current-Places, placed_index, Inserts, finish_insert-returns,
  insert_index-reaches,
}
use durable_infinite_context.Generations.Beginning.{
  migrate_step-resting, migrating, migrating-IsUnderway, begin_insert-underway,
  begin_insert-resting,
}

module _ (hash : String → ℕ) (s : Settings) where
  -- How an insertion fails: the index that the beginning of the insertion leaves has an old table, the
  -- key is placed in its current table, and behind the loop of the migration step the current table
  -- exceeds its load limit.
  pub record Overruns (key : String) (x : HashIndex) : Type 0 where
    pub started : Bool
    pub begun : HashIndex
    pub begins : begin_insert s x ≡ ok (started, begun)
    pub placing : Places hash s key begun
    pub old : Table
    pub migrating_from : begun.old ≡ some old
    pub over : OverLimit hash s old (placed_index hash s begun placing)

  abbrev pub Returns : String → HashIndex → Type 0
  Returns key x =
      (Overruns key x × (insert_index hash s key x ≡ err budget_failed))
      ⊎ ((trace : IncrementalInsertTrace) × (x' : HashIndex) × (insert_index hash s key x
            ≡ ok (trace, x'))
          × Inserts hash s key x trace x')

  -- An insertion into an index whose migration is under way, or has just begun.
  underway-Returns :
      (key : String) (x x1 : HashIndex) (started : Bool) {o : Table}
      → 0 < s.migration_slot_budget
      → (lookup_index hash key x).found ≡ false
      → begin_insert s x ≡ ok (started, x1)
      → x1.old ≡ some o
      → IsUnderway hash o x1
      → held x1 key ≡ 0
      → ((q : String) → held x1 q ≡ held x q)
      → x1.live_size ≡ x.live_size
      → ((o' : Table) → x.old ≡ some o' → (x.migration_cursor ≡ x1.migration_cursor) × (o ≡ o'))
      → Returns key x
  underway-Returns key x x1 started {o} positive missing begin there u absent same live before =
      let v = u.moving in
      let absent' = sym (held_underway x1 key there) ∙ absent in
      let p =
        place_current-Places hash s key x1 v.current (omega (arith, absent'))
          (omega (arith, v.live, v.room)) in
      let mid = placed_index hash s x1 p in
      let moving : IsMoving hash o mid = record {
        current = p.probed;
        source = v.source;
        doubled = p.capacity ∙ v.doubled;
        bound = v.bound;
        rows = v.rows;
        moved = v.moved;
        live = omega (arith, v.live, p.count);
        room = omega (arith, p.capacity, v.doubled, u.paced, u.fitted, u.unfinished);
        single = λ q.
            omega (arith, single_more key q (held_moving o x1) absent' (v.single q), p.copied q);
        kept = λ q. omega (arith, v.kept q, p.copied q);
      } in
      elim (migrate_step-Steps hash s o mid there moving u.unfinished (omega (arith, u.paced))
        u.fitted positive) [
          | inl (over, failed) ↦ inl (
            record {
              started = started;
              begun = x1;
              begins = begin;
              placing = p;
              old = o;
              migrating_from = there;
              over = over;
            },
            insert_index-reaches hash s key x x1 started p missing begin failed,
          )
          | inr (step, x', run, did) ↦
              let id : Option ℕ = if is_some x1.old then some x1.migration_id else none in
              let (trace, out, e, e') =
                finish_insert-returns hash s key x id started p.probes p.pages step x' did.within
                  did.counted in
              inr (
                trace,
                x',
                insert_index-reaches hash s key x x1 started p missing begin run ∙ out,
                record {
                  index = did.index;
                  holds =
                      λ q. omega (arith, did.holds q, p.copied q, held_underway x1 q there, same q);
                  live = omega (arith, did.live, live);
                  scanned = rw e did.scanned;
                  paged = rw e did.paged;
                  allocated = e';
                  progress = λ o' was.
                      let (at, is) = before o' was in
                      elim did.progress [
                        | inl done ↦ inl done
                        | inr (still, on, id) ↦ inr (still ∙ ap some is, omega (arith, on, at))
                      ];
                },
              )
        ]

  -- An insertion that starts no migration.
  resting-Returns :
      (key : String) (x : HashIndex)
      → (lookup_index hash key x).found ≡ false
      → begin_insert s x ≡ ok (false, x)
      → x.old ≡ none
      → IsResting hash x
      → held x key ≡ 0
      → x.live_size + 1 < x.current.capacity
      → Returns key x
  resting-Returns key x missing begin there v absent room =
      let absent' = sym (held_resting x key there) ∙ absent in
      let p = place_current-Places hash s key x v.current absent' (omega (arith, v.live)) in
      let mid = placed_index hash s x p in
      let rests : IsResting hash mid = record {
        current = p.probed;
        live = omega (arith, v.live, p.count);
        room = omega (arith, room, p.capacity);
        single = λ q. omega (
          arith,
          single_more key q (λ k. copies k x.current.slots) absent' (v.single q),
          p.copied q,
        );
      } in
      let step = migrate_step-resting hash s mid there in
      let id : Option ℕ = if is_some x.old then some x.migration_id else none in
      let (trace, out, e, e') =
        finish_insert-returns hash s key x id false p.probes p.pages no_step mid
          (λ h. cc (ap is_some there)) (λ h. omega (arith, p.probed.count, p.count, v.live)) in
      inr (
        trace,
        mid,
        insert_index-reaches hash s key x x false p missing begin step ∙ out,
        record {
          index = IsResting-IsIndex hash mid there rests;
          holds = λ q. omega (arith, held_resting mid q there, held_resting x q there, p.copied q);
          live = refl;
          scanned = rw e (omega arith);
          paged = rw e (omega arith);
          allocated = e';
          progress = λ o was. absurd (cc);
        },
      )

  -- From a well-formed index, with a positive budget and a load test that a full table fails: the key is
  -- refused as a duplicate exactly if it is held. Otherwise either the insertion fails on the budget, and
  -- then the current table exceeds its load limit behind the loop of the migration step, or it returns a
  -- well-formed index that holds the key once, and every other key as before. No table is full and no
  -- assertion of the source fails.
  pub insert_index-IsIndex :
      (key : String) (x : HashIndex)
      → IsIndex hash x
      → 0 < s.migration_slot_budget
      → ((n capacity : ℕ) → 0 < capacity → s.load_exceeded n capacity ≡ false → n < capacity)
      → (0 < held x key → insert_index hash s key x ≡ err duplicate_key)
        × (held x key ≡ 0 → Returns key x)
  unfolding insert_index
  insert_index-IsIndex key x v positive tested =
      let found = lookup_index-held hash key x v in
      (
        (λ here.
            let hit : (lookup_index hash key x).found ≡ true = ground (arith, found) in
            rw (hit, insert_index) refl),
        (λ gone.
            let missing : (lookup_index hash key x).found ≡ false = ground (arith, found) in
            elim (IsIndex-cases hash x v) [
              | inr (o, there, u) ↦
                  underway-Returns key x x false positive missing
                    (begin_insert-underway hash s x there) there u gone (λ q. refl) refl
                    (λ o' was. (refl, cc))
              | inl (there, r) ↦
                  let begin = begin_insert-resting hash s x there in
                  elim (Bool-cases (s.load_exceeded (x.live_size + 1) x.current.capacity)) [
                    | inl over ↦
                        underway-Returns key x (migrating hash s x) true positive missing
                          (ground (arith, begin, over)) refl (migrating-IsUnderway hash s x r)
                          (omega (
                            arith,
                            copies-replicate key (x.current.capacity * 2),
                            held_resting x key there,
                          ))
                          (λ q. omega (
                            arith,
                            copies-replicate q (x.current.capacity * 2),
                            held_resting x q there,
                          ))
                          refl (λ o' was. absurd (cc))
                    | inr under ↦
                        resting-Returns key x missing (ground (arith, begin, under)) there r gone
                          (tested _ _ (omega (arith, r.room)) under)
                  ]
            ]),
      )
