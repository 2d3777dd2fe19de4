-- ===== src/Placement/Totality.antt =====
-- BoundedBucketCuckooIndex.insert as a whole, on a well-formed index.
use Prim.Native.Nat.{bit_and}
use durable_infinite_context.Prelude.{
  err, ok, ℕ, ◌+◌, ◌*◌, ◌≤◌, ◌<◌, ◌≡◌, refl, sym, ap, subst, ◌⊎◌, inl, inr, String, Bool, true,
  false, none, some, List, [], ◌∷◌, ◌++◌, arith, str_eq, if◌then◌else◌, length, set, ◌==◌,
  Bool-cases, length-append, ltb, ltb→lt,
}
use durable_infinite_context.Placement.{
  Hashing, Config, Index, bucket_at, bucket_pair, first_empty, Result, InsertTrace, max_slot_work,
}
use durable_infinite_context.Placement.Insert.{
  Loop, Round, placed, evicted, broken, undo, kicks, direct, finish, start, insert,
}
use durable_infinite_context.Placement.Kicks.{insert_cases}
use durable_infinite_context.Placement.Rollback.{kicks-restored, restored}
use durable_infinite_context.Prelude.Slots.{to_nat, copies, filled}
use durable_infinite_context.Placement.Slots.{fill, first_empty-scanned}
use durable_infinite_context.Placement.Invariant.{
  IsConfig, IsShaped, IsIndex, IsCandidate, total, taken, held, stash_copies, sum_of-set,
  candidate_lt, bucket_pair_lt, set_slot-IsShaped,
}
use durable_infinite_context.Placement.Relocation.{IsUnderway, Ended, kicks-Ended}

module _ (h : Hashing) (c : Config) (key : String) (x : Index) where
  -- what an insertion promises of its trace and of the new index
  pub record Inserts (t : InsertTrace) (x' : Index) : Type 0 where
    pub valid : IsIndex h c x'
    pub work : t.mutation_slot_work ≤ max_slot_work c
    pub moves : t.relocations ≤ c.max_kicks
    pub keys :
        (q : String) → held x' q ≡ held x q + (if t.success then to_nat (str_eq key q) else 0)
    pub size : x'.size ≡ x.size + to_nat t.success
    pub refused : (t.success ≡ true) ⊎ (c.stash_capacity ≤ length x.stash)

  abbrev pub Returns : Result InsertTrace × Index → Type 0
  Returns (ok t, x') = Inserts t x'
  Returns (err e, x') = ⊥

  direct-Returns :
      (b e n : ℕ)
      → IsConfig c
      → IsIndex h c x
      → IsCandidate h c key b
      → (first_empty 0 0 (bucket_at x.buckets b)).0 ≡ some e
      → n ≤ 2 * c.bucket_size
      → Returns (direct h c key x b e n)
  unfolding direct max_slot_work
  direct-Returns b e n v p home found few =
      let lt = candidate_lt h c v key b home in
      let lt' : b < length x.buckets = rw p.shaped.width lt in
      let r = set (bucket_at x.buckets b) e (some key) in
      let w = fill (bucket_at x.buckets b) key e (p.shaped.packed b) found in
      let more = sum_of-set filled x.buckets b r lt' in
      record {
        valid = record {
          shaped = set_slot-IsShaped h c x.buckets b e key none lt home p.shaped w;
          stashed = p.stashed;
          sized = omega (arith, p.sized, w.count, more);
        };
        work = omega arith;
        moves = omega arith;
        keys = λ q. omega (arith, w.copied q, sum_of-set (copies q) x.buckets b r lt');
        size = refl;
        refused = inl refl;
      }

  stash_copies-append :
      (q k : String) (s : List String)
      → stash_copies q (s ++ k ∷ []) ≡ stash_copies q s + to_nat (str_eq k q)
  stash_copies-append q k [] = omega arith
  stash_copies-append q k (y ∷ s) = omega (arith, stash_copies-append q k s)

  finish-Returns :
      (o : Round) (n : ℕ)
      → IsConfig c
      → IsIndex h c x
      → n ≤ 2 * c.bucket_size
      → ((s : Loop) → o ≡ evicted s → restored h c s ≡ x.buckets)
      → Ended h c x.buckets key n c.max_kicks o
      → Returns (finish h c key x o)
  unfolding finish max_slot_work
  finish-Returns (broken e s) n v p few back u = u
  finish-Returns (placed s) n v p few back (k, lt, u) = record {
    valid = record {
      shaped = u.shaped;
      stashed = p.stashed;
      sized = omega (arith, p.sized, u.slots);
    };
    work = grind (arith, u.work, u.moved);
    moves = omega (arith, u.moved);
    keys = λ q. omega (arith, u.keys q);
    size = refl;
    refused = inl refl;
  }
  finish-Returns (evicted s) n v p few back u =
      elim (Bool-cases (ltb (length x.stash) c.stash_capacity)) [
        | inl room ↦ rw room (record {
          valid = record {
            shaped = u.shaped;
            stashed = omega (arith, ltb→lt _ _ room, length-append x.stash (s.current ∷ []));
            sized = omega (arith, p.sized, u.slots, length-append x.stash (s.current ∷ []));
          };
          work = omega (arith, u.work, u.moved, v.kicking);
          moves = omega (arith, u.moved);
          keys = λ q. omega (arith, u.keys q, stash_copies-append q s.current x.stash);
          size = refl;
          refused = inl refl;
        })
        | inr full ↦ rw full (record {
          valid = record {
            shaped = subst (IsShaped h c) (sym (back s refl)) p.shaped;
            stashed = p.stashed;
            sized = omega (arith, p.sized, ap taken (back s refl));
          };
          work = omega (arith, u.work, u.moved, u.logged);
          moves = omega (arith, u.moved);
          keys = λ q. omega (arith, ap (total q) (back s refl));
          size = omega arith;
          refused = inr (ground arith);
        })
      ]

  either : (t : Bool) (a b : ℕ) → ((if t then a else b) ≡ a) ⊎ ((if t then a else b) ≡ b)
  either true a b = inl refl
  either false a b = inr refl

  start-IsUnderway : (n : ℕ) → IsIndex h c x → IsUnderway h c x.buckets key n 0 (start h c key x n)
  start-IsUnderway n p = record {
    shaped = p.shaped;
    home = ground (
      arith,
      either (bit_and (h.blake2b c.choice_key key) 1 == 0) (bucket_pair h c key).0
          (bucket_pair h c key).1,
    );
    work = omega arith;
    moved = refl;
    logged = refl;
    keys = λ q. refl;
    slots = refl;
  }

  pub insert-Returns : IsConfig c → IsIndex h c x → Returns (insert h c key x)
  unfolding undo
  insert-Returns v p =
      let (first, second) = bucket_pair h c key in
      let (lt, lt') = bucket_pair_lt h c v key in
      let (e₁, n₁) = first_empty 0 0 (bucket_at x.buckets first) in
      let (e₂, n₂) = first_empty 0 0 (bucket_at x.buckets second) in
      let n = n₁ + n₂ in
      let few : n₁ ≤ c.bucket_size =
        omega
          (arith, first_empty-scanned 0 0 (bucket_at x.buckets first), p.shaped.sized first lt) in
      let few' : n₂ ≤ c.bucket_size =
        omega (
          arith,
          first_empty-scanned 0 0 (bucket_at x.buckets second),
          p.shaped.sized second lt',
        ) in
      let s = start h c key x n in
      insert_cases h c Returns key x
        (λ e found. direct-Returns first e n₁ v p (inl refl) found (omega arith))
        (λ e full found. direct-Returns second e n v p (inr refl) found (omega arith))
        (λ full full'.
          finish-Returns (kicks h c c.max_kicks 0 s) n v p (omega arith)
            (λ s' r. kicks-restored h c c.max_kicks 0 s s' r)
            (kicks-Ended h c x.buckets key n v c.max_kicks s (start-IsUnderway n p)))

  abbrev Completes : Result InsertTrace × Index → Type 0
  Completes o = (t : InsertTrace) × (x' : Index) × (o ≡ (ok t, x')) × IsIndex h c x'

  completes : (o : Result InsertTrace × Index) → Returns o → Completes o
  completes (ok t, x') r = (t, x', refl, r.valid)
  completes (err e, x') r = absurd r

  -- An insertion into a well-formed index raises neither of its assertions: it returns a trace, and
  -- the index that it leaves is well-formed, whether the key was placed, stashed or refused.
  pub insert-IsIndex : IsConfig c → IsIndex h c x → Completes (insert h c key x)
  insert-IsIndex v p = completes (insert h c key x) (insert-Returns v p)

  -- The work that an insertion into a well-formed index reports is at most the bound of the source
  -- (`theoretical_max_mutation_slot_work`), and its relocations are at most `max_kicks`.
  pub insert_work :
      (t : InsertTrace) (x' : Index)
      → IsConfig c
      → IsIndex h c x
      → insert h c key x ≡ (ok t, x')
      → (t.mutation_slot_work ≤ max_slot_work c) × (t.relocations ≤ c.max_kicks)
  insert_work t x' v p run = let r = subst Returns run (insert-Returns v p) in (r.work, r.moves)

  -- An insertion into a well-formed index adds one copy of its key if it reports success and nothing
  -- otherwise, for every key; the size grows by one or not at all; and it reports success unless the
  -- stash is at its capacity.
  pub insert-held :
      (q : String) (t : InsertTrace) (x' : Index)
      → IsConfig c
      → IsIndex h c x
      → insert h c key x ≡ (ok t, x')
      → (held x' q ≡ held x q + (if t.success then to_nat (str_eq key q) else 0))
        × (x'.size ≡ x.size + to_nat t.success)
        × ((t.success ≡ true) ⊎ (c.stash_capacity ≤ length x.stash))
  insert-held q t x' v p run =
      let r = subst Returns run (insert-Returns v p) in (r.keys q, r.size, r.refused)
