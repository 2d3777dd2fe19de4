-- ===== src/Placement/Relocation.antt =====
-- The relocation loop of BoundedBucketCuckooIndex.insert, round by round.
use native.Mathlib.Nat.{mod-lt}
use durable_infinite_context.Prelude.{
  ℕ, ◌+◌, ◌*◌, ◌≤◌, ◌<◌, ◌≡◌, refl, subst, inl, inr, String, none, some, List, [], ◌∷◌, ◌++◌, arith,
  str_eq, length, get_or, set, ◌==◌, Bool-cases, Option-cases, length-append,
}
use durable_infinite_context.Placement.{
  Hashing, Config, Bucket, bucket_at, set_slot, bucket_pair, first_empty, victim_slot,
}
use durable_infinite_context.Placement.Insert.{
  Loop, Round, placed, evicted, broken, evict, kick_round, kicks,
}
use durable_infinite_context.Placement.Kicks.{Ends, kicks_inv}
use durable_infinite_context.Prelude.Slots.{to_nat, copies, filled, copies_pos_of_get_or}
use durable_infinite_context.Placement.Slots.{fill, swap, first_empty-scanned, full-get_or}
use durable_infinite_context.Placement.Invariant.{
  IsConfig, IsShaped, IsCandidate, total, taken, sum_of-set, candidate_lt, set_slot-IsShaped,
}

victim_slot_lt :
    (h : Hashing) (c : Config)
    → IsConfig c
    → (key : String) (kick : ℕ) → victim_slot h c key kick < c.bucket_size
unfolding victim_slot
victim_slot_lt h c v key kick = mod-lt _ v.roomy

module _ (h : Hashing) (c : Config) (bs : List Bucket) (key : String) (start : ℕ) where
  -- before round `k`: the current key is the one that is missing from the buckets
  pub record IsUnderway (k : ℕ) (s : Loop) : Type 0 where
    pub shaped : IsShaped h c s.buckets
    pub home : IsCandidate h c s.current s.target
    pub work : s.inspections ≤ start + k * c.bucket_size
    pub moved : s.relocations ≡ k
    pub logged : length s.log ≡ k
    pub keys :
        (q : String)
        → total q s.buckets + to_nat (str_eq s.current q) ≡ total q bs + to_nat (str_eq key q)
    pub slots : taken s.buckets ≡ taken bs

  -- after a round that found an empty slot
  pub record IsSettled (k : ℕ) (s : Loop) : Type 0 where
    pub shaped : IsShaped h c s.buckets
    pub work : s.inspections ≤ start + (k + 1) * c.bucket_size
    pub moved : s.relocations ≡ k
    pub keys : (q : String) → total q s.buckets ≡ total q bs + to_nat (str_eq key q)
    pub slots : taken s.buckets ≡ taken bs + 1

  abbrev pub Outcome : ℕ → Round → Type 0
  Outcome k (evicted s) = IsUnderway (k + 1) s
  Outcome k (placed s) = IsSettled k s
  Outcome k (broken e s) = ⊥

  module _ (v : IsConfig c) (k : ℕ) (s : Loop) (u : IsUnderway k s) where
    here : Bucket
    here = bucket_at s.buckets s.target

    target_lt : s.target < c.bucket_count
    target_lt = candidate_lt h c v s.current s.target u.home

    target_lt' : s.target < length s.buckets
    target_lt' = rw u.shaped.width target_lt

    placed-IsSettled :
        (e n : ℕ)
        → n ≤ c.bucket_size
        → (first_empty 0 0 here).0 ≡ some e
        → IsSettled k (record s {
          buckets = set_slot s.buckets s.target e (some s.current);
          inspections = s.inspections + n;
        })
    unfolding here
    placed-IsSettled e n few found =
        let w = fill here s.current e (u.shaped.packed s.target) found in
        record {
          shaped =
              set_slot-IsShaped h c s.buckets s.target e s.current none target_lt u.home u.shaped w;
          work = omega (arith, u.work);
          moved = u.moved;
          keys = λ q. omega (
            arith,
            u.keys q,
            w.copied q,
            sum_of-set (copies q) s.buckets s.target (set here e (some s.current)) target_lt',
          );
          slots = omega (
            arith,
            u.slots,
            w.count,
            sum_of-set filled s.buckets s.target (set here e (some s.current)) target_lt',
          );
        }

    -- the loop after the victim was moved out, with its next target
    abbrev moved_out : ℕ → ℕ → String → ℕ → Loop
    moved_out n slot victim b = record {
      buckets = set_slot s.buckets s.target slot (some s.current);
      current = victim;
      target = b;
      inspections = s.inspections + n;
      relocations = s.relocations + 1;
      log = s.log ++ (s.target, slot, victim) ∷ [];
    }

    moved_out-IsUnderway :
        (n slot b : ℕ) (victim : String)
        → n ≤ c.bucket_size
        → get_or here slot none ≡ some victim
        → IsCandidate h c victim b
        → IsUnderway (k + 1) (moved_out n slot victim b)
    unfolding here
    moved_out-IsUnderway n slot b victim few there home =
        let w = swap here slot s.current victim (u.shaped.packed s.target) there in
        let r = set here slot (some s.current) in
        record {
          shaped =
              set_slot-IsShaped h c s.buckets s.target slot s.current (some victim) target_lt u.home
                u.shaped w;
          home = home;
          work = omega (arith, u.work);
          moved = omega (arith, u.moved);
          logged = omega (arith, u.logged, length-append s.log ((s.target, slot, victim) ∷ []));
          keys = λ q.
              omega (
                arith,
                u.keys q,
                w.copied q,
                sum_of-set (copies q) s.buckets s.target r target_lt',
              );
          slots =
              omega (arith, u.slots, w.count, sum_of-set filled s.buckets s.target r target_lt');
        }

    evict-Outcome :
        (n slot : ℕ) (victim : String)
        → n ≤ c.bucket_size
        → get_or here slot none ≡ some victim
        → Outcome k (evict h c slot (record s { inspections = s.inspections + n }) victim)
    unfolding here evict
    evict-Outcome n slot victim few there =
        let (first, second) = bucket_pair h c victim in
        let pos = copies_pos_of_get_or here slot victim there in
        elim (Bool-cases (first == s.target)) [
          | inl a ↦ rw (a, evict) (moved_out-IsUnderway n slot second victim few there (inr refl))
          | inr a ↦ elim (Bool-cases (second == s.target)) [
            | inl b ↦
                rw (a, b, evict) (moved_out-IsUnderway n slot first victim few there (inl refl))
            | inr b ↦ absurd (ground (arith, u.shaped.homed s.target victim pos))
          ]
        ]

    kick_round-Outcome : Outcome k (kick_round h c k s)
    unfolding here kick_round
    kick_round-Outcome =
        let slot = victim_slot h c s.current k in
        let width = u.shaped.sized s.target target_lt in
        let few : (first_empty 0 0 here).1 ≤ c.bucket_size =
          omega (arith, first_empty-scanned 0 0 here, width) in
        elim (Option-cases (first_empty 0 0 here).0) [
          | inr (e, found) ↦ rw (found, kick_round) (placed-IsSettled e _ few found)
          | inl full ↦
              let (victim, there) =
                full-get_or 0 0 here slot full (rw width (victim_slot_lt h c v s.current k)) in
              rw (full, there, kick_round) (evict-Outcome _ slot victim few there)
        ]

  -- How the loop ends after `n` rounds.
  abbrev pub Ended : ℕ → Round → Type 0
  Ended n (evicted s) = IsUnderway n s
  Ended n (placed s) = (k : ℕ) × (k < n) × IsSettled k s
  Ended n (broken e s) = ⊥

  Ended-of_Ends : IsConfig c → (n : ℕ) (o : Round) → Ends h c IsUnderway n o → Ended n o
  Ended-of_Ends v n (evicted s) e = e
  Ended-of_Ends v n (placed t) (k, s, lt, u, r) =
      (k, lt, subst (Outcome k) r (kick_round-Outcome v k s u))
  Ended-of_Ends v n (broken x t) (k, s, lt, u, r) = subst (Outcome k) r (kick_round-Outcome v k s u)

  pub kicks-Ended : IsConfig c → (n : ℕ) (s : Loop) → IsUnderway 0 s → Ended n (kicks h c n 0 s)
  kicks-Ended v n s u = Ended-of_Ends v n _ (
      kicks_inv h c IsUnderway (λ k t t' p r. subst (Outcome k) r (kick_round-Outcome v k t p)) n 0
        n s (omega arith) u)
