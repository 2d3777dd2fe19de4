-- ===== src/Placement/Rollback.antt =====
-- The rollback of BoundedBucketCuckooIndex.insert.
use mathlib.Core.List.{reverse, reverse-append}
use durable_infinite_context.Prelude.{
  ok, ℕ, zero, suc, ◌+◌, ◌≡◌, refl, sym, ap, subst, ◌∙◌, inl, inr, String, false, Option, none,
  some, List, [], ◌∷◌, arith, Option-cases, get_or, set, set-set, set-get_or,
}
use durable_infinite_context.Placement.{
  Hashing, Config, Index, InsertTrace, Bucket, bucket_at, set_slot, first_empty, victim_slot,
}
use durable_infinite_context.Placement.Insert.{
  Loop, evicted, undo, evict, kick_round, kicks, finish, direct, insert,
}
use durable_infinite_context.Placement.Kicks.{Ends, kicks_inv, Round-cases, insert_cases}

-- Writing back what a slot held undoes a write to it.
set_slot_back :
    (bs : List Bucket) (b i : ℕ) (v : Option String) (k : String)
    → get_or (bucket_at bs b) i none ≡ some k
    → set_slot (set_slot bs b i v) b i (some k) ≡ bs
set_slot_back [] b i v k e = refl
set_slot_back (r ∷ bs) zero i v k e =
    ap (λ t. t ∷ bs) (set-set r i v (some k) ∙ ap (set r i) (sym e) ∙ set-get_or r i none)
set_slot_back (r ∷ bs) (suc b) i v k e = ap (λ t. r ∷ t) (set_slot_back bs b i v k e)

module _ (h : Hashing) (c : Config) where
  -- what the log undoes
  abbrev pub restored : Loop → List Bucket
  restored s = undo (reverse s.log) s.buckets

  evict-restored :
      (slot : ℕ) (s s' : Loop) (victim : String)
      → get_or (bucket_at s.buckets s.target) slot none ≡ some victim
      → evict h c slot s victim ≡ evicted s'
      → restored s' ≡ restored s
  unfolding evict undo
  evict-restored slot s s' victim e r = ground (
    arith,
    reverse-append s.log ((s.target, slot, victim) ∷ []),
    set_slot_back s.buckets s.target slot (some s.current) victim,
  )

  kick_round-restored :
      (kick : ℕ) (s s' : Loop) → kick_round h c kick s ≡ evicted s' → restored s' ≡ restored s
  unfolding kick_round
  kick_round-restored kick s s' r =
      let b = bucket_at s.buckets s.target in
      let slot = victim_slot h c s.current kick in
      elim (Option-cases (first_empty 0 0 b).0) [
        | inl full ↦ elim (Option-cases (get_or b slot none)) [
          | inl gap ↦ ground arith
          | inr (v, there) ↦ ground (
            arith,
            evict-restored slot (record s { inspections = s.inspections + (first_empty 0 0 b).1 })
                s' v,
          )
        ]
        | inr (e, empty) ↦ ground arith
      ]

  pub kicks-restored :
      (n kick : ℕ) (s s' : Loop) → kicks h c n kick s ≡ evicted s' → restored s' ≡ restored s
  kicks-restored n kick s s' r =
      let ends =
        kicks_inv h c (λ _ t. restored t ≡ restored s)
          (λ k t t' same e. kick_round-restored k t t' e ∙ same) n kick (kick + n) s refl refl in
      subst (Ends h c (λ _ t. restored t ≡ restored s) (kick + n)) r ends

  finish_failure :
      (key : String) (x x' : Index) (s : Loop) (n : ℕ) (t : InsertTrace)
      → s.log ≡ []
      → s.buckets ≡ x.buckets
      → finish h c key x (kicks h c n 0 s) ≡ (ok t, x')
      → t.success ≡ false
      → x' ≡ x
  unfolding finish undo
  finish_failure key x x' s n t fresh same run failed = elim (Round-cases (kicks h c n 0 s)) [
    | inl (u, r) ↦ ground arith
    | inr (inl (u, r)) ↦ ground (arith, kicks-restored n 0 s u r)
    | inr (inr (z, u, r)) ↦ ground arith
  ]

  -- An insertion that reports failure leaves the index exactly as it was: the rollback undoes every
  -- relocation, and neither the stash nor the size was touched.
  pub insert_failure_restores :
      (key : String) (x x' : Index) (t : InsertTrace)
      → insert h c key x ≡ (ok t, x')
      → t.success ≡ false
      → x' ≡ x
  unfolding direct
  insert_failure_restores key x x' t =
      insert_cases h c (λ o. o ≡ (ok t, x') → t.success ≡ false → x' ≡ x) key x
        (λ e there run failed. ground arith) (λ e full there run failed. ground arith)
        (λ full full' run failed. finish_failure key x x' _ c.max_kicks t refl refl run failed)
