-- ===== src/Placement/Kicks.antt =====
-- The invariant rule of the relocation loop, and the ways that an insertion goes.
use durable_infinite_context.Prelude.{
  ℕ, zero, suc, ◌+◌, ◌<◌, ◌≡◌, refl, ◌⊎◌, inl, inr, String, none, some, arith, Option-cases,
}
use durable_infinite_context.Placement.{
  Hashing, Config, Index, Error, Result, InsertTrace, bucket_at, bucket_pair, first_empty,
}
use durable_infinite_context.Placement.Insert.{
  Loop, Round, placed, evicted, broken, kick_round, kicks, finish, direct, start, insert,
}

pub Round-cases :
    (o : Round)
    → ((t : Loop) × (o ≡ placed t))
      ⊎ (((t : Loop) × (o ≡ evicted t)) ⊎ ((e : Error) × (t : Loop) × (o ≡ broken e t)))
Round-cases (placed t) = inl (t, refl)
Round-cases (evicted t) = inr (inl (t, refl))
Round-cases (broken e t) = inr (inr (e, t, refl))

module _ (h : Hashing) (c : Config) where
  -- How the loop may end at round `j`: with the invariant, or in an earlier round that began with it.
  abbrev pub Ends : (ℕ → Loop → Type 0) → ℕ → Round → Type 0
  Ends P j (evicted s) = P j s
  Ends P j (placed t) = (k : ℕ) × (s : Loop) × (k < j) × P k s × (kick_round h c k s ≡ placed t)
  Ends P j (broken e t) = (k : ℕ) × (s : Loop) × (k < j) × P k s × (kick_round h c k s ≡ broken e t)

  pub kicks_inv :
      (P : ℕ → Loop → Type 0)
      → ((k : ℕ) (s s' : Loop) → P k s → kick_round h c k s ≡ evicted s' → P (k + 1) s')
      → (n k j : ℕ) (s : Loop) → k + n ≡ j
      → P k s
      → Ends P j (kicks h c n k s)
  unfolding kicks
  kicks_inv P keep zero k j s e p = let e' : k ≡ j = omega arith in rw (← e') p
  kicks_inv P keep (suc n) k j s e p = elim (Round-cases (kick_round h c k s)) [
    | inl (t, r) ↦ rw (r, Ends) (k, s, omega arith, p, r)
    | inr (inl (t, r)) ↦
        rw (r, Ends) (kicks_inv P keep n (k + 1) j t (omega arith) (keep k s t p r))
    | inr (inr (x, t, r)) ↦ rw (r, Ends) (k, s, omega arith, p, r)
  ]

  -- An insertion writes to the first empty slot of a candidate bucket, or runs the loop.
  pub insert_cases :
      (P : Result InsertTrace × Index → Type 0) (key : String) (x : Index)
      → let first = (bucket_pair h c key).0 in
        let second = (bucket_pair h c key).1 in
        let a = first_empty 0 0 (bucket_at x.buckets first) in
        let b = first_empty 0 0 (bucket_at x.buckets second) in
        ((e : ℕ) → a.0 ≡ some e → P (direct h c key x first e a.1))
        → ((e : ℕ) → a.0 ≡ none → b.0 ≡ some e → P (direct h c key x second e (a.1 + b.1)))
        → (a.0 ≡ none
            → b.0 ≡ none
            → P (finish h c key x (kicks h c c.max_kicks 0 (start h c key x (a.1 + b.1)))))
        → P (insert h c key x)
  unfolding insert
  insert_cases P key x p q r =
      let a = first_empty 0 0 (bucket_at x.buckets (bucket_pair h c key).0) in
      let b = first_empty 0 0 (bucket_at x.buckets (bucket_pair h c key).1) in
      elim (Option-cases a.0) [
        | inr (e, there) ↦ rw (there, insert) (p e there)
        | inl full ↦ elim (Option-cases b.0) [
          | inr (e, there) ↦ rw (full, there, insert) (q e full there)
          | inl full' ↦ rw (full, full', insert) (r full full')
        ]
      ]
