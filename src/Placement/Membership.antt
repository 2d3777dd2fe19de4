-- ===== src/Placement/Membership.antt =====
-- BoundedBucketCuckooIndex.lookup, against the keys that a well-formed index holds.
use native.Mathlib.Decide.{ℕ_discrete}
use durable_infinite_context.Prelude.{
  ok, ℕ, zero, suc, ◌+◌, ◌*◌, ◌≤◌, ◌≡◌, refl, subst, inl, inr, String, ◌&&◌, ◌||◌, none, some, List,
  [], ◌∷◌, arith, str_eq, length, ltb,
}
use durable_infinite_context.Placement.{
  Hashing, Config, Index, Bucket, bucket_at, bucket_pair, InsertTrace,
}
use durable_infinite_context.Placement.Insert.{insert}
use durable_infinite_context.Placement.Lookup.{
  slot_work, Page, bucket_page, stash_page, add_page, scan_bucket, scan_stash, lookup,
}
use durable_infinite_context.Prelude.Slots.{copies}
use durable_infinite_context.Placement.Slots.{IsPacked, IsVacant}
use durable_infinite_context.Placement.Invariant.{
  IsConfig, IsIndex, total, held, stash_copies, bucket_pair_lt,
}
use durable_infinite_context.Placement.Totality.{Returns, insert-Returns}

vacant-copies : (q : String) (b : Bucket) → IsVacant b → copies q b ≡ 0
vacant-copies q [] h = refl
vacant-copies q (none ∷ b) h = vacant-copies q b h
vacant-copies q (some k ∷ b) h = absurd h

-- Up to the first empty slot a scan sees every key of a packed bucket.
scan_bucket-copies :
    (q : String) (n : ℕ) (b : Bucket) → IsPacked b → (scan_bucket q n b).0 ≡ ltb 0 (copies q b)
unfolding scan_bucket
scan_bucket-copies q n [] p = refl
scan_bucket-copies q n (none ∷ b) p = rw (vacant-copies q b p)
scan_bucket-copies q n (some k ∷ b) p = ground (arith, scan_bucket-copies q (n + 1) b p)

scan_bucket-work : (q : String) (n : ℕ) (b : Bucket) → (scan_bucket q n b).1 ≤ n + length b
unfolding scan_bucket
scan_bucket-work q n [] = omega arith
scan_bucket-work q n (none ∷ b) = omega arith
scan_bucket-work q n (some k ∷ b) = ground (arith, scan_bucket-work q (n + 1) b)

scan_stash-copies :
    (q : String) (n : ℕ) (s : List String) → (scan_stash q n s).0 ≡ ltb 0 (stash_copies q s)
unfolding scan_stash
scan_stash-copies q n [] = refl
scan_stash-copies q n (k ∷ s) = ground (arith, scan_stash-copies q (n + 1) s)

scan_stash-work : (q : String) (n : ℕ) (s : List String) → (scan_stash q n s).1 ≤ n + length s
unfolding scan_stash
scan_stash-work q n [] = omega arith
scan_stash-work q n (k ∷ s) = ground (arith, scan_stash-work q (n + 1) s)

total-eq-zero :
    (q : String) (bs : List Bucket) → ((b : ℕ) → copies q (bucket_at bs b) ≡ 0) → total q bs ≡ 0
total-eq-zero q [] h = refl
total-eq-zero q (b ∷ bs) h = omega (arith, h 0, total-eq-zero q bs (λ j. h (suc j)))

copies-le-total : (q : String) (bs : List Bucket) (b : ℕ) → copies q (bucket_at bs b) ≤ total q bs
copies-le-total q [] b = omega arith
copies-le-total q (r ∷ bs) zero = omega arith
copies-le-total q (r ∷ bs) (suc b) = omega (arith, copies-le-total q bs b)

length-add_page : (p : Page) (ps : List Page) → length (add_page p ps) ≤ length ps + 1
unfolding add_page
length-add_page p ps = ground arith

module _ (h : Hashing) (c : Config) (x : Index) (v : IsConfig c) (p : IsIndex h c x) where
  nowhere :
      (q : String)
      → copies q (bucket_at x.buckets (bucket_pair h c q).0) ≡ 0
      → copies q (bucket_at x.buckets (bucket_pair h c q).1) ≡ 0
      → (b : ℕ) → copies q (bucket_at x.buckets b) ≡ 0
  nowhere q e₁ e₂ b = elim (ℕ_discrete (copies q (bucket_at x.buckets b)) 0) [
    | yes e ↦ e
    | no n ↦ elim (p.shaped.homed b q (omega arith)) [ inl i ↦ rw i at e₁ | inr i ↦ rw i at e₂ ]
  ]

  total_pos :
      (q : String)
      → ltb 0 (total q x.buckets) ≡ (
          ltb 0 (copies q (bucket_at x.buckets (bucket_pair h c q).0))
          || ltb 0 (copies q (bucket_at x.buckets (bucket_pair h c q).1)))
  total_pos q =
      let (first, second) = bucket_pair h c q in
      let n₁ = copies q (bucket_at x.buckets first) in
      let n₂ = copies q (bucket_at x.buckets second) in
      ground (
        arith,
        copies-le-total q x.buckets first,
        copies-le-total q x.buckets second,
        λ (e₁ : n₁ ≡ 0) (e₂ : n₂ ≡ 0). total-eq-zero q x.buckets (nowhere q e₁ e₂),
      )

  -- A lookup reports a key as found exactly if a bucket or the stash holds it.
  pub lookup-held : (q : String) → (lookup h c q x).found ≡ ltb 0 (held x q)
  unfolding lookup
  lookup-held q =
      let (first, second) = bucket_pair h c q in
      let b₁ = bucket_at x.buckets first in
      let b₂ = bucket_at x.buckets second in
      ground (
        arith,
        total_pos q,
        scan_bucket-copies q 0 b₁ (p.shaped.packed first),
        scan_bucket-copies q (scan_bucket q 0 b₁).1 b₂ (p.shaped.packed second),
        scan_stash-copies q 0 x.stash,
      )

  -- A lookup inspects at most two buckets and the stash, and touches at most three pages.
  pub lookup_work :
      (q : String)
      → (slot_work (lookup h c q x) ≤ 2 * c.bucket_size + c.stash_capacity)
        × ((lookup h c q x).page_probes ≤ 3)
  unfolding lookup
  lookup_work q =
      let (first, second) = bucket_pair h c q in
      let b₁ = bucket_at x.buckets first in
      let b₂ = bucket_at x.buckets second in
      let n = (scan_bucket q 0 b₁).1 in
      let (lt₁, lt₂) = bucket_pair_lt h c v q in
      let pages = add_page (bucket_page second) (add_page (bucket_page first) []) in
      ground (
        arith,
        scan_bucket-work q 0 b₁,
        scan_bucket-work q n b₂,
        scan_stash-work q 0 x.stash,
        p.shaped.sized first lt₁,
        p.shaped.sized second lt₂,
        p.stashed,
        length-add_page (bucket_page first) [],
        length-add_page (bucket_page second) (add_page (bucket_page first) []),
        length-add_page stash_page pages,
      )

-- After an insertion into a well-formed index that returned, a lookup finds what it found before, and
-- the inserted key if the insertion reported success.
pub lookup-insert :
    (h : Hashing) (c : Config) (x x' : Index) (key q : String) (t : InsertTrace)
    → IsConfig c
    → IsIndex h c x
    → insert h c key x ≡ (ok t, x')
    → (lookup h c q x').found ≡ ((t.success && str_eq key q) || (lookup h c q x).found)
lookup-insert h c x x' key q t v p run =
    let r = subst (Returns h c key x) run (insert-Returns h c key x v p) in
    rw (lookup-held h c x' v r.valid q, lookup-held h c x v p q) (ground (arith, r.keys q))
