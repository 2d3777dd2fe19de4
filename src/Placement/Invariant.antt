-- ===== src/Placement/Invariant.antt =====
-- Well-formed configurations and indexes: the shape of the buckets, their packing, and that every
-- key stands in one of its two candidate buckets.
use Prim.Native.Nat.{bit_and}
use native.Mathlib.Decide.{ℕ_discrete}
use native.Mathlib.Nat.{mod-lt, one-le-pow}
use durable_infinite_context.Prelude.{
  ℕ, zero, suc, ◌+◌, ◌-◌, ◌^◌, ◌≤◌, ◌<◌, ◌≡◌, sym, subst, ◌∙◌, ◌⊎◌, inl, inr, String, Bool, true,
  false, Option, some, List, [], ◌∷◌, arith, str_eq, eq_iff, Bool-cases, if◌then◌else◌, length, set,
  length-set, get_or-set_self, get_or-set_ne,
}
use durable_infinite_context.Prelude.Bits.{bit_and-low_ones}
use durable_infinite_context.Placement.{
  Hashing, Config, Index, Bucket, bucket_at, set_slot, bucket_pair,
}
use durable_infinite_context.Prelude.Slots.{to_nat, copies, filled}
use durable_infinite_context.Placement.Slots.{IsPacked, Writes}

pub record IsConfig (c : Config) : Type 0 where
  pub bits : ℕ
  pub count : c.bucket_count ≡ 2 ^ bits
  pub several : 1 < c.bucket_count
  pub roomy : 0 < c.bucket_size
  pub kicking : 0 < c.max_kicks

abbrev pub sum_of : (Bucket → ℕ) → List Bucket → ℕ
sum_of f [] = 0
sum_of f (b ∷ bs) = f b + sum_of f bs

-- how often a key stands in the buckets, and how many slots are taken
abbrev pub total : String → List Bucket → ℕ
total q = sum_of (copies q)

abbrev pub taken : List Bucket → ℕ
taken = sum_of filled

pub sum_of-set :
    (f : Bucket → ℕ) (bs : List Bucket) (b : ℕ) (r : Bucket)
    → b < length bs
    → sum_of f (set bs b r) + f (bucket_at bs b) ≡ sum_of f bs + f r
sum_of-set f [] b r lt = absurd (omega arith)
sum_of-set f (x ∷ bs) zero r lt = omega arith
sum_of-set f (x ∷ bs) (suc b) r lt = omega (arith, sum_of-set f bs b r (omega arith))

-- One bucket after a write to a bucket.
after_set :
    (P : Bucket → Type 0) (bs : List Bucket) (b j : ℕ) (r : Bucket)
    → b < length bs
    → (b ≡ j → P r)
    → P (bucket_at bs j)
    → P (bucket_at (set bs b r) j)
after_set P bs b j r lt here there = elim (ℕ_discrete b j) [
  | yes e ↦
      subst P (subst (λ i. r ≡ bucket_at (set bs b r) i) e (sym (get_or-set_self bs b r [] lt)))
        (here e)
  | no n ↦ subst P (sym (get_or-set_ne bs b j r [] n)) there
]

if_lt : (t : Bool) (a b : ℕ) {n : ℕ} → a < n → b < n → (if t then a else b) < n
if_lt true a b p q = p
if_lt false a b p q = q

abbrev pub stash_copies : String → List String → ℕ
stash_copies q [] = 0
stash_copies q (k ∷ s) = to_nat (str_eq k q) + stash_copies q s

-- the multiset of the keys that an index holds, as a count
abbrev pub held : Index → String → ℕ
held x q = total q x.buckets + stash_copies q x.stash

module _ (h : Hashing) (c : Config) where
  abbrev pub IsCandidate : String → ℕ → Type 0
  IsCandidate q b = ((bucket_pair h c q).0 ≡ b) ⊎ ((bucket_pair h c q).1 ≡ b)

  pub record IsShaped (bs : List Bucket) : Type 0 where
    pub width : length bs ≡ c.bucket_count
    pub sized : (b : ℕ) → b < c.bucket_count → length (bucket_at bs b) ≡ c.bucket_size
    pub packed : (b : ℕ) → IsPacked (bucket_at bs b)
    pub homed : (b : ℕ) (q : String) → 0 < copies q (bucket_at bs b) → IsCandidate q b

  pub record IsIndex (x : Index) : Type 0 where
    pub shaped : IsShaped x.buckets
    pub stashed : length x.stash ≤ c.stash_capacity
    pub sized : x.size ≡ taken x.buckets + length x.stash

  mask_lt : IsConfig c → (a : ℕ) → bit_and a (c.bucket_count - 1) < c.bucket_count
  mask_lt v a =
      let pos = one-le-pow v.bits 2 (omega arith) in
      rw (v.count, bit_and-low_ones v.bits a) (mod-lt a pos)

  pub bucket_pair_lt :
      IsConfig c
      → (q : String)
      → ((bucket_pair h c q).0 < c.bucket_count) × ((bucket_pair h c q).1 < c.bucket_count)
  unfolding bucket_pair
  bucket_pair_lt v q = (mask_lt v _, if_lt _ _ _ (mask_lt v _) (mask_lt v _))

  pub candidate_lt : IsConfig c → (q : String) (b : ℕ) → IsCandidate q b → b < c.bucket_count
  candidate_lt v q b m = ground (arith, bucket_pair_lt v q)

  -- A write of `k` to one slot of a bucket of `k` keeps the shape.
  pub set_slot-IsShaped :
      (bs : List Bucket) (b i : ℕ) (k : String) (prior : Option String)
      → b < c.bucket_count
      → IsCandidate k b
      → IsShaped bs
      → Writes (bucket_at bs b) k prior (set (bucket_at bs b) i (some k))
      → IsShaped (set_slot bs b i (some k))
  set_slot-IsShaped bs b i k prior lt home s w =
      let lt' : b < length bs = rw s.width lt in
      let r = set (bucket_at bs b) i (some k) in
      let kept : (q : String) → 0 < copies q r → IsCandidate q b = λ q pos.
        elim (Bool-cases (str_eq k q)) [
          | inl same ↦ subst (λ t. IsCandidate t b) ((eq_iff k q).0 same) home
          | inr other ↦ s.homed b q (ground (arith, w.copied q))
        ] in
      record {
        width = length-set bs b r ∙ s.width;
        sized = λ j hj.
            after_set (λ t. length t ≡ c.bucket_size) bs b j r lt' (λ e. w.width ∙ s.sized b lt)
              (s.sized j hj);
        packed = λ j. after_set IsPacked bs b j r lt' (λ e. w.packed) (s.packed j);
        homed = λ j q.
            after_set (λ t. 0 < copies q t → IsCandidate q j) bs b j r lt'
              (λ e pos. subst (IsCandidate q) e (kept q pos)) (s.homed j q);
      }
