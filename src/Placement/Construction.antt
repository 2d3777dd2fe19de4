-- ===== src/Placement/Construction.antt =====
-- BoundedBucketCuckooIndex.__init__: the configurations that it accepts, and the index it builds.
use native.Mathlib.Nat.{div-add-mod'}
use durable_infinite_context.Prelude.{
  ok, ℕ, zero, suc, ◌-◌, ◌*◌, ◌/◌, ◌%◌, ◌<◌, ◌≡◌, refl, sym, ◌∙◌, String, Option, none, List, [],
  arith, replicate, length-replicate,
}
use Prim.Native.Nat.{bit_and}
use durable_infinite_context.Prelude.Bits.{power_of_two}
use durable_infinite_context.Placement.{Hashing, Config, Index, Bucket, bucket_at, new}
use durable_infinite_context.Prelude.Slots.{copies, filled, copies-replicate, filled-replicate}
use durable_infinite_context.Placement.Slots.{IsPacked, IsVacant}
use durable_infinite_context.Placement.Invariant.{IsConfig, IsShaped, IsIndex, held, sum_of}

blank-IsVacant : (n : ℕ) → IsVacant (replicate n none)
blank-IsVacant zero = tt
blank-IsVacant (suc n) = blank-IsVacant n

blank-IsPacked : (n : ℕ) → IsPacked (replicate n none)
blank-IsPacked zero = tt
blank-IsPacked (suc n) = blank-IsVacant n

sum_of-blank : (f : Bucket → ℕ) (b : Bucket) (n : ℕ) → f b ≡ 0 → sum_of f (replicate n b) ≡ 0
sum_of-blank f b zero e = refl
sum_of-blank f b (suc n) e = omega (arith, e, sum_of-blank f b n e)

replicate_cases :
    (P : Bucket → Type 0) (n i : ℕ) (b : Bucket) → P [] → P b → P (bucket_at (replicate n b) i)
replicate_cases P zero i b p q = p
replicate_cases P (suc n) zero b p q = q
replicate_cases P (suc n) (suc i) b p q = replicate_cases P n i b p q

get_or-replicate_lt : (n i : ℕ) (b : Bucket) → i < n → bucket_at (replicate n b) i ≡ b
get_or-replicate_lt zero i b lt = absurd (omega arith)
get_or-replicate_lt (suc n) zero b lt = refl
get_or-replicate_lt (suc n) (suc i) b lt = get_or-replicate_lt n i b (omega arith)

module _ (h : Hashing) (capacity bucket_size max_kicks stash : ℕ) (k₁ k₂ choice victim : String)
    (pair : Option (String → ℕ × ℕ)) where
  record Accepts (c : Config) (x : Index) : Type 0 where
    several : 1 < capacity / bucket_size
    power : bit_and (capacity / bucket_size) (capacity / bucket_size - 1) ≡ 0
    roomy : 0 < bucket_size
    divides : capacity % bucket_size ≡ 0
    kicking : 0 < max_kicks
    count_set : c.bucket_count ≡ capacity / bucket_size
    size_set : c.bucket_size ≡ bucket_size
    kicks_set : c.max_kicks ≡ max_kicks
    buckets_set : x.buckets ≡ replicate (capacity / bucket_size) (replicate bucket_size none)
    stash_set : x.stash ≡ []
    zero_size : x.size ≡ 0

  new-Accepts :
      (c : Config) (x : Index)
      → new capacity bucket_size max_kicks stash k₁ k₂ choice victim pair ≡ ok (c, x)
      → Accepts c x
  unfolding new
  new-Accepts c x run = ground arith

  blank_index-IsShaped :
      (c : Config) (bs : List Bucket) (n m : ℕ)
      → bs ≡ replicate n (replicate m none)
      → c.bucket_count ≡ n
      → c.bucket_size ≡ m
      → IsShaped h c bs
  blank_index-IsShaped c bs n m e count size = rw e (record {
    width = length-replicate n _ ∙ sym count;
    sized = λ b lt.
        rw (get_or-replicate_lt n b (replicate m none) (omega arith))
          (length-replicate m none ∙ sym size);
    packed = λ b. replicate_cases IsPacked n b (replicate m none) tt (blank-IsPacked m);
    homed = λ b q pos. absurd (
        replicate_cases (λ t. 0 < copies q t → ⊥) n b (replicate m none) (λ k. omega arith)
          (λ k. omega (arith, copies-replicate q m)) pos);
  })

  -- An accepted configuration has the capacity asked for, split into a power of two of at least two
  -- equal buckets; the new index is well-formed and holds no key.
  pub new-IsIndex :
      (c : Config) (x : Index) (q : String)
      → new capacity bucket_size max_kicks stash k₁ k₂ choice victim pair ≡ ok (c, x)
      → IsConfig c × IsIndex h c x × (c.bucket_count * c.bucket_size ≡ capacity) × (held x q ≡ 0)
  new-IsIndex c x q run =
      let a = new-Accepts c x run in
      let n = capacity / bucket_size in
      let (k, e) = power_of_two n (omega arith) a.power in
      (
        record {
          bits = k;
          count = a.count_set ∙ e;
          several = omega arith;
          roomy = omega arith;
          kicking = omega arith;
        },
        record {
          shaped =
              blank_index-IsShaped c x.buckets n bucket_size a.buckets_set a.count_set a.size_set;
          stashed = rw a.stash_set (omega arith);
          sized =
              rw (a.buckets_set, a.stash_set)
                (omega (
                  arith,
                  a.zero_size,
                  sum_of-blank filled (replicate bucket_size none) n (filled-replicate bucket_size),
                ));
        },
        rw (a.count_set, a.size_set) (omega (arith, div-add-mod' capacity bucket_size, a.divides)),
        rw (a.buckets_set, a.stash_set)
            (omega (
              arith,
              sum_of-blank (copies q) (replicate bucket_size none) n
                  (copies-replicate q bucket_size),
            )),
      )
