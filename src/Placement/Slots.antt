-- ===== src/Placement/Slots.antt =====
-- One bucket: what it holds, that its empty slots stand last, and the two ways to write a slot.
use durable_infinite_context.Prelude.{
  ℕ, zero, suc, ◌+◌, ◌≤◌, ◌<◌, ◌≡◌, refl, ap, String, Option, none, some, [], ◌∷◌, arith, str_eq,
  length, get_or, set,
}
use durable_infinite_context.Prelude.Slots.{to_nat, copies, filled}
use durable_infinite_context.Placement.{Bucket, first_empty}

abbrev pub IsVacant : Bucket → Type 0
IsVacant [] = Unit
IsVacant (none ∷ b) = IsVacant b
IsVacant (some k ∷ b) = ⊥

-- the empty slots stand behind the taken ones
abbrev pub IsPacked : Bucket → Type 0
IsPacked [] = Unit
IsPacked (none ∷ b) = IsVacant b
IsPacked (some k ∷ b) = IsPacked b

pub first_empty-scanned : (i n : ℕ) (b : Bucket) → (first_empty i n b).1 ≤ n + length b
unfolding first_empty
first_empty-scanned i n [] = omega arith
first_empty-scanned i n (none ∷ b) = omega arith
first_empty-scanned i n (some k ∷ b) = omega (arith, first_empty-scanned (i + 1) (n + 1) b)

-- no empty slot was found: every slot holds a key
pub full-get_or :
    (i n : ℕ) (b : Bucket) (j : ℕ)
    → (first_empty i n b).0 ≡ none
    → j < length b
    → (k : String) × (get_or b j none ≡ some k)
unfolding first_empty
full-get_or i n [] j full lt = absurd (omega arith)
full-get_or i n (none ∷ b) j full lt = absurd (cc)
full-get_or i n (some k ∷ b) zero full lt = (k, refl)
full-get_or i n (some k ∷ b) (suc j) full lt = full-get_or (i + 1) (n + 1) b j full (omega arith)

-- What a write of `k` does to a bucket, where `prior` stood there before.
pub record Writes (b : Bucket) (k : String) (prior : Option String) (r : Bucket) : Type 0 where
  pub width : length r ≡ length b
  pub packed : IsPacked r
  pub copied : (q : String) → copies q r + copies q (prior ∷ []) ≡ copies q b + to_nat (str_eq k q)
  pub count : filled r + filled (prior ∷ []) ≡ filled b + 1

vacant-IsPacked : (b : Bucket) → IsVacant b → IsPacked b
vacant-IsPacked [] h = tt
vacant-IsPacked (none ∷ b) h = h
vacant-IsPacked (some k ∷ b) h = absurd h

first_empty-ge : (i n : ℕ) (b : Bucket) {e : ℕ} → (first_empty i n b).0 ≡ some e → i ≤ e
unfolding first_empty
first_empty-ge i n [] found = absurd (cc)
first_empty-ge i n (none ∷ b) found = ground arith
first_empty-ge i n (some k ∷ b) found = omega (arith, first_empty-ge (i + 1) (n + 1) b found)

fill_at :
    (i n j : ℕ) (b : Bucket) (k : String) {e : ℕ}
    → IsPacked b
    → (first_empty i n b).0 ≡ some e
    → e ≡ i + j
    → Writes b k none (set b j (some k))
unfolding first_empty
fill_at i n j [] k p found e = absurd (cc)
fill_at i n zero (none ∷ b) k p found e = record {
  width = refl;
  packed = vacant-IsPacked b p;
  copied = λ q. omega arith;
  count = omega arith;
}
fill_at i n (suc j) (none ∷ b) k p found e = absurd (ground arith)
fill_at i n zero (some v ∷ b) k p found e =
    absurd (omega (arith, first_empty-ge (i + 1) (n + 1) b found))
fill_at i n (suc j) (some v ∷ b) k p found e =
    let w = fill_at (i + 1) (n + 1) j b k p found (omega arith) in
    record {
      width = ap suc w.width;
      packed = w.packed;
      copied = λ q. omega (arith, w.copied q);
      count = omega (arith, w.count);
    }

-- The first empty slot takes a key.
pub fill :
    (b : Bucket) (k : String) (e : ℕ)
    → IsPacked b
    → (first_empty 0 0 b).0 ≡ some e
    → Writes b k none (set b e (some k))
fill b k e p found = fill_at 0 0 e b k p found (omega arith)

vacant-none : (b : Bucket) (j : ℕ) (v : String) → IsVacant b → get_or b j none ≡ some v → ⊥
vacant-none [] j v h there = cc
vacant-none (none ∷ b) zero v h there = cc
vacant-none (none ∷ b) (suc j) v h there = vacant-none b j v h there
vacant-none (some k ∷ b) j v h there = h

-- A taken slot is taken over.
pub swap :
    (b : Bucket) (j : ℕ) (k v : String)
    → IsPacked b
    → get_or b j none ≡ some v
    → Writes b k (some v) (set b j (some k))
swap [] j k v p there = absurd (cc)
swap (none ∷ b) zero k v p there = absurd (cc)
swap (none ∷ b) (suc j) k v p there = absurd (vacant-none b j v p there)
swap (some u ∷ b) zero k v p there =
    let e : u ≡ v = ground arith in
    record { width = refl; packed = p; copied = λ q. rw e (omega arith); count = omega arith }
swap (some u ∷ b) (suc j) k v p there =
    let w = swap b j k v p there in
    record {
      width = ap suc w.width;
      packed = w.packed;
      copied = λ q. omega (arith, w.copied q);
      count = omega (arith, w.count);
    }
