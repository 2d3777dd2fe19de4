-- ===== src/Prelude/ByteBits.antt =====
-- The bits of one byte, and of a list of bytes: `bits[k // 8] |= 1 << (k % 8)` and its test.
use Prim.Native.Nat.{bit_and, bit_or}
use durable_infinite_context.Prelude.Lists.{
  length, get_or, set, get_or-set_self, get_or-set_ne, length-set,
}
use Prim.Native.Nat.{ℕ, zero, suc, ◌/◌, ◌%◌, ◌^◌, ◌≤◌, ◌<◌}
use mathlib.Core.Path.{◌≡◌, refl, sym, ap, subst, ◌∙◌}
use mathlib.Core.Bool.{Bool, true, false, not, ◌&&◌, ◌||◌}
use mathlib.Core.List.{List, [], ◌∷◌}
use native.Mathlib.Decide.{ℕ_discrete}
use mathlib.Core.Logic.{inl, inr}
use native.Mathlib.Omega.{arith}
use durable_infinite_context.Prelude.Tests.{◌==◌, Bool-cases, ltb, if◌then◌else◌}

abbrev pub bit_test : ℕ → ℕ → Bool
bit_test b j = not (bit_and b (2 ^ j) == 0)

unfoldable every : ℕ → (ℕ → Bool) → Bool
every zero p = true
every (suc n) p = p n && every n p

every-at : (n : ℕ) (p : ℕ → Bool) (k : ℕ) → every n p ≡ true → k < n → p k ≡ true
unfolding every
every-at zero p k h lt = absurd (omega arith)
every-at (suc n) p k h lt = elim (Bool-cases (k == n)) [
  | inl t ↦ let e : k ≡ n = ground arith in rw e (ground arith)
  | inr t ↦ every-at n p k (ground arith) (ground arith)
]

abbrev same_bool : Bool → Bool → Bool
same_bool a b = if a then b else not b

abbrev sets_bit : ℕ → ℕ → ℕ → Bool
sets_bit b i j = same_bool (bit_test (bit_or b (2 ^ i)) j) (i == j || bit_test b j)

table : every 256 (λ b. every 8 (λ i. every 8 (λ j. sets_bit b i j))) ≡ true
unfolding every
table = refl

in_byte : every 256 (λ b. every 8 (λ i. ltb (bit_or b (2 ^ i)) 256)) ≡ true
unfolding every
in_byte = refl

same_bool-is : (a b : Bool) → same_bool a b ≡ true → a ≡ b
same_bool-is true b h = cc
same_bool-is false true h = cc
same_bool-is false false h = refl

-- Setting a bit of a byte sets that bit and no other.
pub bit_test-or :
    (b i j : ℕ) → b < 256 → i < 8 → j < 8 → bit_test (bit_or b (2 ^ i)) j ≡ (i == j || bit_test b j)
bit_test-or b i j small low low' =
    let rows = every-at 256 (λ b. every 8 (λ i. every 8 (λ j. sets_bit b i j))) b table small in
    let row = every-at 8 (λ i. every 8 (λ j. sets_bit b i j)) i rows low in
    same_bool-is _ _ (every-at 8 (λ j. sets_bit b i j) j row low')

pub or_byte : (b i : ℕ) → b < 256 → i < 8 → bit_or b (2 ^ i) < 256
or_byte b i small low =
    let rows = every-at 256 (λ b. every 8 (λ i. ltb (bit_or b (2 ^ i)) 256)) b in_byte small in
    let row = every-at 8 (λ i. ltb (bit_or b (2 ^ i)) 256) i rows low in ground arith

-- `bits[k // 8] & (1 << (k % 8))`
unfoldable pub has_bit : ℕ → List ℕ → Bool
has_bit k bits = bit_test (get_or bits (k / 8) 0) (k % 8)

-- `bits[k // 8] |= 1 << (k % 8)`
unfoldable pub set_bit : ℕ → List ℕ → List ℕ
set_bit k bits = set bits (k / 8) (bit_or (get_or bits (k / 8) 0) (2 ^ (k % 8)))

abbrev pub AreBytes : List ℕ → Type 0
AreBytes bits = (i : ℕ) → get_or bits i 0 < 256

pub has_bit-set_bit :
    (q k : ℕ) (bits : List ℕ)
    → AreBytes bits
    → k / 8 < length bits
    → has_bit q (set_bit k bits) ≡ (q == k || has_bit q bits)
unfolding has_bit set_bit
has_bit-set_bit q k bits bytes lt =
    let new : ℕ = bit_or (get_or bits (k / 8) 0) (2 ^ (k % 8)) in
    elim (ℕ_discrete (k / 8) (q / 8)) [
      | yes e ↦
          let here : get_or (set bits (k / 8) new) (q / 8) 0 ≡ new =
            ap (λ i. get_or (set bits (k / 8) new) i 0) (sym e)
            ∙ get_or-set_self bits (k / 8) new 0 lt in
          let same : (k % 8 == q % 8) ≡ (q == k) = ground arith in
          ap (λ b. bit_test b (q % 8)) here
          ∙ bit_test-or (get_or bits (k / 8) 0) (k % 8) (q % 8) (bytes (k / 8)) (omega arith)
              (omega arith)
          ∙ ap (λ i. k % 8 == q % 8 || bit_test (get_or bits i 0) (q % 8)) e
          ∙ ap (λ c. c || bit_test (get_or bits (q / 8) 0) (q % 8)) same
      | no ne ↦
          let other : (q == k) ≡ false = ground arith in
          ap (λ b. bit_test b (q % 8)) (get_or-set_ne bits (k / 8) (q / 8) new 0 ne)
          ∙ sym (ap (λ c. c || bit_test (get_or bits (q / 8) 0) (q % 8)) other)
    ]

get_or-past : (xs : List ℕ) (i d : ℕ) → length xs ≤ i → get_or xs i d ≡ d
get_or-past [] i d le = refl
get_or-past (x ∷ xs) zero d le = absurd (omega arith)
get_or-past (x ∷ xs) (suc i) d le = get_or-past xs i d (omega arith)

pub set_bit-AreBytes : (k : ℕ) (bits : List ℕ) → AreBytes bits → AreBytes (set_bit k bits)
unfolding set_bit
set_bit-AreBytes k bits bytes i =
    let new : ℕ = bit_or (get_or bits (k / 8) 0) (2 ^ (k % 8)) in
    let small : new < 256 = or_byte (get_or bits (k / 8) 0) (k % 8) (bytes (k / 8)) (omega arith) in
    elim (ℕ_discrete (k / 8) i) [
      | yes e ↦ elim (Bool-cases (ltb (k / 8) (length bits))) [
        | inl t ↦
            let is = get_or-set_self bits (k / 8) new 0 (ground arith) in
            subst (λ i. get_or (set bits (k / 8) new) i 0 < 256) e (omega (arith, is))
        | inr t ↦
            let past : length bits ≤ k / 8 = ground arith in
            let is : get_or (set bits (k / 8) new) (k / 8) 0 ≡ 0 =
              get_or-past (set bits (k / 8) new) (k / 8) 0
                (omega (arith, length-set bits (k / 8) new)) in
            subst (λ i. get_or (set bits (k / 8) new) i 0 < 256) e (omega (arith, is))
      ]
      | no ne ↦ let is = get_or-set_ne bits (k / 8) i new 0 ne in omega (arith, is, bytes i)
    ]

pub length-set_bit : (k : ℕ) (bits : List ℕ) → length (set_bit k bits) ≡ length bits
unfolding set_bit
length-set_bit k bits = length-set bits (k / 8) _
