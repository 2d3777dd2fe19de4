-- ===== src/Radix/Digits.antt =====
-- The digits of a segment id: that there are eight of them, bytes each, and that they give back the id.
use durable_infinite_context.Prelude.{
  ℕ, zero, suc, ◌+◌, ◌-◌, ◌*◌, ◌/◌, ◌%◌, ◌^◌, ◌<◌, ◌≤◌, ◌≡◌, List, [], ◌∷◌, length, All, arith,
  refl, sym, ap, ◌∙◌,
}
use Prim.Native.Nat.{bit_and}
use native.Mathlib.Nat.{pow-suc, one-le-pow, le_antisymm, div-mul-le_self, le-div_iff_mul-le}
use durable_infinite_context.Prelude.Bits.{bit_and-low_ones}
use durable_infinite_context.Radix.{digits_from, radix_digits}
use durable_infinite_context.Radix.Allocation.{Byte}
use durable_infinite_context.Radix.Pending.{path}
use durable_infinite_context.Radix.Tree.Growth.{onto}

-- digits read from the most significant one
unfoldable pub number_of : ℕ → List ℕ → ℕ
number_of acc [] = acc
number_of acc (d ∷ ds) = number_of (acc * 256 + d) ds

byte_of : (a : ℕ) → bit_and a (256 - 1) ≡ a % 256
byte_of a = bit_and-low_ones 8 a

pub digits_from-length : (n q : ℕ) → length (digits_from n q) ≡ n
unfolding digits_from
digits_from-length zero q = refl
digits_from-length (suc n) q = ap suc (digits_from-length n q)

pub digits_from-Byte : (n q : ℕ) → All Byte (digits_from n q)
unfolding digits_from
digits_from-Byte zero q = tt
digits_from-Byte (suc n) q = (omega (arith, byte_of (q / 2 ^ (8 * n))), digits_from-Byte n q)

pow_byte : (n : ℕ) → 2 ^ (8 * suc n) ≡ 2 ^ (8 * n) * 256
pow_byte n =
    let e : 8 * suc n ≡ suc (suc (suc (suc (suc (suc (suc (suc (8 * n)))))))) = omega arith in
    rw e (
      omega (
        arith,
        pow-suc 2 (8 * n),
        pow-suc 2 (suc (8 * n)),
        pow-suc 2 (suc (suc (8 * n))),
        pow-suc 2 (suc (suc (suc (8 * n)))),
        pow-suc 2 (suc (suc (suc (suc (8 * n))))),
        pow-suc 2 (suc (suc (suc (suc (suc (8 * n)))))),
        pow-suc 2 (suc (suc (suc (suc (suc (suc (8 * n))))))),
        pow-suc 2 (suc (suc (suc (suc (suc (suc (suc (8 * n)))))))),
      ))

regroup : (a p : ℕ) → a * 256 * p ≡ a * (p * 256)
regroup a p = grind arith

div_byte : (q p : ℕ) → 0 < p → q / (p * 256) ≡ q / p / 256
div_byte q p h =
    let a : ℕ = q / (p * 256) in
    let b : ℕ = q / p / 256 in
    let up : a * (p * 256) ≤ q = div-mul-le_self q (p * 256) in
    let down : b * 256 * p ≤ q =
      (le-div_iff_mul-le {x = b * 256} {y = q} h).0
        ((le-div_iff_mul-le {x = b} {y = q / p} (omega arith)).0 (omega arith)) in
    let le : a ≤ b =
      (le-div_iff_mul-le {x = a} {y = q / p} (omega arith)).1
        ((le-div_iff_mul-le {x = a * 256} {y = q} h).1 (rw (regroup a p) up)) in
    let ge : b ≤ a =
      (le-div_iff_mul-le {x = b} {y = q} (omega arith)).1 (rw (sym (regroup b p)) down) in
    le_antisymm le ge

number_of-digits_from : (n q : ℕ) → number_of (q / 2 ^ (8 * n)) (digits_from n q) ≡ q
unfolding digits_from number_of
number_of-digits_from zero q = omega arith
number_of-digits_from (suc n) q =
    let pos : 0 < 2 ^ (8 * n) = one-le-pow (8 * n) 2 (omega arith) in
    let deeper : q / 2 ^ (8 * suc n) ≡ q / 2 ^ (8 * n) / 256 =
      ap (λ k. q / k) (pow_byte n) ∙ div_byte q (2 ^ (8 * n)) pos in
    let joined : q / 2 ^ (8 * suc n) * 256 + bit_and (q / 2 ^ (8 * n)) (256 - 1) ≡ q / 2 ^ (8 * n) =
      omega (arith, deeper, byte_of (q / 2 ^ (8 * n))) in
    ap (λ a. number_of a (digits_from n q)) joined ∙ number_of-digits_from n q

-- The digits of an id below 2^64 are those of no other number.
pub number_of-radix_digits : (q : ℕ) → q < 2 ^ 64 → number_of 0 (radix_digits q) ≡ q
number_of-radix_digits q lt =
    let top : q / 2 ^ 64 ≡ 0 = omega arith in
    ap (λ a. number_of a (radix_digits q)) (sym top) ∙ number_of-digits_from 8 q

-- a path's digits, the last one first
abbrev path_number : List ℕ → ℕ
path_number [] = 0
path_number (d ∷ p) = path_number p * 256 + d

path_number-onto : (ds p : List ℕ) → path_number (onto ds p) ≡ number_of (path_number p) ds
unfolding number_of
path_number-onto [] p = refl
path_number-onto (d ∷ ds) p = path_number-onto ds (d ∷ p)

-- Different segments have different paths.
pub path-injective : (q r : ℕ) → q < 2 ^ 64 → r < 2 ^ 64 → path q ≡ path r → q ≡ r
path-injective q r lt lt' same =
    sym (number_of-radix_digits q lt)
    ∙ sym (path_number-onto (radix_digits q) [])
    ∙ ap path_number same
    ∙ path_number-onto (radix_digits r) []
    ∙ number_of-radix_digits r lt'

length-onto : (ds p : List ℕ) → length (onto ds p) ≡ length ds + length p
length-onto [] p = omega arith
length-onto (d ∷ ds) p = omega (arith, length-onto ds (d ∷ p))

pub length-path : (r : ℕ) → length (path r) ≡ 8
length-path r = length-onto (radix_digits r) [] ∙ ap (λ k. k + 0) (digits_from-length 8 r)
