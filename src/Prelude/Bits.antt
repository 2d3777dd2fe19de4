-- ===== src/Prelude/Bits.antt =====
-- Masks of low bits: `x & (n - 1)` for a power of two n, and the test `n & (n - 1)` for one.
use Prim.Native.Nat.{
  ℕ, zero, suc, ◌+◌, ◌-◌, ◌*◌, ◌/◌, ◌%◌, ◌^◌, ◌≤◌, ◌<◌, min, bit_and, digits, bit_and-bitwise,
}
use mathlib.Core.Path.{◌≡◌, refl, ap}
use mathlib.Core.WellFounded
use native.Mathlib.Nat.{pow-suc, one-le-pow}
use native.Mathlib.Decide.{ℕ_discrete}
use native.Mathlib.Omega.{arith}
use mathlib.Core.Bool.{Bool, false, not, ◌||◌}
use durable_infinite_context.Prelude.Order.{lt_wf}
use durable_infinite_context.Prelude.Tests.{◌==◌}

-- The native operation by its digits, with the bound on their number as a variable.
abbrev low_and : ℕ → ℕ → ℕ → ℕ
low_and n a b = digits (λ b. zero) min n a b

low_and_any : (n m a b : ℕ) → a ≤ n → a ≤ m → low_and n a b ≡ low_and m a b
low_and_any (suc n) (suc m) (suc a) b p q =
    omega (arith, low_and_any n m (suc a / 2) (b / 2) (omega arith) (omega arith))
low_and_any n zero (suc a) b p q = absurd (omega arith)
low_and_any zero m (suc a) b p q = absurd (omega arith)
low_and_any zero zero zero b p q = refl
low_and_any zero (suc m) zero b p q = refl
low_and_any (suc n) zero zero b p q = refl
low_and_any (suc n) (suc m) zero b p q = refl

pub bit_and_halves : (a b : ℕ) → bit_and a b ≡ 2 * bit_and (a / 2) (b / 2) + min (a % 2) (b % 2)
bit_and_halves zero b = omega (arith, bit_and-bitwise 0 b, bit_and-bitwise 0 (b / 2))
bit_and_halves (suc a) b = omega (
  arith,
  bit_and-bitwise (suc a) b,
  bit_and-bitwise (suc a / 2) (b / 2),
  low_and_any a (suc a / 2) (suc a / 2) (b / 2) (omega arith) (omega arith),
)

bit_and-zero : (a : ℕ) → bit_and a 0 ≡ 0
bit_and-zero a =
    WellFounded.induction lt_wf {C = λ n. bit_and n 0 ≡ 0} a
      λ n ih. ground (arith, bit_and_halves n 0, bit_and-bitwise n 0, ih (n / 2))

bit_and-self_fuel : (k a : ℕ) → a ≤ k → bit_and a a ≡ a
bit_and-self_fuel zero zero h = bit_and-zero 0
bit_and-self_fuel zero (suc a) h = absurd (omega arith)
bit_and-self_fuel (suc k) zero h = bit_and-zero 0
bit_and-self_fuel (suc k) (suc a) h =
    omega (arith, bit_and_halves (suc a) (suc a), bit_and-self_fuel k (suc a / 2) (omega arith))

mod_double : (a p : ℕ) → 0 < p → a % (p * 2) ≡ 2 * (a / 2 % p) + a % 2
mod_double a p h = grind arith

-- A mask of k ones is the remainder by `2 ^ k`.
pub bit_and-low_ones : (k a : ℕ) → bit_and a (2 ^ k - 1) ≡ a % 2 ^ k
bit_and-low_ones zero a = rw bit_and-zero (omega arith)
bit_and-low_ones (suc k) a =
    let pos : 0 < 2 ^ k = one-le-pow k 2 (omega arith) in
    let e : (2 ^ k * 2 - 1) / 2 ≡ 2 ^ k - 1 = omega arith in
    rw (pow-suc 2 k) (
      omega (
        arith,
        bit_and_halves a (2 ^ k * 2 - 1),
        ap (bit_and (a / 2)) e,
        bit_and-low_ones k (a / 2),
        mod_double a (2 ^ k) pos,
      ))

power_of_two_fuel : (f n : ℕ) → n ≤ f → 0 < n → bit_and n (n - 1) ≡ 0 → (k : ℕ) × (n ≡ 2 ^ k)
power_of_two_fuel zero n le h e = absurd (omega arith)
power_of_two_fuel (suc f) n le h e = elim (ℕ_discrete (n % 2) 0) [
  | yes even ↦
      let half : (n - 1) / 2 ≡ n / 2 - 1 = omega arith in
      let rest : bit_and (n / 2) (n / 2 - 1) ≡ 0 =
        omega (arith, bit_and_halves n (n - 1), ap (bit_and (n / 2)) half) in
      let (k, p) = power_of_two_fuel f (n / 2) (omega arith) (omega arith) rest in
      (suc k, rw (pow-suc 2 k) (omega arith))
  | no odd ↦
      let half : (n - 1) / 2 ≡ n / 2 = omega arith in
      (
        0,
        omega (
          arith,
          bit_and_halves n (n - 1),
          ap (bit_and (n / 2)) half,
          bit_and-self_fuel n (n / 2) (omega arith),
        ),
      )
]

-- A positive number that has no bit in common with its predecessor is a power of two.
pub power_of_two : (n : ℕ) → 0 < n → bit_and n (n - 1) ≡ 0 → (k : ℕ) × (n ≡ 2 ^ k)
power_of_two n = power_of_two_fuel n n (omega arith)

-- `not n or n & (n - 1)`, the test for what is no power of two
abbrev pub no_power : ℕ → Bool
no_power n = n == 0 || not (bit_and n (n - 1) == 0)

-- what passes the test is a power of two
pub power_of_no_power : (n : ℕ) → no_power n ≡ false → (k : ℕ) × (n ≡ 2 ^ k)
power_of_no_power n h = power_of_two n (ground arith) (ground arith)
