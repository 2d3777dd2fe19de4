-- ===== src/Prelude/Bytes.antt =====
-- Bytes as numbers below 256, and unsigned integers in big-endian order as `struct` packs them.
use Prim.Native.Nat.{ℕ, zero, suc, ◌+◌, ◌*◌, ◌/◌, ◌%◌, ◌^◌, ◌<◌}
use mathlib.Core.Path.{◌≡◌, refl, ap}
use mathlib.Core.List.{List, [], ◌∷◌, ◌++◌}
use native.Mathlib.Nat.{pow-suc}
use native.Mathlib.Omega.{arith}
use durable_infinite_context.Prelude.Lists.{length, length-append}

-- `n` bytes, the most significant first
unfoldable pub to_be : ℕ → ℕ → List ℕ
to_be zero v = []
to_be (suc n) v = to_be n (v / 256) ++ v % 256 ∷ []

unfoldable pub of_be : ℕ → List ℕ → ℕ
of_be acc [] = acc
of_be acc (b ∷ bs) = of_be (acc * 256 + b) bs

abbrev pub take {ℓ} : {A : Type ℓ} → ℕ → List A → List A
take zero xs = []
take (suc n) [] = []
take (suc n) (x ∷ xs) = x ∷ take n xs

abbrev pub drop {ℓ} : {A : Type ℓ} → ℕ → List A → List A
drop zero xs = xs
drop (suc n) [] = []
drop (suc n) (x ∷ xs) = drop n xs

pub length-to_be : (n v : ℕ) → length (to_be n v) ≡ n
unfolding to_be
length-to_be zero v = refl
length-to_be (suc n) v =
    omega (arith, length-append (to_be n (v / 256)) (v % 256 ∷ []), length-to_be n (v / 256))

of_be-append : (acc b : ℕ) (bs : List ℕ) → of_be acc (bs ++ b ∷ []) ≡ of_be acc bs * 256 + b
unfolding of_be
of_be-append acc b [] = refl
of_be-append acc b (x ∷ bs) = of_be-append (acc * 256 + x) b bs

of_be-to_be_acc : (n v acc : ℕ) → v < 256 ^ n → of_be acc (to_be n v) ≡ acc * 256 ^ n + v
unfolding to_be of_be
of_be-to_be_acc zero v acc lt = omega arith
of_be-to_be_acc (suc n) v acc lt =
    let small : v / 256 < 256 ^ n = omega (arith, pow-suc 256 n) in
    omega (
      arith,
      of_be-append acc (v % 256) (to_be n (v / 256)),
      of_be-to_be_acc n (v / 256) acc small,
      pow-suc 256 n,
      ap (λ (t : ℕ). acc * t) (pow-suc 256 n),
    )

-- What fits in `n` bytes is read back.
pub of_be-to_be : (n v : ℕ) → v < 256 ^ n → of_be 0 (to_be n v) ≡ v
of_be-to_be n v lt = omega (arith, of_be-to_be_acc n v 0 lt)

pub take-append {ℓ} : {A : Type ℓ} (xs ys : List A) (n : ℕ) → length xs ≡ n → take n (xs ++ ys) ≡ xs
take-append [] ys zero e = refl
take-append [] ys (suc n) e = absurd (omega arith)
take-append (x ∷ xs) ys zero e = absurd (omega arith)
take-append (x ∷ xs) ys (suc n) e = ap (λ t. x ∷ t) (take-append xs ys n (omega arith))

pub drop-append {ℓ} : {A : Type ℓ} (xs ys : List A) (n : ℕ) → length xs ≡ n → drop n (xs ++ ys) ≡ ys
drop-append [] ys zero e = refl
drop-append [] ys (suc n) e = absurd (omega arith)
drop-append (x ∷ xs) ys zero e = absurd (omega arith)
drop-append (x ∷ xs) ys (suc n) e = drop-append xs ys n (omega arith)
