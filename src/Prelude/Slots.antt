-- ===== src/Prelude/Slots.antt =====
-- Slots of a hash table: each is empty or holds a key.
use Prim.Native.Nat.{ℕ, zero, suc, ◌+◌, ◌≤◌, ◌<◌}
use Prim.Native.String.{String}
use mathlib.Core.Path.{◌≡◌, refl, ap}
use mathlib.Core.Logic.{◌≢◌, inl, inr}
use mathlib.Core.Bool.{Bool, true, false}
use mathlib.Core.Option.{Option, none, some}
use mathlib.Core.List.{List, [], ◌∷◌}
use native.Mathlib.Omega.{arith}
use text.Mathlib.Text.{◌==◌ as str_eq}
use text.Mathlib.TextEquality.{eq_iff}
use durable_infinite_context.Prelude.Tests.{Bool-cases}
use durable_infinite_context.Prelude.Lists.{length, get_or, set, replicate}

abbrev pub Slots : Type 0
Slots = List (Option String)

abbrev pub to_nat : Bool → ℕ
to_nat true = 1
to_nat false = 0

-- how often a key stands among slots
abbrev pub copies : String → Slots → ℕ
copies q [] = 0
copies q (none ∷ b) = copies q b
copies q (some k ∷ b) = to_nat (str_eq k q) + copies q b

-- the slots that are taken
abbrev pub filled : Slots → ℕ
filled [] = 0
filled (none ∷ b) = filled b
filled (some k ∷ b) = suc (filled b)

pub copies_pos_of_get_or :
    (b : Slots) (j : ℕ) (k : String) → get_or b j none ≡ some k → 0 < copies k b
copies_pos_of_get_or [] j k e = absurd (cc)
copies_pos_of_get_or (none ∷ b) zero k e = absurd (cc)
copies_pos_of_get_or (some v ∷ b) zero k e = ground (arith, eq_iff v k)
copies_pos_of_get_or (none ∷ b) (suc j) k e = copies_pos_of_get_or b j k e
copies_pos_of_get_or (some v ∷ b) (suc j) k e = omega (arith, copies_pos_of_get_or b j k e)

-- a key that stands among the slots stands in one of them
pub slot_of : (q : String) (b : Slots) → 0 < copies q b → (p : ℕ) × (get_or b p none ≡ some q)
slot_of q [] pos = absurd (omega arith)
slot_of q (none ∷ b) pos = let (p, e) = slot_of q b pos in (suc p, e)
slot_of q (some k ∷ b) pos = elim (Bool-cases (str_eq k q)) [
  | inl same ↦ (0, ap some ((eq_iff k q).0 same))
  | inr other ↦ let (p, e) = slot_of q b (ground (arith, other)) in (suc p, e)
]

pub taken_lt : (b : Slots) (p : ℕ) {k : String} → get_or b p none ≡ some k → p < length b
taken_lt [] p e = absurd (cc)
taken_lt (x ∷ b) zero e = omega arith
taken_lt (x ∷ b) (suc p) e = omega (arith, taken_lt b p e)

-- A key is written into an empty slot.
pub copies-set :
    (q k : String) (b : Slots) (p : ℕ)
    → p < length b
    → get_or b p none ≡ none
    → copies q (set b p (some k)) ≡ to_nat (str_eq k q) + copies q b
copies-set q k [] p lt e = absurd (omega arith)
copies-set q k (none ∷ b) zero lt e = refl
copies-set q k (some v ∷ b) zero lt e = absurd (cc)
copies-set q k (none ∷ b) (suc p) lt e = copies-set q k b p (omega arith) e
copies-set q k (some v ∷ b) (suc p) lt e = omega (arith, copies-set q k b p (omega arith) e)

pub filled-set :
    (k : String) (b : Slots) (p : ℕ)
    → p < length b
    → get_or b p none ≡ none
    → filled (set b p (some k)) ≡ suc (filled b)
filled-set k [] p lt e = absurd (omega arith)
filled-set k (none ∷ b) zero lt e = refl
filled-set k (some v ∷ b) zero lt e = absurd (cc)
filled-set k (none ∷ b) (suc p) lt e = filled-set k b p (omega arith) e
filled-set k (some v ∷ b) (suc p) lt e = ap suc (filled-set k b p (omega arith) e)

-- If no slot is empty, all are taken.
pub filled_all :
    (b : Slots) → ((p : ℕ) → p < length b → get_or b p none ≢ none) → filled b ≡ length b
filled_all [] full = refl
filled_all (none ∷ b) full = absurd (full 0 (omega arith) refl)
filled_all (some k ∷ b) full = ap suc (filled_all b (λ p lt. full (suc p) (omega arith)))

pub copies-replicate : (q : String) (n : ℕ) → copies q (replicate n none) ≡ 0
copies-replicate q zero = refl
copies-replicate q (suc n) = copies-replicate q n

pub filled-replicate : (n : ℕ) → filled (replicate n none) ≡ 0
filled-replicate zero = refl
filled-replicate (suc n) = filled-replicate n

pub filled_le : (b : Slots) → filled b ≤ length b
filled_le [] = omega arith
filled_le (none ∷ b) = omega (arith, filled_le b)
filled_le (some k ∷ b) = omega (arith, filled_le b)

-- Where one slot is empty, not all are taken.
pub filled_lt : (b : Slots) (p : ℕ) → p < length b → get_or b p none ≡ none → filled b < length b
filled_lt [] p lt e = absurd (omega arith)
filled_lt (none ∷ b) zero lt e = omega (arith, filled_le b)
filled_lt (some v ∷ b) zero lt e = absurd (cc)
filled_lt (none ∷ b) (suc p) lt e = omega (arith, filled_lt b p (omega arith) e)
filled_lt (some v ∷ b) (suc p) lt e = omega (arith, filled_lt b p (omega arith) e)
