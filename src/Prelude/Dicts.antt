-- ===== src/Prelude/Dicts.antt =====
-- Python's dictionaries as lists of entries in the order of insertion, over keys with an equality.
use Prim.Native.String.{String}
use mathlib.Core.Path.{◌≡◌, refl, ap, ◌∙◌}
use mathlib.Core.Logic.{◌≢◌, ◌↔◌, inl, inr}
use mathlib.Core.Bool.{Bool, true, false, ◌&&◌}
use mathlib.Core.Option.{Option, none, some}
use mathlib.Core.List.{List, [], ◌∷◌}
use native.Mathlib.Omega.{arith}
use text.Mathlib.Text.{◌==◌ as str_eq}
use text.Mathlib.TextEquality.{eq_iff}
use Prim.Native.Nat.{ℕ}
use durable_infinite_context.Prelude.Tests.{Bool-cases, ◌==◌, ==_iff, if◌then◌else◌}

-- what a key is compared by
pub record Hashable (K : Type 0) : Type 0 where
  pub same : K → K → Bool
  pub same_iff : (a b : K) → (same a b ≡ true) ↔ (a ≡ b)

instance abbrev pub text_key : Hashable String
text_key = record { same = str_eq; same_iff = eq_iff }

abbrev pub Triple : Type 0
Triple = String × String × String

abbrev pub same_triple : Triple → Triple → Bool
same_triple (a, b, c) (a', b', c') = str_eq a a' && str_eq b b' && str_eq c c'

pub same_triple_iff : (k j : Triple) → (same_triple k j ≡ true) ↔ (k ≡ j)
same_triple_iff (a, b, c) (a', b', c') = ground (arith, eq_iff a a', eq_iff b b', eq_iff c c')

instance abbrev pub triple_key : Hashable Triple
triple_key = record { same = same_triple; same_iff = same_triple_iff }

instance abbrev pub number_key : Hashable ℕ
number_key = record { same = ◌==◌; same_iff = ==_iff }

abbrev pub same_pair : ℕ × ℕ → ℕ × ℕ → Bool
same_pair (a, b) (a', b') = a == a' && b == b'

pub same_pair_iff : (k j : ℕ × ℕ) → (same_pair k j ≡ true) ↔ (k ≡ j)
same_pair_iff (a, b) (a', b') = ground (arith, ==_iff a a', ==_iff b b')

instance abbrev pub pair_key : Hashable (ℕ × ℕ)
pair_key = record { same = same_pair; same_iff = same_pair_iff }

abbrev pub Dict : Type 0 → Type 0 → Type 0
Dict K V = List (K × V)

module _ {K V : Type 0} ⦃h : Hashable K⦄ where
  -- `d.get(k)`
  unfoldable pub get : K → Dict K V → Option V
  get k [] = none
  get k ((j, v) ∷ d) = if h.same k j then some v else get k d

  -- `d[k] = v`
  unfoldable pub put : K → V → Dict K V → Dict K V
  put k v [] = (k, v) ∷ []
  put k v ((j, w) ∷ d) = if h.same k j then (j, v) ∷ d else (j, w) ∷ put k v d

  pub get-put :
      (q k : K) (v : V) (d : Dict K V)
      → get q (put k v d) ≡ (if h.same q k then some v else get q d)
  unfolding get put
  get-put q k v [] = refl
  get-put q k v ((j, w) ∷ d) =
      ground (arith, get-put q k v d, h.same_iff q j, h.same_iff q k, h.same_iff k j)

  -- `d.pop(k, None)`
  unfoldable pub pop : K → Dict K V → Dict K V
  pop k [] = []
  pop k ((j, w) ∷ d) = let rest = pop k d in if h.same k j then rest else (j, w) ∷ rest

  pub get-pop : (q k : K) (d : Dict K V) → get q (pop k d) ≡ (if h.same q k then none else get q d)
  unfolding get pop
  get-pop q k [] = ground arith
  get-pop q k ((j, w) ∷ d) =
      ground (arith, get-pop q k d, h.same_iff q j, h.same_iff q k, h.same_iff k j)

  -- no key has two entries
  unfoldable pub Unique : Dict K V → Type 0
  Unique [] = Unit
  Unique ((k, v) ∷ d) = (get k d ≡ none) × Unique d

  pub put-Unique : (k : K) (v : V) (d : Dict K V) → Unique d → Unique (put k v d)
  unfolding get put Unique
  put-Unique k v [] u = (refl, tt)
  put-Unique k v ((j, w) ∷ d) (new, u) = elim (Bool-cases (h.same k j)) [
    | inl same ↦ rw same (new, u)
    | inr other ↦
        let apart : h.same j k ≡ false = ground (arith, h.same_iff k j, h.same_iff j k) in
        rw other (
          get-put j k v d ∙ ap (λ b. if b then some v else get j d) apart ∙ new,
          put-Unique k v d u,
        )
  ]

  pub get-put_same : (k : K) (v : V) (d : Dict K V) → get k (put k v d) ≡ some v
  get-put_same k v d = ground (arith, get-put k k v d, h.same_iff k k)

  pub get-put_other : (q k : K) (v : V) (d : Dict K V) → q ≢ k → get q (put k v d) ≡ get q d
  get-put_other q k v d ne = ground (arith, get-put q k v d, h.same_iff q k)
