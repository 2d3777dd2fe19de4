-- ===== src/Prelude/Buckets.antt =====
-- Dictionaries of lists: a missing key reads as the empty list, and a set that runs empty is popped.
use Prim.Native.String.{String}
use mathlib.Core.Path.{◌≡◌}
use mathlib.Core.Logic.{inl, inr}
use mathlib.Core.Bool.{not, ◌&&◌, ◌||◌}
use mathlib.Core.Option.{none, some}
use mathlib.Core.List.{List, [], ◌∷◌, ◌++◌}
use native.Mathlib.Omega.{arith}
use text.Mathlib.Text.{◌==◌ as str_eq}
use durable_infinite_context.Prelude.Tests.{if◌then◌else◌, Option-cases, List-cases}
use durable_infinite_context.Prelude.Dicts.{Hashable, Dict, get, put, pop, get-put, get-pop}
use durable_infinite_context.Prelude.Ids.{has, add_id, discard, has-add_id, has-discard}

module _ {K : Type 0} ⦃h : Hashable K⦄ where
  module _ {A : Type 0} where
    -- `d.get(k, set())`
    unfoldable pub set_at : K → Dict K (List A) → List A
    set_at k d = elim (get k d) [ none ↦ [] | some l ↦ l ]

    pub set_at-put :
        (q k : K) (l : List A) (d : Dict K (List A))
        → set_at q (put k l d) ≡ (if h.same q k then l else set_at q d)
    unfolding set_at
    set_at-put q k l d = ground (arith, get-put q k l d)

    pub set_at-pop :
        (q k : K) (d : Dict K (List A))
        → set_at q (pop k d) ≡ (if h.same q k then [] else set_at q d)
    unfolding set_at
    set_at-pop q k d = ground (arith, get-pop q k d)

    -- `d[k].append(x)`
    unfoldable pub append_at : K → A → Dict K (List A) → Dict K (List A)
    append_at k x d = put k (set_at k d ++ x ∷ []) d

    pub set_at-append_at :
        (q k : K) (x : A) (d : Dict K (List A))
        → set_at q (append_at k x d) ≡ (if h.same q k then set_at k d ++ x ∷ [] else set_at q d)
    unfolding append_at
    set_at-append_at q k x d = set_at-put q k (set_at k d ++ x ∷ []) d

  -- `d.setdefault(k, set()).add(x)`
  unfoldable pub add_at : K → String → Dict K (List String) → Dict K (List String)
  add_at k x d = put k (add_id x (set_at k d)) d

  -- `d[k].discard(x)`, if there is such a set, which is popped when it runs empty
  unfoldable pub discard_at : K → String → Dict K (List String) → Dict K (List String)
  discard_at k x d = elim (get k d) [
    | none ↦ d
    | some l ↦ elim (discard x l) [ [] ↦ pop k d | y ∷ rest ↦ put k (y ∷ rest) d ]
  ]

  pub has-add_at :
      (q k : K) (x y : String) (d : Dict K (List String))
      → has y (set_at q (add_at k x d)) ≡ (has y (set_at q d) || str_eq y x && h.same q k)
  unfolding add_at
  has-add_at q k x y d =
      ground (
        arith,
        set_at-put q k (add_id x (set_at k d)) d,
        has-add_id y x (set_at k d),
        h.same_iff q k,
      )

  set_at-discard_at :
      (q k : K) (x : String) (d : Dict K (List String))
      → set_at q (discard_at k x d) ≡ (if h.same q k then discard x (set_at k d) else set_at q d)
  unfolding discard_at set_at discard
  set_at-discard_at q k x d = elim (Option-cases (get k d)) [
    | inl nothing ↦ ground (arith, nothing, h.same_iff q k)
    | inr (l, at) ↦ elim (List-cases (discard x l)) [
      | inl empty ↦ ground (arith, at, empty, get-pop q k d)
      | inr (y, rest, left) ↦ ground (arith, at, left, get-put q k (y ∷ rest) d)
    ]
  ]

  pub has-discard_at :
      (q k : K) (x y : String) (d : Dict K (List String))
      → has y (set_at q (discard_at k x d)) ≡ (has y (set_at q d) && not (str_eq y x && h.same q k))
  has-discard_at q k x y d =
      ground (arith, set_at-discard_at q k x d, has-discard y x (set_at k d), h.same_iff q k)
