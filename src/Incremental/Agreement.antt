-- ===== src/Incremental/Agreement.antt =====
-- The fast path of the incremental update against the reconciliation of all assertions of the key.
use durable_infinite_context.Prelude.{
  ◌≡◌, ◌⊎◌, inl, inr, refl, ap, subst, ◌∙◌, String, Bool, true, false, ◌&&◌, not, some, List, [],
  ◌∷◌, ◌++◌, eq_iff, arith, Bool-cases,
}
use durable_infinite_context.Prelude.Ids.{has}
use durable_infinite_context.Models.{
  StateStatus, resolved, contested, unknown, Assertion, AssertionRelation, StateCell, Key,
}
use durable_infinite_context.Reconciliation.{targets, candidates}
use durable_infinite_context.Incremental.{
  is_replacement, is_resolved, is_empty, subset, active_ids, replaced_cell, supported_cell,
  contested_cell, only_value, fast_cell,
}
use durable_infinite_context.Incremental.Candidates.{
  candidates-append, candidates_untouched, candidates_replaced,
}
use durable_infinite_context.Incremental.Cells.{
  Shows, Shows-active, Shows-some, replaced_cell-Shows, supported_cell-Shows, contested_cell-Shows,
}

subset_lem :
    (a b : List String) → subset a b ≡ true → (q : String) → has q a ≡ true → has q b ≡ true
unfolding subset has
subset_lem [] b h q m = cc
subset_lem (k ∷ a) b h q m = ground (arith, subset_lem a b (ground arith) q, eq_iff q k)

subset_of :
    (a b : List String) → ((q : String) → has q a ≡ true → has q b ≡ true) → subset a b ≡ true
unfolding subset has
subset_of [] b h = refl
subset_of (k ∷ a) b h = ground (arith, h k, eq_iff k k, subset_of a b (λ q m. h q (ground arith)))

all_or_none :
    (a b : List String)
    → ((q : String) → has q a ≡ true → has q b ≡ true)
    → not (is_empty a) && subset a b ≡ false
    → (q : String) → has q a ≡ true
    → has q b ≡ false
unfolding has
all_or_none [] b all other q m = cc
all_or_none (k ∷ a) b all other q m = absurd (ground (arith, subset_of (k ∷ a) b all))

is_resolved_lem : (s : StateStatus) → is_resolved s ≡ true → s ≡ resolved
is_resolved_lem resolved h = refl
is_resolved_lem contested h = cc
is_resolved_lem unknown h = cc

module _ {V : Type 0} (repr : V → String) (same : V → V → Bool)
    (determines : (v w : V) → (same v w ≡ true → v ≡ w) × (repr v ≡ repr w → same v w ≡ true)) where
  -- New relations that replace no active assertion leave the candidates, with the new one behind.
  kept-Shows :
      (key : Key) (c c' : StateCell V) (l : List (Assertion V)) (old new : List AssertionRelation)
      (a : Assertion V)
      → Shows repr same c (candidates l old)
      → has a.id (targets is_replacement (old ++ new)) ≡ false
      → ((q : String) → has q (active_ids c) ≡ true → has q (targets is_replacement new) ≡ false)
      → not (is_empty (active_ids c)) && subset (active_ids c) (targets is_replacement new) ≡ false
      → is_resolved c.status ≡ true
      → fast_cell repr same key c a new ≡ some c'
      → Shows repr same c' (candidates (l ++ a ∷ []) (old ++ new))
  unfolding fast_cell
  kept-Shows key c c' l old new a s free untouched other is run =
      let (b, bs, e) = Shows-some repr same c (candidates l old) s (is_resolved_lem c.status is) in
      let stay =
        candidates_untouched l old new
          (λ q m. untouched q (Shows-active repr same c (candidates l old) q s ∙ m))
        ∙ e in
      let s' = subst (Shows repr same c) e s in
      let grown : candidates (l ++ a ∷ []) (old ++ new) ≡ b ∷ (bs ++ a ∷ []) =
        candidates-append l a (old ++ new) free ∙ ap (λ t. t ++ a ∷ []) stay in
      elim (Bool-cases (only_value repr same c.operative_values a.object_value)) [
        | inl hit ↦
            let out : supported_cell key c a ≡ c' = ground arith in
            subst (λ t. Shows repr same t (candidates (l ++ a ∷ []) (old ++ new))) out
              (rw grown (
                supported_cell-Shows repr same determines key c b bs a s'
                  (is_resolved_lem c.status is) hit))
        | inr miss ↦
            let out : contested_cell key c a ≡ c' = ground arith in
            subst (λ t. Shows repr same t (candidates (l ++ a ∷ []) (old ++ new))) out
              (rw grown (
                contested_cell-Shows repr same determines key c b bs a s'
                  (is_resolved_lem c.status is) miss))
      ]

  -- If the cell shows the candidates, nothing replaces the new assertion, and its relations replace
  -- all of the active assertions or none, then the fast path, where it is taken, leaves a cell that
  -- shows the candidates with the new assertion and its relations.
  pub fast_cell-Shows :
      (key : Key) (c c' : StateCell V) (l : List (Assertion V)) (old new : List AssertionRelation)
      (a : Assertion V)
      → Shows repr same c (candidates l old)
      → has a.id (targets is_replacement (old ++ new)) ≡ false
      → ((q : String) → has q (active_ids c) ≡ true → has q (targets is_replacement new) ≡ true)
        ⊎ ((q : String) → has q (active_ids c) ≡ true → has q (targets is_replacement new) ≡ false)
      → fast_cell repr same key c a new ≡ some c'
      → Shows repr same c' (candidates (l ++ a ∷ []) (old ++ new))
  unfolding fast_cell
  fast_cell-Shows key c c' l old new a s free whole run =
      let last = candidates-append l a (old ++ new) free in
      let active = λ (q : String). Shows-active repr same c (candidates l old) q s in
      elim (Bool-cases
        (not (is_empty (active_ids c)) && subset (active_ids c) (targets is_replacement new))) [
          | inl all ↦
              let gone = candidates_replaced l old new (λ q m.
                subset_lem (active_ids c) (targets is_replacement new) (ground arith) q
                  (active q ∙ m)) in
              let e : replaced_cell key c a ≡ c' = ground arith in
              subst (λ t. Shows repr same t (candidates (l ++ a ∷ []) (old ++ new))) e
                (rw (last, gone) (replaced_cell-Shows repr same key c a))
          | inr other ↦ elim (Bool-cases (is_resolved c.status)) [
            | inl is ↦
                kept-Shows key c c' l old new a s free
                  (elim whole [
                    | inl all ↦ all_or_none (active_ids c) (targets is_replacement new) all other
                    | inr none_hit ↦ none_hit
                  ])
                  other is run
            | inr not_resolved ↦ absurd (ground arith)
          ]
        ]
