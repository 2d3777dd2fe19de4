-- ===== src/Incremental/Updates.antt =====
-- apply_incremental_current_state on its fast path, and the cell that full reconciliation stores.
use durable_infinite_context.Prelude.{
  ◌≡◌, refl, subst, String, Bool, some, List, [], ◌∷◌, keep, arith, ok,
}
use durable_infinite_context.Prelude.Dicts.{triple_key}
use durable_infinite_context.Models.{
  Assertion, AssertionRelation, StateCell, single, registry, Key, key_of,
}
use durable_infinite_context.Reconciliation.{ids, within, candidates, settle, weigh, decide_cell}
use durable_infinite_context.Incremental.Cells.{Shows}

module _ {V : Type 0} (repr : V → String) (same : V → V → Bool) where
  settle-Shows :
      (key : Key) (h : List String) (best : List (Assertion V))
      → Shows repr same (settle repr same key single h best) best
  unfolding settle
  settle-Shows key h [] = record {
    status = refl;
    values = refl;
    support = λ q. refl;
    competing = λ q. refl;
  }
  settle-Shows key h (b ∷ bs) = record {
    status = ground arith;
    values = ground arith;
    support = λ q. ground arith;
    competing = λ q. ground arith;
  }

  -- The cell that reconciliation decides on for a single-valued predicate shows the candidates.
  pub decide_cell-Shows :
      (a : Assertion V) (l : List (Assertion V)) (rels : List AssertionRelation) (c : StateCell V)
      → registry a.predicate ≡ some single
      → decide_cell repr same (a ∷ l) rels ≡ ok c
      → Shows repr same c (candidates (a ∷ l) (keep (within (ids (a ∷ l))) rels))
  unfolding decide_cell weigh
  decide_cell-Shows a l rels c reg run =
      let rels' = keep (within (ids (a ∷ l))) rels in
      let e : weigh repr same (key_of a) single (a ∷ l) rels' ≡ c = ground (arith, reg) in
      subst (λ t. Shows repr same t (candidates (a ∷ l) rels')) e
        (settle-Shows (key_of a) _ (candidates (a ∷ l) rels'))
