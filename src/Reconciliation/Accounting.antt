-- ===== src/Reconciliation/Accounting.antt =====
-- Where the assertions of a reconciliation end up: in support, in competition or in history.
use mathlib.Core.List.{append-nil}
use durable_infinite_context.Prelude.{
  keep, ok, ℕ, ◌≡◌, ◌⊎◌, refl, subst, inl, inr, String, Bool, true, ◌&&◌, ◌||◌, not, Option, List,
  [], ◌∷◌, ◌++◌, arith, str_eq, eq_iff, Bool-cases, Option-cases, ◌==◌, length,
}
use durable_infinite_context.Prelude.Ids.{
  has, has-add_id, add_id, union, sort_texts, has-union, has-sort_texts,
}
use durable_infinite_context.Models.{
  resolved, contested, Assertion, AssertionRelation, StateCell, Cardinality, single, multi,
  registry, Key, key_of,
}
use durable_infinite_context.Reconciliation.{
  active_at, visible_by, sort_by_seq, ids, within, targets, is_corrects, is_supersedes,
  unique_reprs, settle, weigh, decide_cell, reconcile,
}
use durable_infinite_context.Reconciliation.Knowledge.{has-sort_by_seq}

module _ {V : Type 0} where
  pub has-survivors :
      (q : String) (defeated superseded : List String) (l : List (Assertion V))
      → has q (ids (keep (λ a. not (has a.id defeated) && not (has a.id superseded)) l))
        ≡ (has q (ids l) && not (has q defeated || has q superseded))
  unfolding has keep
  has-survivors q d s [] = refl
  has-survivors q d s (a ∷ l) = elim (Bool-cases (str_eq q a.id)) [
    | inl e ↦ let same = (eq_iff q a.id).0 e in ground (arith, has-survivors q d s l)
    | inr n ↦ ground (arith, has-survivors q d s l)
  ]

module _ {V : Type 0} (repr : V → String) (same : V → V → Bool) where
  -- the ids of a cell that are operative or competing
  abbrev pub active : StateCell V → List String
  active c = c.supporting_assertion_ids ++ c.competing_assertion_ids

  settle-active :
      (q : String) (key : Key) (cardinality : Cardinality) (historical : List String)
      (l : List (Assertion V))
      → (has q (active (settle repr same key cardinality historical l)) ≡ has q (ids l))
        × ((settle repr same key cardinality historical l).historical_assertion_ids ≡ historical)
  unfolding settle has
  settle-active q key single historical [] = (refl, refl)
  settle-active q key multi historical [] = (refl, refl)
  settle-active q key multi historical (c ∷ cs) = (ground (arith, append-nil (ids cs)), refl)
  settle-active q key single historical (c ∷ cs) =
      (ground (arith, append-nil (ids cs)), ground arith)

  weigh-active :
      (q : String) (key : Key) (cardinality : Cardinality) (l : List (Assertion V))
      (rels : List AssertionRelation)
      → let c = weigh repr same key cardinality l rels in
        has q (active c) ≡ (has q (ids l) && not (has q c.historical_assertion_ids))
  unfolding weigh
  weigh-active q key cardinality l rels =
      let d = targets is_corrects rels in
      let s = targets is_supersedes rels in
      let test = λ (a : Assertion V). not (has a.id d) && not (has a.id s) in
      let (acts, hist) = settle-active q key cardinality (sort_texts (union d s)) (keep test l) in
      rw (acts, hist, has-survivors q d s l, has-sort_texts q (union d s), has-union q d s)

  decide_cell-active :
      (q : String) (l : List (Assertion V)) (rels : List AssertionRelation) (c : StateCell V)
      → decide_cell repr same l rels ≡ ok c
      → has q (active c) ≡ (has q (ids l) && not (has q c.historical_assertion_ids))
  unfolding decide_cell has
  decide_cell-active q [] rels c run = ground arith
  decide_cell-active q (a ∷ l) rels c run = elim (Option-cases (registry a.predicate)) [
    | inl none_there ↦ absurd (ground arith)
    | inr (k, there) ↦
        let w = weigh repr same (key_of a) k (a ∷ l) (keep (within (ids (a ∷ l))) rels) in
        let e : w ≡ c = ground arith in
        subst
          (λ t. has q (active t) ≡ (has q (ids (a ∷ l)) && not (has q t.historical_assertion_ids)))
          e (weigh-active q (key_of a) k (a ∷ l) (keep (within (ids (a ∷ l))) rels))
  ]

  -- Every assertion that is visible as of the two times is accounted for: its id supports or competes
  -- in the reconciled cell unless it is listed as historical, and no other id does.
  pub reconcile-active :
      (q : String) (assertions : List (Assertion V)) (rels : List AssertionRelation)
      → (valid recorded : Option ℕ) (c : StateCell V)
      → reconcile repr same assertions rels valid recorded ≡ ok c
      → has q (active c) ≡ (
          has q (ids (keep (λ a. active_at a valid && visible_by a recorded) assertions))
          && not (has q c.historical_assertion_ids))
  unfolding reconcile
  reconcile-active q assertions rels valid recorded c run =
      let shown =
        keep (λ (a : Assertion V). active_at a valid && visible_by a recorded) assertions in
      rw (← has-sort_by_seq q shown) (decide_cell-active q (sort_by_seq shown) rels c run)

  -- the candidates agree with the first by `repr`
  abbrev pub Agree : Assertion V → List (Assertion V) → Type 0
  Agree c [] = Unit
  Agree c (a ∷ l) = (repr a.object_value ≡ repr c.object_value) × Agree c l

  Agree-unique_reprs :
      (c : Assertion V) (l : List (Assertion V))
      → Agree c l
      → (unique_reprs repr same l ≡ []) ⊎ (unique_reprs repr same l ≡ repr c.object_value ∷ [])
  unfolding unique_reprs add_id has
  Agree-unique_reprs c [] h = inl refl
  Agree-unique_reprs c (a ∷ l) h = elim (Agree-unique_reprs c l h.1) [
    | inl none_yet ↦ inr (ground (arith, none_yet))
    | inr one ↦ inr (ground (arith, one, eq_iff (repr a.object_value) (repr c.object_value)))
  ]

  all_known :
      (c : Assertion V) (l : List (Assertion V)) (u : List String)
      → ((q : String) → has q (unique_reprs repr same l) ≡ true → has q u ≡ true)
      → ((q : String) → has q u ≡ true → q ≡ repr c.object_value)
      → Agree c l
  unfolding unique_reprs
  all_known c [] u sub one = tt
  all_known c (a ∷ l) u sub one = (
    one (repr a.object_value) (
        sub (repr a.object_value) (
          ground (
            arith,
            has-add_id (repr a.object_value) (repr a.object_value) (unique_reprs repr same l),
            eq_iff (repr a.object_value) (repr a.object_value),
          ))),
    all_known c l u
        (λ q e.
          sub q (ground (arith, has-add_id q (repr a.object_value) (unique_reprs repr same l))))
        one,
  )

  one_key :
      (r : String) (u : List String)
      → (length (add_id r u) == 1) ≡ true
      → (q : String) → has q u ≡ true
      → q ≡ r
  unfolding has add_id
  one_key r [] one q h = absurd (ground arith)
  one_key r (x ∷ []) one q h = ground (arith, eq_iff q x, eq_iff r x)
  one_key r (x ∷ y ∷ u) one q h = absurd (ground arith)

  pub unique_reprs-Agree :
      (c : Assertion V) (cs : List (Assertion V))
      → (Agree c cs → (length (unique_reprs repr same (c ∷ cs)) == 1) ≡ true)
        × ((length (unique_reprs repr same (c ∷ cs)) == 1) ≡ true → Agree c cs)
  unfolding unique_reprs add_id has
  unique_reprs-Agree c cs = (
    (λ agree. elim (Agree-unique_reprs c cs agree) [
      | inl e ↦ ground (arith, e)
      | inr e ↦ ground (arith, e, eq_iff (repr c.object_value) (repr c.object_value))
    ]),
    (λ one.
        all_known c cs (unique_reprs repr same cs) (λ q h. h)
          (one_key (repr c.object_value) (unique_reprs repr same cs) one)),
  )

  -- The surviving candidates of a single-valued predicate resolve exactly if all of them have the same
  -- value by `repr`; otherwise the cell is contested and every candidate competes.
  pub settle_single :
      (key : Key) (historical : List String) (c : Assertion V) (cs : List (Assertion V))
      → let cell = settle repr same key single historical (c ∷ cs) in
        ((cell.status ≡ resolved) × Agree c cs × (cell.supporting_assertion_ids ≡ ids (c ∷ cs)))
        ⊎ ((cell.status ≡ contested)
            × ¬ (Agree c cs)
            × (cell.competing_assertion_ids ≡ ids (c ∷ cs)))
  unfolding settle
  settle_single key historical c cs =
      elim (Bool-cases (length (unique_reprs repr same (c ∷ cs)) == 1)) [
        | inl e ↦ inl (ground arith, (unique_reprs-Agree c cs).1 e, ground arith)
        | inr n ↦ inr (
          ground arith,
          (λ agree. absurd (ground (arith, (unique_reprs-Agree c cs).0 agree))),
          ground arith,
        )
      ]
