-- ===== src/Reconciliation/Knowledge.antt =====
-- Reconciliation as of a sequence number, when more is recorded later.
use mathlib.Core.List.{append-nil}
use durable_infinite_context.Prelude.{
  All, keep, keep-append, ℕ, ◌<◌, ◌≡◌, refl, ◌∙◌, inl, inr, String, Bool, false, ◌&&◌, ◌||◌, Option,
  some, List, [], ◌∷◌, ◌++◌, arith, str_eq, Option-cases,
}
use durable_infinite_context.Prelude.Ids.{has}
use durable_infinite_context.Models.{registry, Assertion, AssertionRelation}
use durable_infinite_context.Reconciliation.{
  active_at, visible_by, insert_by_seq, sort_by_seq, ids, within, decide_cell, reconcile,
}

keep_nothing {ℓ} :
    {A : Type ℓ} (test : A → Bool) (l : List A) → All (λ x. test x ≡ false) l → keep test l ≡ []
unfolding keep
keep_nothing test [] h = refl
keep_nothing test (x ∷ l) h = rw h.0 (keep_nothing test l h.1)

module _ {V : Type 0} where
  has-insert_by_seq :
      (q : String) (a : Assertion V) (l : List (Assertion V))
      → has q (ids (insert_by_seq a l)) ≡ (str_eq q a.id || has q (ids l))
  unfolding has insert_by_seq
  has-insert_by_seq q a [] = refl
  has-insert_by_seq q a (b ∷ l) = ground (arith, has-insert_by_seq q a l)

  pub has-sort_by_seq :
      (q : String) (l : List (Assertion V)) → has q (ids (sort_by_seq l)) ≡ has q (ids l)
  unfolding has sort_by_seq
  has-sort_by_seq q [] = refl
  has-sort_by_seq q (a ∷ l) =
      ground (arith, has-insert_by_seq q a (sort_by_seq l), has-sort_by_seq q l)

  has-keep :
      (q : String) (test : Assertion V → Bool) (l : List (Assertion V))
      → has q (ids l) ≡ false
      → has q (ids (keep test l)) ≡ false
  unfolding has keep
  has-keep q test [] h = refl
  has-keep q test (a ∷ l) h = ground (arith, has-keep q test l)

  -- An assertion recorded after `s`, and a relation whose source is none of the earlier assertions.
  abbrev pub Later : ℕ → Assertion V → Type 0
  Later s a = s < a.recorded_seq

  abbrev pub NewSource : List (Assertion V) → AssertionRelation → Type 0
  NewSource earlier r = has r.source_assertion_id (ids earlier) ≡ false

  visible_by-Later :
      (valid : Option ℕ) (s : ℕ) (later : List (Assertion V))
      → All (Later s) later
      → All (λ a. (active_at a valid && visible_by a (some s)) ≡ false) later
  unfolding visible_by
  visible_by-Later valid s [] h = tt
  visible_by-Later valid s (a ∷ l) h = (ground arith, visible_by-Later valid s l h.1)

  new_outside :
      (known : List String) (earlier : List (Assertion V)) (rs : List AssertionRelation)
      → ((q : String) → has q (ids earlier) ≡ false → has q known ≡ false)
      → All (NewSource earlier) rs
      → All (λ r. within known r ≡ false) rs
  new_outside known earlier [] sub h = tt
  new_outside known earlier (r ∷ rs) sub h =
      (ground (arith, sub r.source_assertion_id h.0), new_outside known earlier rs sub h.1)

  module _ (repr : V → String) (same : V → V → Bool) where
    decide_cell_outside :
        (l : List (Assertion V)) (rels extra : List AssertionRelation)
        → All (λ r. within (ids l) r ≡ false) extra
        → decide_cell repr same l (rels ++ extra) ≡ decide_cell repr same l rels
    unfolding decide_cell
    decide_cell_outside [] rels extra h = refl
    decide_cell_outside (a ∷ l) rels extra h =
        let w = within (ids (a ∷ l)) in
        let e : keep w (rels ++ extra) ≡ keep w rels =
          rw (keep-append w rels extra, keep_nothing w extra h, append-nil) in
        elim (Option-cases (registry a.predicate)) [
          | inl n ↦ rw (n, decide_cell)
          | inr (c, r) ↦ rw (r, decide_cell, e)
        ]

    -- What is recorded later never changes an answer as of an earlier sequence number: assertions
    -- recorded after it, and relations from none of the earlier assertions, leave the reconciled cell as
    -- it was, at every valid time.
    pub reconcile_as_of :
        (earlier later : List (Assertion V)) (rels extra : List AssertionRelation)
        (valid : Option ℕ) (s : ℕ)
        → All (Later s) later
        → All (NewSource earlier) extra
        → reconcile repr same (earlier ++ later) (rels ++ extra) valid (some s)
          ≡ reconcile repr same earlier rels valid (some s)
    unfolding reconcile
    reconcile_as_of earlier later rels extra valid s h h' =
        let test = λ (a : Assertion V). active_at a valid && visible_by a (some s) in
        let shown = sort_by_seq (keep test earlier) in
        rw
          (
            keep-append test earlier later,
            keep_nothing test later (visible_by-Later valid s later h),
            append-nil,
          )
          (decide_cell_outside shown rels extra (
            new_outside (ids shown) earlier extra
              (λ q e. has-sort_by_seq q (keep test earlier) ∙ has-keep q test earlier e) h'))
