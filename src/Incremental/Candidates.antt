-- ===== src/Incremental/Candidates.antt =====
-- The candidates of a cell when an assertion and its relations are added.
use durable_infinite_context.Prelude.{
  All, ◌≡◌, refl, String, Bool, true, false, ◌&&◌, ◌||◌, not, List, [], ◌∷◌, ◌++◌, keep,
  keep-append, eq_iff, arith,
}
use durable_infinite_context.Prelude.Ids.{has, has-add_id}
use durable_infinite_context.Models.{RelationType, Assertion, AssertionRelation}
use durable_infinite_context.Reconciliation.{targets, is_corrects, is_supersedes, ids, candidates}
use durable_infinite_context.Reconciliation.Accounting.{has-survivors}
use durable_infinite_context.Incremental.{is_replacement}

pub has-targets :
    (q : String) (kind : RelationType → Bool) (r rels : List AssertionRelation)
    → has q (targets kind (r ++ rels)) ≡ (has q (targets kind r) || has q (targets kind rels))
unfolding targets has
has-targets q kind [] rels = refl
has-targets q kind (x ∷ r) rels = ground (
  arith,
  has-targets q kind r rels,
  has-add_id q x.target_assertion_id (targets kind (r ++ rels)),
  has-add_id q x.target_assertion_id (targets kind r),
)

-- corrections and supersessions together
pub has-targets_replaced :
    (q : String) (rels : List AssertionRelation)
    → has q (targets is_replacement rels)
      ≡ (has q (targets is_corrects rels) || has q (targets is_supersedes rels))
unfolding targets has
has-targets_replaced q [] = refl
has-targets_replaced q (x ∷ rels) = ground (
  arith,
  has-targets_replaced q rels,
  has-add_id q x.target_assertion_id (targets is_replacement rels),
  has-add_id q x.target_assertion_id (targets is_corrects rels),
  has-add_id q x.target_assertion_id (targets is_supersedes rels),
)

module _ {V : Type 0} where
  -- is the assertion neither corrected nor superseded?
  abbrev pub survives : List AssertionRelation → Assertion V → Bool
  survives rels a =
      not (has a.id (targets is_corrects rels)) && not (has a.id (targets is_supersedes rels))

  All-of_ids :
      (P : Assertion V → Type 0) (l : List (Assertion V))
      → ((a : Assertion V) → has a.id (ids l) ≡ true → P a)
      → All P l
  unfolding has
  All-of_ids P [] h = tt
  All-of_ids P (a ∷ l) h =
      (h a (ground (arith, eq_iff a.id a.id)), All-of_ids P l (λ b m. h b (ground arith)))

  keep_same :
      (f g : Assertion V → Bool) (l : List (Assertion V))
      → All (λ a. f a ≡ g a) l
      → keep f l ≡ keep g l
  unfolding keep
  keep_same f g [] all = refl
  keep_same f g (a ∷ l) all = ground (arith, keep_same f g l)

  keep_none :
      (f : Assertion V → Bool) (l : List (Assertion V)) → All (λ a. f a ≡ false) l → keep f l ≡ []
  unfolding keep
  keep_none f [] all = refl
  keep_none f (a ∷ l) all = ground (arith, keep_none f l)

  -- An assertion that nothing replaces is the last candidate.
  pub candidates-append :
      (l : List (Assertion V)) (a : Assertion V) (rels : List AssertionRelation)
      → has a.id (targets is_replacement rels) ≡ false
      → candidates (l ++ a ∷ []) rels ≡ candidates l rels ++ a ∷ []
  unfolding keep
  candidates-append l a rels free =
      ground (arith, keep-append (survives rels) l (a ∷ []), has-targets_replaced a.id rels)

  -- New relations that replace no candidate change nothing; if they replace all, none is left.
  pub candidates_untouched :
      (l : List (Assertion V)) (old new : List AssertionRelation)
      → ((q : String)
          → has q (ids (candidates l old)) ≡ true
          → has q (targets is_replacement new) ≡ false)
      → candidates l (old ++ new) ≡ candidates l old
  candidates_untouched l old new h = keep_same (survives (old ++ new)) (survives old) l (
      All-of_ids _ l λ a m. ground (
        arith,
        m,
        has-survivors a.id (targets is_corrects old) (targets is_supersedes old) l,
        h a.id,
        has-targets a.id is_corrects old new,
        has-targets a.id is_supersedes old new,
        has-targets_replaced a.id new,
      ))

  pub candidates_replaced :
      (l : List (Assertion V)) (old new : List AssertionRelation)
      → ((q : String)
          → has q (ids (candidates l old)) ≡ true
          → has q (targets is_replacement new) ≡ true)
      → candidates l (old ++ new) ≡ []
  candidates_replaced l old new h = keep_none (survives (old ++ new)) l (
      All-of_ids _ l λ a m. ground (
        arith,
        m,
        has-survivors a.id (targets is_corrects old) (targets is_supersedes old) l,
        h a.id,
        has-targets a.id is_corrects old new,
        has-targets a.id is_supersedes old new,
        has-targets_replaced a.id new,
      ))
