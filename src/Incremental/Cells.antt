-- ===== src/Incremental/Cells.antt =====
-- The cells of the fast path, against the cell that reconciliation settles on.
use durable_infinite_context.Prelude.{
  ◌≡◌, inl, inr, refl, sym, ap, ◌∙◌, String, Bool, true, false, ◌||◌, List, [], ◌∷◌, ◌++◌, length,
  ◌==◌, arith, Bool-cases,
}
use durable_infinite_context.Prelude.Ids.{has, has-append, has-union}
use durable_infinite_context.Models.{resolved, contested, Assertion, StateCell, single, Key}
use durable_infinite_context.Reconciliation.{ids, last_value, cell, unique_reprs, settle}
use durable_infinite_context.Reconciliation.Accounting.{Agree, unique_reprs-Agree}
use durable_infinite_context.Incremental.{
  active_ids, replaced_cell, supported_cell, contested_cell, only_value,
}

module _ {V : Type 0} (repr : V → String) (same : V → V → Bool) where
  pub settle-Agree :
      (key : Key) (h : List String) (b : Assertion V) (bs : List (Assertion V))
      → Agree repr same b bs
      → settle repr same key single h (b ∷ bs)
        ≡ cell key (last_value b.object_value bs ∷ []) resolved (ids (b ∷ bs)) [] h
  unfolding settle
  settle-Agree key h b bs agree = ground (arith, (unique_reprs-Agree repr same b bs).0 agree)

  pub settle-differ :
      (key : Key) (h : List String) (b : Assertion V) (bs : List (Assertion V))
      → ¬ (Agree repr same b bs)
      → settle repr same key single h (b ∷ bs) ≡ cell key [] contested [] (ids (b ∷ bs)) h
  unfolding settle
  settle-differ key h b bs differ =
      elim (Bool-cases (length (unique_reprs repr same (b ∷ bs)) == 1)) [
        | inl one ↦ absurd (differ ((unique_reprs-Agree repr same b bs).1 one))
        | inr more ↦ ground arith
      ]

  last_value-Agree :
      (b : Assertion V) (v : V) (bs : List (Assertion V))
      → Agree repr same b bs
      → repr v ≡ repr b.object_value
      → repr (last_value v bs) ≡ repr b.object_value
  last_value-Agree b v [] agree e = e
  last_value-Agree b v (x ∷ bs) agree e = last_value-Agree b x.object_value bs agree.1 agree.0

  Agree-append :
      (b : Assertion V) (bs : List (Assertion V)) (a : Assertion V)
      → (Agree repr same b (bs ++ a ∷ []) → repr a.object_value ≡ repr b.object_value)
        × (Agree repr same b bs
            → repr a.object_value ≡ repr b.object_value
            → Agree repr same b (bs ++ a ∷ []))
  Agree-append b [] a = ((λ h. h.0), (λ h e. (e, tt)))
  Agree-append b (x ∷ bs) a =
      let (to, from) = Agree-append b bs a in ((λ h. to h.1), (λ h e. (h.0, from h.1 e)))

  last_value-append :
      (v : V) (bs : List (Assertion V)) (a : Assertion V)
      → last_value v (bs ++ a ∷ []) ≡ a.object_value
  last_value-append v [] a = refl
  last_value-append v (b ∷ bs) a = last_value-append b.object_value bs a

  ids-append : (l : List (Assertion V)) (a : Assertion V) → ids (l ++ a ∷ []) ≡ ids l ++ a.id ∷ []
  ids-append [] a = refl
  ids-append (b ∷ l) a = ap (λ r. b.id ∷ r) (ids-append l a)

  -- The cell shows what reconciliation makes of these candidates: the status, the values, and the
  -- supporting and the competing ids as sets.
  pub record Shows (c : StateCell V) (best : List (Assertion V)) : Type 0 where
    pub status : c.status ≡ (settle repr same c.key single [] best).status
    pub values : c.operative_values ≡ (settle repr same c.key single [] best).operative_values
    pub support :
        (q : String)
        → has q c.supporting_assertion_ids
          ≡ has q (settle repr same c.key single [] best).supporting_assertion_ids
    pub competing :
        (q : String)
        → has q c.competing_assertion_ids
          ≡ has q (settle repr same c.key single [] best).competing_assertion_ids

  pub replaced_cell-Shows :
      (key : Key) (c : StateCell V) (a : Assertion V) → Shows (replaced_cell key c a) (a ∷ [])
  unfolding replaced_cell
  replaced_cell-Shows key c a =
      let s = settle-Agree key [] a [] tt in
      record {
        status = rw s refl;
        values = rw s refl;
        support = λ q. rw s refl;
        competing = λ q. rw s refl;
      }

  -- the active ids of the cell are those of the candidates
  pub Shows-active :
      (c : StateCell V) (best : List (Assertion V)) (q : String)
      → Shows c best
      → has q (active_ids c) ≡ has q (ids best)
  unfolding settle has
  Shows-active c [] q s = ground (
    arith,
    has-union q c.supporting_assertion_ids c.competing_assertion_ids,
    s.support q,
    s.competing q,
  )
  Shows-active c (b ∷ bs) q s = ground (
    arith,
    has-union q c.supporting_assertion_ids c.competing_assertion_ids,
    s.support q,
    s.competing q,
  )

  -- a resolved cell has a candidate
  pub Shows-some :
      (c : StateCell V) (best : List (Assertion V))
      → Shows c best
      → c.status ≡ resolved
      → (b : Assertion V) × (bs : List (Assertion V)) × (best ≡ b ∷ bs)
  unfolding settle
  Shows-some c [] s is = cc (s.status)
  Shows-some c (b ∷ bs) s is = (b, bs, refl)

  -- what a resolved cell says of its candidates
  record Resolves (c : StateCell V) (b : Assertion V) (bs : List (Assertion V)) : Type 0 where
    agree : Agree repr same b bs
    value : c.operative_values ≡ last_value b.object_value bs ∷ []
    supporters : (q : String) → has q c.supporting_assertion_ids ≡ has q (ids (b ∷ bs))
    rivals : (q : String) → has q c.competing_assertion_ids ≡ false

  Shows-Resolves :
      (c : StateCell V) (b : Assertion V) (bs : List (Assertion V))
      → Shows c (b ∷ bs)
      → c.status ≡ resolved
      → Resolves c b bs
  unfolding has
  Shows-Resolves c b bs s is = elim (Bool-cases (length (unique_reprs repr same (b ∷ bs)) == 1)) [
    | inl one ↦
        let agree = (unique_reprs-Agree repr same b bs).1 one in
        let e = settle-Agree c.key [] b bs agree in
        record {
          agree = agree;
          value = s.values ∙ ap (λ (r : StateCell V). r.operative_values) e;
          supporters =
              λ q. s.support q ∙ ap (λ (r : StateCell V). has q r.supporting_assertion_ids) e;
          rivals = λ q. s.competing q ∙ ap (λ (r : StateCell V). has q r.competing_assertion_ids) e;
        }
    | inr more ↦
        let differ : ¬ (Agree repr same b bs) =
          λ agree. ground (arith, (unique_reprs-Agree repr same b bs).0 agree) in
        let e = ap (λ (r : StateCell V). r.status) (settle-differ c.key [] b bs differ) in cc
  ]

  module _
      (determines : (v w : V)
        → (same v w ≡ true → v ≡ w) × (repr v ≡ repr w → same v w ≡ true)) where
    pub supported_cell-Shows :
        (key : Key) (c : StateCell V) (b : Assertion V) (bs : List (Assertion V)) (a : Assertion V)
        → Shows c (b ∷ bs)
        → c.status ≡ resolved
        → only_value repr same c.operative_values a.object_value ≡ true
        → Shows (supported_cell key c a) (b ∷ (bs ++ a ∷ []))
    unfolding supported_cell
    supported_cell-Shows key c b bs a s is there =
        let r = Shows-Resolves c b bs s is in
        let v = last_value b.object_value bs in
        let hit : same v a.object_value ≡ true =
          sym (ap (λ l. only_value repr same l a.object_value) r.value) ∙ there in
        let equal : v ≡ a.object_value = (determines v a.object_value).0 hit in
        let agrees : repr a.object_value ≡ repr b.object_value =
          ap repr (sym equal) ∙ last_value-Agree b b.object_value bs r.agree refl in
        let e = settle-Agree key [] b (bs ++ a ∷ []) ((Agree-append b bs a).1 r.agree agrees) in
        record {
          status = sym (ap (λ (r : StateCell V). r.status) e);
          values =
              r.value
              ∙ ap (λ w. w ∷ []) (equal ∙ sym (last_value-append b.object_value bs a))
              ∙ sym (ap (λ (r : StateCell V). r.operative_values) e);
          support = λ q.
              has-append q c.supporting_assertion_ids (a.id ∷ [])
              ∙ ap (λ t. t || has q (a.id ∷ [])) (r.supporters q)
              ∙ sym (has-append q (ids (b ∷ bs)) (a.id ∷ []))
              ∙ ap (has q) (sym (ids-append (b ∷ bs) a))
              ∙ sym (ap (λ (r : StateCell V). has q r.supporting_assertion_ids) e);
          competing = λ q. sym (ap (λ (r : StateCell V). has q r.competing_assertion_ids) e);
        }

    pub contested_cell-Shows :
        (key : Key) (c : StateCell V) (b : Assertion V) (bs : List (Assertion V)) (a : Assertion V)
        → Shows c (b ∷ bs)
        → c.status ≡ resolved
        → only_value repr same c.operative_values a.object_value ≡ false
        → Shows (contested_cell key c a) (b ∷ (bs ++ a ∷ []))
    unfolding contested_cell
    contested_cell-Shows key c b bs a s is there =
        let r = Shows-Resolves c b bs s is in
        let v = last_value b.object_value bs in
        let miss : same v a.object_value ≡ false =
          sym (ap (λ l. only_value repr same l a.object_value) r.value) ∙ there in
        let differ : ¬ (Agree repr same b (bs ++ a ∷ [])) = λ agree.
          let equal : repr v ≡ repr a.object_value =
            last_value-Agree b b.object_value bs r.agree refl
            ∙ sym ((Agree-append b bs a).0 agree) in
          let hit = (determines v a.object_value).1 equal in cc in
        let e = settle-differ key [] b (bs ++ a ∷ []) differ in
        record {
          status = sym (ap (λ (r : StateCell V). r.status) e);
          values = sym (ap (λ (r : StateCell V). r.operative_values) e);
          support = λ q. sym (ap (λ (r : StateCell V). has q r.supporting_assertion_ids) e);
          competing = λ q.
              has-append q c.supporting_assertion_ids (a.id ∷ [])
              ∙ ap (λ t. t || has q (a.id ∷ [])) (r.supporters q)
              ∙ sym (has-append q (ids (b ∷ bs)) (a.id ∷ []))
              ∙ ap (has q) (sym (ids-append (b ∷ bs) a))
              ∙ sym (ap (λ (r : StateCell V). has q r.competing_assertion_ids) e);
        }
