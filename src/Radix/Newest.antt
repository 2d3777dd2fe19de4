-- ===== src/Radix/Newest.antt =====
-- Which of two copies is the newest visible one.
use durable_infinite_context.Prelude.{
  ℕ, suc, ◌<◌, ◌≤◌, ◌≡◌, Option, none, some, arith, refl, ap, ◌∙◌,
}
use durable_infinite_context.Radix.Txn.{newest, visible}

module _ {A : Type 0} where
  pub newest_slot :
      (x y : Option (ℕ × A)) (e : ℕ) (a : A) (slot : ℕ) → newest x y ≡ some (e, a, slot) → slot ≤ 1
  unfolding newest
  newest_slot none none e a slot h = cc
  newest_slot (some (e0, a0)) none e a slot h = ground arith
  newest_slot none (some (e1, a1)) e a slot h = ground arith
  newest_slot (some (e0, a0)) (some (e1, a1)) e a slot h = ground arith

  -- The copy that wins stays the newest when the other one is no candidate.
  pub newest_alone_0 :
      (x y : Option (ℕ × A)) (e : ℕ) (a : A)
      → newest x y ≡ some (e, a, 0)
      → newest x none ≡ some (e, a, 0)
  unfolding newest
  newest_alone_0 none none e a h = cc
  newest_alone_0 (some (e0, a0)) none e a h = h
  newest_alone_0 none (some (e1, a1)) e a h = ground arith
  newest_alone_0 (some (e0, a0)) (some (e1, a1)) e a h = ground arith

  pub newest_alone_1 :
      (x y : Option (ℕ × A)) (e : ℕ) (a : A)
      → newest x y ≡ some (e, a, 1)
      → newest none y ≡ some (e, a, 1)
  unfolding newest
  newest_alone_1 none none e a h = cc
  newest_alone_1 (some (e0, a0)) none e a h = ground arith
  newest_alone_1 none (some (e1, a1)) e a h = h
  newest_alone_1 (some (e0, a0)) (some (e1, a1)) e a h = ground arith

  -- no epoch above the bound
  abbrev pub Until : ℕ → Option (ℕ × A) → Type 0
  Until bound c = (e : ℕ) (a : A) → c ≡ some (e, a) → e ≤ bound

  pub newest_first :
      (bound e : ℕ) (a : A) (y : Option (ℕ × A))
      → Until bound y
      → bound < e
      → newest (some (e, a)) y ≡ some (e, a, 0)
  unfolding newest
  newest_first bound e a none until lt = refl
  newest_first bound e a (some (e', a')) until lt = ground (arith, until e' a' refl)

  pub newest_second :
      (bound e : ℕ) (a : A) (x : Option (ℕ × A))
      → Until bound x
      → bound < e
      → newest x (some (e, a)) ≡ some (e, a, 1)
  unfolding newest
  newest_second bound e a none until lt = refl
  newest_second bound e a (some (e', a')) until lt = ground (arith, until e' a' refl)

  pub newest_holds_0 :
      (x y : Option (ℕ × A)) (e : ℕ) (a : A) → newest x y ≡ some (e, a, 0) → x ≡ some (e, a)
  unfolding newest
  newest_holds_0 none none e a h = cc
  newest_holds_0 (some (e0, a0)) none e a h = ground arith
  newest_holds_0 none (some (e1, a1)) e a h = ground arith
  newest_holds_0 (some (e0, a0)) (some (e1, a1)) e a h = ground arith

  pub newest_holds_1 :
      (x y : Option (ℕ × A)) (e : ℕ) (a : A) → newest x y ≡ some (e, a, 1) → y ≡ some (e, a)
  unfolding newest
  newest_holds_1 none none e a h = cc
  newest_holds_1 (some (e0, a0)) none e a h = ground arith
  newest_holds_1 none (some (e1, a1)) e a h = ground arith
  newest_holds_1 (some (e0, a0)) (some (e1, a1)) e a h = ground arith

  pub visible_past :
      (committed e : ℕ) (a : A) → committed < e → visible committed (some (e, a)) ≡ none
  unfolding visible
  visible_past committed e a lt = ground arith

  pub visible-Until :
      (bound committed : ℕ) (c : Option (ℕ × A))
      → Until bound c
      → bound ≤ committed
      → visible committed c ≡ c
  unfolding visible
  visible-Until bound committed none until le = refl
  visible-Until bound committed (some (e, a)) until le = ground (arith, until e a refl)

  pub visible_self : (e : ℕ) (a : A) → visible e (some (e, a)) ≡ some (e, a)
  unfolding visible
  visible_self e a = ground arith

  -- The new copy beside one that is no newer than the committed epoch.
  pub newest_new_0 :
      (committed : ℕ) (a : A) (y : Option (ℕ × A))
      → Until committed y
      → newest (visible (suc committed) (some (suc committed, a))) (visible (suc committed) y)
        ≡ some (suc committed, a, 0)
  newest_new_0 committed a y until =
      ap (λ c. newest c (visible (suc committed) y)) (visible_self (suc committed) a)
      ∙ ap (newest (some (suc committed, a)))
          (visible-Until committed (suc committed) y until (omega arith))
      ∙ newest_first committed (suc committed) a y until (omega arith)

  pub newest_new_1 :
      (committed : ℕ) (a : A) (x : Option (ℕ × A))
      → Until committed x
      → newest (visible (suc committed) x) (visible (suc committed) (some (suc committed, a)))
        ≡ some (suc committed, a, 1)
  newest_new_1 committed a x until =
      ap (newest (visible (suc committed) x)) (visible_self (suc committed) a)
      ∙ ap (λ c. newest c (some (suc committed, a)))
          (visible-Until committed (suc committed) x until (omega arith))
      ∙ newest_second committed (suc committed) a x until (omega arith)
