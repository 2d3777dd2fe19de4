-- ===== src/Probing/Loop.antt =====
-- How the loop over the probe positions ends, and where a probe sequence goes.
use native.Mathlib.Decide.{ℕ_discrete}
use durable_infinite_context.Prelude.{
  ℕ, zero, suc, ◌+◌, ◌/◌, ◌≤◌, ◌<◌, ◌≡◌, ◌⊎◌, inl, inr, refl, sym, ap, ◌∙◌, String, Option, none,
  some, List, [], ◌∷◌, length, get_or, arith, Option-cases,
}
use durable_infinite_context.Probing.{Table, touch, position, probe}

-- a set of pages grows by at most one
pub length-touch :
    (page : ℕ) (pages : List ℕ)
    → (length pages ≤ length (touch page pages)) × (length (touch page pages) ≤ length pages + 1)
unfolding touch
length-touch page [] = (omega arith, omega arith)
length-touch page (p ∷ ps) = let (a, b) = length-touch page ps in (ground arith, ground arith)

module _ (hash : String → ℕ) where
  module _ {R : Type 0} (t : Table) (key : String)
      (body : ℕ → ℕ → ℕ → Option String → Option R) where
    -- what the body makes of the offset `i`, with the pages so far
    abbrev pub round : ℕ → ℕ → Option R
    round pages i =
        body (i + 1) pages (position hash t.capacity key i)
          (get_or t.slots (position hash t.capacity key i) none)

    abbrev pub Passed : ℕ → ℕ → Type 0
    Passed offset limit = (i : ℕ) → offset ≤ i → i < limit → (p : ℕ) × (round p i ≡ none)

    -- The body returned at the offset `at`, and passed on at every earlier one.
    pub record Ends (offset limit : ℕ) (result : R) : Type 0 where
      pub at : ℕ
      pub pages : ℕ
      pub from : offset ≤ at
      pub below : at < limit
      pub returned : round pages at ≡ some result
      pub passed : Passed offset at
      pub few : pages ≤ at + 1

    -- no offset made the body return
    pub record IsExhausted (exhausted : ℕ → R) (offset limit : ℕ) (result : R) : Type 0 where
      pub pages : ℕ
      pub out : exhausted pages ≡ result
      pub passed : Passed offset limit
      pub few : pages ≤ limit

    Passed-first :
        (offset limit p : ℕ)
        → round p offset ≡ none
        → Passed (offset + 1) limit
        → Passed offset limit
    Passed-first offset limit p on rest i a b = elim (ℕ_discrete offset i) [
      | yes e ↦ (p, ap (round p) (sym e) ∙ on)
      | no other ↦ rest i (omega arith) b
    ]

    -- A loop either returns at some offset, or passes all of them and is exhausted.
    pub probe-Ends :
        (exhausted : ℕ → R) (n offset limit : ℕ) (pages : List ℕ)
        → length pages ≤ offset
        → limit ≡ offset + n
        → Ends offset limit (probe hash t key body exhausted n offset pages)
          ⊎ IsExhausted exhausted offset limit (probe hash t key body exhausted n offset pages)
    unfolding probe
    probe-Ends exhausted zero offset limit pages le e = inr (record {
      pages = length pages;
      out = refl;
      passed = λ i a b. absurd (omega arith);
      few = omega arith;
    })
    probe-Ends exhausted (suc n) offset limit pages le e =
        let p = position hash t.capacity key offset in
        let pages' = touch (p / t.slots_per_page) pages in
        let more = length-touch (p / t.slots_per_page) pages in
        let rest = probe hash t key body exhausted n (offset + 1) pages' in
        elim (Option-cases (round (length pages') offset)) [
          | inl on ↦
              let step : rest ≡ probe hash t key body exhausted (suc n) offset pages =
                rw (on, probe) refl in
              elim (probe-Ends exhausted n (offset + 1) limit pages' (omega (arith, more))
                (omega arith)) [
                  | inl r ↦ inl (record {
                    at = r.at;
                    pages = r.pages;
                    from = omega (arith, r.from);
                    below = r.below;
                    returned = r.returned ∙ ap some step;
                    passed = Passed-first offset r.at (length pages') on r.passed;
                    few = r.few;
                  })
                  | inr r ↦ inr (record {
                    pages = r.pages;
                    out = r.out ∙ step;
                    passed = Passed-first offset limit (length pages') on r.passed;
                    few = r.few;
                  })
                ]
          | inr (r, out) ↦ inl (record {
            at = offset;
            pages = length pages';
            from = omega arith;
            below = omega arith;
            returned =
                let step : r ≡ probe hash t key body exhausted (suc n) offset pages =
                  rw (out, probe) refl in
                out ∙ ap some step;
            passed = λ i a b. absurd (omega arith);
            few = omega (arith, more);
          })
        ]
