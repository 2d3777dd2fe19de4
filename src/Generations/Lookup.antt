-- ===== src/Generations/Lookup.antt =====
-- lookup of a two-generation index: the current table, then the old one.
use durable_infinite_context.Prelude.{
  ℕ, zero, suc, ◌≤◌, ◌≡◌, inl, inr, sym, ap, ◌∙◌, String, true, none, some, [], ◌∷◌, arith, drop,
  ltb, if◌then◌else◌,
}
use durable_infinite_context.Prelude.Slots.{Slots, copies}
use durable_infinite_context.Probing.{Table, lookup}
use durable_infinite_context.Probing.Tables.{lookup-copies}
use durable_infinite_context.Generations.{HashIndex}
use durable_infinite_context.Generations.Operations.{lookup_index}
use durable_infinite_context.Generations.Invariant.{
  held, held_resting, held_underway, IsIndex, IsIndex-cases,
}

copies-drop : (q : String) (i : ℕ) (b : Slots) → copies q (drop i b) ≤ copies q b
copies-drop q zero b = omega arith
copies-drop q (suc i) [] = omega arith
copies-drop q (suc i) (none ∷ b) = copies-drop q i b
copies-drop q (suc i) (some k ∷ b) = omega (arith, copies-drop q i b)

module _ (hash : String → ℕ) where
  lookup_index_resting :
      (q : String) (x : HashIndex)
      → x.old ≡ none
      → (lookup_index hash q x).found ≡ (lookup hash q x.current).0
  unfolding lookup_index
  lookup_index_resting q x e = ground (arith, e)

  lookup_index_underway :
      (q : String) (x : HashIndex) {o : Table}
      → x.old ≡ some o
      → (lookup_index hash q x).found
        ≡ (if (lookup hash q x.current).0 then true else (lookup hash q o).0)
  unfolding lookup_index
  lookup_index_underway q x e = ground (arith, e)

  -- A lookup in a well-formed index finds exactly the keys that it holds, whichever generation has them.
  pub lookup_index-held :
      (q : String) (x : HashIndex)
      → IsIndex hash x
      → (lookup_index hash q x).found ≡ ltb 0 (held x q)
  lookup_index-held q x v = elim (IsIndex-cases hash x v) [
    | inl (e, r) ↦
        lookup_index_resting q x e
        ∙ (lookup-copies hash x.current q r.current).0
        ∙ ap (ltb 0) (sym (held_resting x q e))
    | inr (o, e, u) ↦
        let now = (lookup-copies hash x.current q u.moving.current).0 in
        let before = (lookup-copies hash o q u.moving.source).0 in
        let fewer = copies-drop q x.migration_cursor o.slots in
        ground (
          arith,
          lookup_index_underway q x e,
          now,
          before,
          fewer,
          u.moving.kept q,
          held_underway x q e,
        )
  ]
