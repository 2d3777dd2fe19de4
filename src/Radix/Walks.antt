-- ===== src/Radix/Walks.antt =====
-- The walks of a segment's digits: what resolving returns, and where a reservation ends.
use durable_infinite_context.Prelude.{
  ℕ, ◌+◌, ◌<◌, ◌≡◌, ◌≢◌, inl, inr, true, none, some, List, [], ◌∷◌, length, All, ◌==◌,
  if◌then◌else◌, arith, refl, sym, ap, ◌∙◌, Option-cases, ok, err,
}
use durable_infinite_context.Prelude.Dicts.{number_key, pair_key, get}
use durable_infinite_context.Radix.{Node, Fault}
use durable_infinite_context.Radix.Disk.{Disk, Format}
use durable_infinite_context.Radix.Mapping.{Descent, descend}
use durable_infinite_context.Radix.Pending.{view, Pending, Viewed, Pending-Viewed}
use durable_infinite_context.Radix.Txn.{Txn, transaction_node_view, checked, node_on_walk, walk}
use durable_infinite_context.Radix.Tree.{View, edge, reach, reach-next, reach-stop}
use durable_infinite_context.Radix.Tree.Links.{Spot}
use durable_infinite_context.Radix.Tree.Growth.{onto}

-- No path goes on from one that leads nowhere.
pub reach-stopped : (v : View) (ds p : List ℕ) → reach v p ≡ none → reach v (onto ds p) ≡ none
reach-stopped v [] p stop = stop
reach-stopped v (d ∷ ds) p stop = reach-stopped v ds (d ∷ p) (reach-stop v d p stop)

module _ {Page R : Type 0} (f : Format Page R) (before : Disk Page) (committed start : ℕ)
    (s : Txn Page) (frontier : ℕ) (inv : Pending f before committed start s frontier) where
  abbrev now : View
  now = view f before committed start s

  on_walk :
      (p : List ℕ) (base : ℕ)
      → length p < 8
      → reach now p ≡ some base
      → (n : Node) × (now base ≡ some n)
        × (n.depth ≡ length p)
        × ((slot : ℕ) × (node_on_walk f s committed (length p) base ≡ ok (n, slot))
            × Viewed f before committed start s base n slot)
  unfolding node_on_walk
  on_walk p base short run =
      let (n, is, depth, (slot, seen)) =
        Pending-Viewed f before committed start s frontier p base inv short run in
      let test : (n.depth == length p) ≡ true = ground arith in
      let read : checked f (length p) (transaction_node_view f s base committed) ≡ ok (n, slot) =
        ap (checked f (length p)) seen.result
        ∙ ap (λ c. if c then ok (n, slot) else err Fault.depth_drifted) test in
      (n, is, depth, (slot, read, seen))

  edge_of :
      (p : List ℕ) (base d : ℕ) (n : Node)
      → now base ≡ some n
      → reach now p ≡ some base
      → reach now (d ∷ p) ≡ get d n.entries
  edge_of p base d n is run = reach-next now d p base run ∙ ap (edge d) is

  -- The walk returns where the segment's path leads.
  pub walk-reach :
      (ds p : List ℕ) (base : ℕ)
      → ds ≢ []
      → length p + length ds ≡ 8
      → reach now p ≡ some base
      → walk f s committed (length p) ds base ≡ ok (reach now (onto ds p))
  unfolding walk
  walk-reach [] p base some_left count run = absurd (some_left refl)
  walk-reach (d ∷ []) p base some_left count run =
      let (n, is, depth, (slot, read, seen)) = on_walk p base (omega arith) run in
      rw (read, walk)
        (elim (Option-cases (get d n.entries)) [
          | inl stop ↦ rw stop (ap ok (sym (edge_of p base d n is run ∙ stop)))
          | inr (page, on) ↦ rw on (ap ok (sym (edge_of p base d n is run ∙ on)))
        ])
  walk-reach (d ∷ e ∷ es) p base some_left count run =
      let (n, is, depth, (slot, read, seen)) = on_walk p base (omega arith) run in
      rw (read, walk)
        (elim (Option-cases (get d n.entries)) [
          | inl stop ↦
              rw stop (
                ap ok (sym (reach-stopped now (e ∷ es) (d ∷ p) (edge_of p base d n is run ∙ stop))))
          | inr (page, on) ↦ rw on (
              walk-reach (e ∷ es) (d ∷ p) page (λ q. cc) (omega arith)
                (edge_of p base d n is run ∙ on))
        ])

  -- How a reservation's walk ends: at the segment of the path, or at a free entry on the way.
  pub data Ends (ds p : List ℕ) : Descent → Type 0 where
    mapped : (page : ℕ) → reach now (onto ds p) ≡ some page → Ends ds p (Descent.mapped page)
    missing :
        (q : List ℕ) (base slot : ℕ) (n : Node) (digit : ℕ) (rest : List ℕ)
        → Spot now q base n digit
        → n.depth ≡ length q
        → Viewed f before committed start s base n slot
        → onto rest (digit ∷ q) ≡ onto ds p
        → length q + 1 + length rest ≡ 8
        → (All (λ e. e < 256) ds → (digit < 256) × All (λ e. e < 256) rest)
        → Ends ds p (Descent.missing (length q) base slot n digit rest)

  ended :
      (p : List ℕ) (d : ℕ) (ds : List ℕ) (base slot : ℕ) (n : Node)
      → now base ≡ some n
      → n.depth ≡ length p
      → Viewed f before committed start s base n slot
      → reach now p ≡ some base
      → get d n.entries ≡ none
      → length p + length (d ∷ ds) ≡ 8
      → Ends (d ∷ ds) p (Descent.missing (length p) base slot n d ds)
  ended p d ds base slot n is depth seen run stop count =
      Ends.missing p base slot n d ds
        record { short = omega arith; run = run; node = is; free = stop } depth seen refl
        (omega arith) (λ bytes. bytes)

  deeper : (d : ℕ) (ds p : List ℕ) (end : Descent) → Ends ds (d ∷ p) end → Ends (d ∷ ds) p end
  deeper d ds p _ (Ends.mapped page to) = Ends.mapped page to
  deeper d ds p _ (Ends.missing q base slot n digit rest spot depth seen same count bytes) =
      Ends.missing q base slot n digit rest spot depth seen same count (λ all. bytes all.1)

  pub descend-Ends :
      (ds p : List ℕ) (base : ℕ)
      → ds ≢ []
      → length p + length ds ≡ 8
      → reach now p ≡ some base
      → (end : Descent) × (descend f s committed (length p) ds base ≡ ok end) × Ends ds p end
  unfolding descend
  descend-Ends [] p base some_left count run = absurd (some_left refl)
  descend-Ends (d ∷ []) p base some_left count run =
      let (n, is, depth, (slot, read, seen)) = on_walk p base (omega arith) run in
      rw (read, descend)
        (elim (Option-cases (get d n.entries)) [
          | inl stop ↦ rw stop (
            Descent.missing (length p) base slot n d [],
            refl,
            ended p d [] base slot n is depth seen run stop count,
          )
          | inr (page, on) ↦
              rw on (Descent.mapped page, refl, Ends.mapped page (edge_of p base d n is run ∙ on))
        ])
  descend-Ends (d ∷ e ∷ es) p base some_left count run =
      let (n, is, depth, (slot, read, seen)) = on_walk p base (omega arith) run in
      rw (read, descend)
        (elim (Option-cases (get d n.entries)) [
          | inl stop ↦ rw stop (
            Descent.missing (length p) base slot n d (e ∷ es),
            refl,
            ended p d (e ∷ es) base slot n is depth seen run stop count,
          )
          | inr (page, on) ↦
              let (end, down, ends) =
                descend-Ends (e ∷ es) (d ∷ p) page (λ q. cc) (omega arith)
                  (edge_of p base d n is run ∙ on) in
              rw on (end, down, deeper d (e ∷ es) p end ends)
        ])
