-- ===== src/Dependencies/Walks.antt =====
-- What the loops of an invalidation do to the seen ids, the queue and the statuses.
use durable_infinite_context.Prelude.{
  ℕ, ◌+◌, ◌≤◌, ◌≡◌, refl, inl, inr, String, true, false, ◌&&◌, ◌||◌, not, Option, none, some, List,
  [], ◌∷◌, arith, str_eq, eq_iff, Bool-cases, Option-cases, if◌then◌else◌, length, length-append,
}
use durable_infinite_context.Prelude.Ids.{has, has-append}
use durable_infinite_context.Prelude.Dicts.{text_key, Dict, get, get-put}
use durable_infinite_context.Dependencies.{
  DerivationStatus, invalid, DependencyGraph, dependents_set, is_invalid, Walk, invalidate, enqueue,
  touch_all, all_dependents,
}

pub is_invalid_iff : (s : Option DerivationStatus) → is_invalid s ≡ true → s ≡ some invalid
is_invalid_iff (some invalid) h = refl
is_invalid_iff (some DerivationStatus.fresh) h = cc
is_invalid_iff (some DerivationStatus.rebuilding) h = cc
is_invalid_iff none h = cc

status-invalidate :
    (d r : String) (w : Walk)
    → get r (invalidate d w).status ≡ (if str_eq r d then some invalid else get r w.status)
unfolding invalidate
status-invalidate d r w = elim (Bool-cases (is_invalid (get d w.status))) [
  | inl already ↦ ground (arith, is_invalid_iff (get d w.status) already, eq_iff r d)
  | inr other ↦ ground (arith, get-put r d invalid w.status)
]

-- the walk after the dependents `ds` of one node
pub record Touched (ds : List String) (w w' : Walk) : Type 0 where
  pub seen : (r : String) → has r w'.seen ≡ (has r ds || has r w.seen)
  pub queue : (r : String) → has r w'.queue ≡ (has r w.queue || (has r ds && not (has r w.seen)))
  pub status : (r : String) → get r w'.status ≡ (if has r ds then some invalid else get r w.status)

touch_one : (d : String) (w : Walk) → Touched (d ∷ []) w (enqueue d (invalidate d w))
unfolding invalidate enqueue has
touch_one d w = record {
  seen = λ r. ground (arith, eq_iff r d);
  queue = λ r. ground (arith, eq_iff r d, has-append r w.queue (d ∷ []));
  status = λ r. ground (arith, status-invalidate d r w);
}

pub touch_all-Touched : (ds : List String) (w : Walk) → Touched ds w (touch_all ds w)
unfolding touch_all has
touch_all-Touched [] w = record { seen = λ r. refl; queue = λ r. ground arith; status = λ r. refl }
touch_all-Touched (d ∷ ds) w =
    let one = touch_one d w in
    let rest = touch_all-Touched ds (enqueue d (invalidate d w)) in
    record {
      seen = λ r. ground (arith, one.seen r, rest.seen r);
      queue = λ r. ground (arith, one.queue r, rest.queue r, one.seen r);
      status = λ r. ground (arith, one.status r, rest.status r);
    }

-- how many of the ids `us` are not seen
unfoldable pub unseen : List String → List String → ℕ
unseen seen [] = 0
unseen seen (u ∷ us) = (if has u seen then 0 else 1) + unseen seen us

unseen_more : (d : String) (seen us : List String) → unseen (d ∷ seen) us ≤ unseen seen us
unfolding unseen has
unseen_more d seen [] = omega arith
unseen_more d seen (u ∷ us) = ground (arith, unseen_more d seen us)

unseen_less :
    (d : String) (seen us : List String)
    → has d us ≡ true
    → has d seen ≡ false
    → unseen (d ∷ seen) us + 1 ≤ unseen seen us
unfolding unseen has
unseen_less d seen [] there new = absurd (ground arith)
unseen_less d seen (u ∷ us) there new = elim (Bool-cases (str_eq d u)) [
  | inl same ↦ ground (arith, (eq_iff d u).0 same, eq_iff u d, unseen_more d seen us)
  | inr other ↦ ground (arith, eq_iff u d, eq_iff d u, unseen_less d seen us (ground arith) new)
]

pub unseen-le-length : (seen us : List String) → unseen seen us ≤ length us
unfolding unseen
unseen-le-length seen [] = omega arith
unseen-le-length seen (u ∷ us) = ground (arith, unseen-le-length seen us)

kept_by-invalidate :
    (d : String) (w : Walk) → ((invalidate d w).queue ≡ w.queue) × ((invalidate d w).seen ≡ w.seen)
unfolding invalidate
kept_by-invalidate d w = (ground arith, ground arith)

enqueue_measure :
    (d : String) (w : Walk) (us : List String)
    → has d us ≡ true
    → length (enqueue d w).queue + unseen (enqueue d w).seen us ≤ length w.queue + unseen w.seen us
unfolding enqueue
enqueue_measure d w us there = elim (Bool-cases (has d w.seen)) [
  | inl old ↦ ground arith
  | inr new ↦ ground (arith, unseen_less d w.seen us there new, length-append w.queue (d ∷ []))
]

pub touch_all_measure :
    (ds : List String) (w : Walk) (us : List String)
    → ((d : String) → has d ds ≡ true → has d us ≡ true)
    → length (touch_all ds w).queue + unseen (touch_all ds w).seen us
      ≤ length w.queue + unseen w.seen us
unfolding touch_all has
touch_all_measure [] w us sub = omega arith
touch_all_measure (d ∷ ds) w us sub =
    let same = kept_by-invalidate d w in
    ground (
      arith,
      same.0,
      same.1,
      eq_iff d d,
      enqueue_measure d (invalidate d w) us (sub d (ground (arith, eq_iff d d))),
      touch_all_measure ds (enqueue d (invalidate d w)) us (λ x h. sub x (ground arith)),
    )

-- Every dependent of an id is among all dependents.
has-all_dependents :
    (q d : String) (e : Dict String (List String)) (ds : List String)
    → get q e ≡ some ds
    → has d ds ≡ true
    → has d (all_dependents e) ≡ true
unfolding all_dependents get
has-all_dependents q d [] ds at there = cc
has-all_dependents q d ((k, l) ∷ e) ds at there = elim (Bool-cases (str_eq q k)) [
  | inl same ↦ ground (arith, has-append d l (all_dependents e))
  | inr other ↦
      ground
        (arith, has-append d l (all_dependents e), has-all_dependents q d e ds (ground arith) there)
]

pub has-dependents_set :
    (g : DependencyGraph) (q d : String)
    → has d (dependents_set g q) ≡ true
    → has d (all_dependents g.dependents) ≡ true
unfolding dependents_set has
has-dependents_set g q d there = elim (Option-cases (get q g.dependents)) [
  | inl nothing ↦ absurd (ground arith)
  | inr (ds, at) ↦ has-all_dependents q d g.dependents ds at (ground arith)
]
