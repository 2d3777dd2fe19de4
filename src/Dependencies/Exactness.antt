-- ===== src/Dependencies/Exactness.antt =====
-- invalidate_from against the ids that are reached from the roots along the dependents.
use durable_infinite_context.Prelude.{
  List-cases, ℕ, zero, suc, ◌+◌, ◌≤◌, ◌≡◌, refl, sym, ◌∙◌, ◌⊎◌, inl, inr, String, true, false, some,
  List, [], ◌∷◌, arith, str_eq, eq_iff, Bool-cases, length,
}
use durable_infinite_context.Prelude.Ids.{from_keys, has-from_keys, has}
use durable_infinite_context.Prelude.Dicts.{text_key, get}
use durable_infinite_context.Dependencies.{
  invalid, DependencyTrace, DependencyGraph, dependents_set, Walk, start, visit, walk,
  all_dependents, invalidate_from,
}
use durable_infinite_context.Dependencies.Walks.{
  Touched, touch_all-Touched, unseen, unseen-le-length, touch_all_measure, has-dependents_set,
}

-- the roots and what depends on them, directly or through others
pub data Reach (g : DependencyGraph) (roots : List String) : String → Type 0 where
  root : {q : String} → has q roots ≡ true → Reach g roots q
  dependent : {q d : String} → Reach g roots q → has d (dependents_set g q) ≡ true → Reach g roots d

-- a dependent of the roots or of something reached from them
abbrev pub Affected : DependencyGraph → List String → String → Type 0
Affected g roots d = (q : String) × Reach g roots q × (has d (dependents_set g q) ≡ true)

module _ (g : DependencyGraph) (roots : List String) where
  record Sound (w : Walk) : Type 0 where
    reached : (q : String) → has q w.seen ≡ true → Reach g roots q
    rooted : (q : String) → has q roots ≡ true → has q w.seen ≡ true
    queued : (q : String) → has q w.queue ≡ true → has q w.seen ≡ true
    closed :
        (q d : String)
        → has q w.seen ≡ true
        → has q w.queue ≡ false
        → has d (dependents_set g q) ≡ true
        → (has d w.seen ≡ true) × (get d w.status ≡ some invalid)
    kept :
        (d : String)
        → (get d w.status ≡ get d g.status) ⊎ ((get d w.status ≡ some invalid) × Affected g roots d)

  visit-Touched :
      (q : String) (rest : List String) (w : Walk)
      → (v : Walk) × Touched (dependents_set g q) v (visit g q rest w)
        × (v.seen ≡ w.seen)
        × (v.queue ≡ rest)
        × (v.status ≡ w.status)
  unfolding visit
  visit-Touched q rest w = (_, touch_all-Touched (dependents_set g q) _, refl, refl, refl)

  visit-Sound :
      (q : String) (rest : List String) (w : Walk)
      → w.queue ≡ q ∷ rest
      → Sound w
      → Sound (visit g q rest w)
  unfolding has
  visit-Sound q rest w head s =
      let ds = dependents_set g q in
      let (v, t, seen, queue, status) = visit-Touched q rest w in
      let here = s.queued q (ground (arith, head, eq_iff q q)) in
      record {
        reached = λ r h. elim (Bool-cases (has r w.seen)) [
          | inl old ↦ s.reached r old
          | inr new ↦ dependent (s.reached q here) (ground (arith, t.seen r, seen))
        ];
        rooted = λ r h. ground (arith, t.seen r, seen, s.rooted r h);
        queued = λ r h. ground (arith, t.seen r, t.queue r, seen, queue, s.queued r, head);
        closed = λ r d h out there. elim (Bool-cases (str_eq r q)) [
          | inl same ↦
              let e : has d ds ≡ true = rw ((eq_iff r q).0 same) at there in
              ground (arith, e, t.seen d, t.status d)
          | inr other ↦
              let old : has r w.seen ≡ true = ground (arith, t.seen r, t.queue r, seen, queue) in
              let rest_out : has r w.queue ≡ false = ground (arith, t.queue r, queue, head) in
              let (d_seen, d_invalid) = s.closed r d old rest_out there in
              ground (arith, t.seen d, t.status d, seen, status, d_seen, d_invalid)
        ];
        kept = λ d. elim (Bool-cases (has d ds)) [
          | inl there ↦ inr (ground (arith, t.status d), (q, s.reached q here, there))
          | inr out ↦
              let same : get d (visit g q rest w).status ≡ get d w.status =
                ground (arith, t.status d, status) in
              elim (s.kept d) [
                | inl old ↦ inl (same ∙ old)
                | inr (now, from) ↦ inr (same ∙ now, from)
              ]
        ];
      }

  start-Sound : Sound (start g roots)
  start-Sound = record {
    reached = λ q h. root h;
    rooted = λ q h. h;
    queued = λ q h. h;
    closed = λ q d h out there. absurd (ground arith);
    kept = λ d. inl refl;
  }

  visit_measure :
      (q : String) (rest : List String) (w : Walk)
      → let us = all_dependents g.dependents in
        length (visit g q rest w).queue + unseen (visit g q rest w).seen us
        ≤ length rest + unseen w.seen us
  unfolding visit
  visit_measure q rest w =
      touch_all_measure (dependents_set g q) _ (all_dependents g.dependents)
        (λ d h. has-dependents_set g q d h)

  -- With enough rounds the queue runs empty.
  walk-Sound :
      (n : ℕ) (w : Walk)
      → length w.queue + unseen w.seen (all_dependents g.dependents) ≤ n
      → Sound w
      → (w' : Walk) × (walk n g w ≡ some w') × Sound w' × (w'.queue ≡ [])
  unfolding walk
  walk-Sound zero w few s = elim (List-cases w.queue) [
    | inl done ↦ (w, ground (arith, done), s, done)
    | inr (q, rest, head) ↦ absurd (ground (arith, head))
  ]
  walk-Sound (suc n) w few s = elim (List-cases w.queue) [
    | inl done ↦ (w, ground (arith, done), s, done)
    | inr (q, rest, head) ↦
        let next = visit g q rest w in
        let size : length w.queue ≡ length rest + 1 = ground (arith, head) in
        let (w', run, sound, done) =
          walk-Sound n next (ground (arith, visit_measure q rest w))
            (visit-Sound q rest w head s) in
        (w', ground (arith, head, run), sound, done)
  ]

  reached_seen :
      (w : Walk) → Sound w → w.queue ≡ [] → (q : String) → Reach g roots q → has q w.seen ≡ true
  unfolding has
  reached_seen w s done q (root h) = s.rooted q h
  reached_seen w s done q (dependent {q = p} r there) =
      (s.closed p q (reached_seen w s done p r) (ground (arith, done)) there).0

pub has-Reach :
    (g g' : DependencyGraph) (a b : List String)
    → ((q : String) → dependents_set g q ≡ dependents_set g' q)
    → ((q : String) → has q a ≡ true → has q b ≡ true)
    → (q : String) → Reach g a q
    → Reach g' b q
has-Reach g g' a b edges sub q (root h) = root (sub q h)
has-Reach g g' a b edges sub q (dependent {q = p} r there) =
    dependent (has-Reach g g' a b edges sub p r) (rw (edges p) at there)

-- An invalidation always comes to an end. Then a node's status is invalid if the node depends, directly
-- or through others, on one of the roots, and is what it was otherwise; the edges and the kinds are
-- what they were.
pub invalidate_from_exact :
    (g : DependencyGraph) (root_ids : List String)
    → (t : DependencyTrace) × (g' : DependencyGraph) × (invalidate_from g root_ids ≡ some (t, g'))
      × ((d : String) → Affected g root_ids d → get d g'.status ≡ some invalid)
      × ((d : String) → (get d g'.status ≡ get d g.status) ⊎ Affected g root_ids d)
      × (g'.dependents ≡ g.dependents)
      × (g'.dependencies ≡ g.dependencies)
      × (g'.kind ≡ g.kind)
unfolding invalidate_from has
invalidate_from_exact g root_ids =
    let roots = from_keys [] root_ids in
    let same = λ (q : String). has-from_keys q [] root_ids in
    let few = unseen-le-length roots (all_dependents g.dependents) in
    let (w, run, s, done) =
      walk-Sound g roots (length roots + length (all_dependents g.dependents)) (start g roots)
        (omega (arith, few)) (start-Sound g roots) in
    let here = λ (q : String) (r : Reach g root_ids q).
      has-Reach g g root_ids roots (λ x. refl) (λ x h. same x ∙ h) q r in
    (
      w.trace,
      record g { status = w.status },
      ground (arith, run),
      (λ d (q, r, there).
          (s.closed q d (reached_seen g roots w s done q (here q r)) (ground (arith, done))
            there).1),
      (λ d. elim (s.kept d) [
        | inl old ↦ inl old
        | inr (now, (q, r, there)) ↦
            inr (q, has-Reach g g roots root_ids (λ x. refl) (λ x h. sym (same x) ∙ h) q r, there)
      ]),
      refl,
      refl,
      refl,
    )
