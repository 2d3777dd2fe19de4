-- ===== src/Radix/Resolution.antt =====
-- `_resolve_segment`: it returns what the tree holds for the segment, from the pending segments, from the
-- cache or by the walk, and only the cache changes.
use durable_infinite_context.Prelude.{
  ℕ, ◌<◌, ◌≡◌, inl, inr, ◌^◌, true, Option, none, some, [], length, ltb, if◌then◌else◌, arith, refl,
  sym, ap, ◌∙◌, some_same, Option-cases, Bool-cases, ok, err,
}
use native.Mathlib.Decide.{ℕ_discrete}
use durable_infinite_context.Prelude.Dicts.{
  number_key, pair_key, Dict, get, put, get-put_same, get-put_other,
}
use durable_infinite_context.Radix.{Fault, radix_digits, root_node_base_page}
use durable_infinite_context.Radix.Disk.{Disk, Format}
use durable_infinite_context.Radix.Digits.{digits_from-length}
use durable_infinite_context.Radix.Pending.{view, path, Pending}
use durable_infinite_context.Radix.Tree.{reach}
use durable_infinite_context.Radix.Txn.{
  Txn, ◌>>=◌, ◌>>◌, lift, modify, pure, run_on, digits_of, is_empty, walk, traverse,
  resolve_segment,
}
use durable_infinite_context.Radix.Walks.{walk-reach}

module _ {Page R : Type 0} (f : Format Page R) (before : Disk Page) (committed start : ℕ)
    (s : Txn Page) (frontier segment_id : ℕ) (inv : Pending f before committed start s frontier)
    (bound : segment_id < 2 ^ 64) where
  abbrev with_cache : Dict (ℕ × ℕ) (Option ℕ) → Txn Page
  with_cache c = record s { segment_cache = c }

  abbrev held : Option ℕ
  held = reach (view f before committed start s) (path segment_id)

  pub record Resolved (found : Option ℕ) (cache : Dict (ℕ × ℕ) (Option ℕ)) : Type 0 where
    pub is : found ≡ held
    pub run : resolve_segment f segment_id committed s ≡ (ok found, with_cache cache)
    pub ready : Pending f before committed start (with_cache cache) frontier

  ready_with :
      (c : Dict (ℕ × ℕ) (Option ℕ))
      → ((q : ℕ) (o : Option ℕ)
          → is_empty s.pending_nodes ≡ true
          → get (committed, q) c ≡ some o
          → reach (view f before committed start s) (path q) ≡ o)
      → Pending f before committed start (with_cache c) frontier
  ready_with c cached = record {
    even = inv.even;
    safe = inv.safe;
    tree = inv.tree;
    segments = inv.segments;
    cache = cached;
  }

  pub digits_ok : digits_of segment_id ≡ ok (radix_digits segment_id)
  digits_ok =
      let t : ltb segment_id (2 ^ 64) ≡ true = ground arith in
      ap (λ c. if c then ok (radix_digits segment_id) else err Fault.out_of_namespace) t

  walk_ok : walk f s committed 0 (radix_digits segment_id) root_node_base_page ≡ ok held
  unfolding reach
  walk_ok =
      let full : length (radix_digits segment_id) ≡ 8 = digits_from-length 8 segment_id in
      walk-reach f before committed start s frontier inv (radix_digits segment_id) []
        root_node_base_page
        (λ e. let l : length (radix_digits segment_id) ≡ 0 = ap length e in omega arith)
        (omega arith) refl

  abbrev noted : Option ℕ → Txn Page → Txn Page
  noted found t =
      if is_empty t.pending_nodes
      then record t { segment_cache = put (committed, segment_id) found t.segment_cache }
      else t

  traverse_ok : traverse f segment_id committed s ≡ (ok held, noted held s)
  unfolding traverse
  traverse_ok =
      run_on (lift (λ t. digits_of segment_id))
        (λ digits. lift (λ t. walk f t committed 0 digits root_node_base_page) >>= λ found.
          modify (noted found) >> pure found)
        s s (radix_digits segment_id) (ap (λ o. (o, s)) digits_ok)
      ∙ run_on (lift (λ t. walk f t committed 0 (radix_digits segment_id) root_node_base_page))
          (λ found. modify (noted found) >> pure found) s s held (ap (λ o. (o, s)) walk_ok)

  put_ready :
      (q : ℕ) (o : Option ℕ)
      → is_empty s.pending_nodes ≡ true
      → get (committed, q) (put (committed, segment_id) held s.segment_cache) ≡ some o
      → reach (view f before committed start s) (path q) ≡ o
  put_ready q o empty has = elim (ℕ_discrete q segment_id) [
    | yes same ↦
        ap (λ k. reach (view f before committed start s) (path k)) same
        ∙ some_same (
            sym (get-put_same (committed, segment_id) held s.segment_cache)
            ∙ ap (λ k. get (committed, k) (put (committed, segment_id) held s.segment_cache))
                (sym same)
            ∙ has)
    | no other ↦ inv.cache q o empty (
        sym (
          get-put_other (committed, q) (committed, segment_id) held s.segment_cache
            (λ e. other (ap (λ p. p.1) e)))
        ∙ has)
  ]

  by_walk :
      resolve_segment f segment_id committed s ≡ traverse f segment_id committed s
      → (c : Dict (ℕ × ℕ) (Option ℕ)) × Resolved held c
  by_walk run = elim (Bool-cases (is_empty s.pending_nodes)) [
    | inl empty ↦
        let c : Dict (ℕ × ℕ) (Option ℕ) = put (committed, segment_id) held s.segment_cache in
        (
          c,
          record {
            is = refl;
            run = run ∙ traverse_ok ∙ ap (λ t. (ok held, if t then with_cache c else s)) empty;
            ready = ready_with c put_ready;
          },
        )
    | inr full ↦ (
      s.segment_cache,
      record {
        is = refl;
        run =
            run
            ∙ traverse_ok
            ∙ ap
                (λ t. (
                  ok held,
                  if t then with_cache (put (committed, segment_id) held s.segment_cache) else s,
                ))
                full;
        ready = ready_with s.segment_cache inv.cache;
      },
    )
  ]

  abbrev consulted : Option (Option ℕ)
  consulted = if is_empty s.pending_nodes then get (committed, segment_id) s.segment_cache else none

  pub resolve_segment-Resolved :
      (found : Option ℕ) × (c : Dict (ℕ × ℕ) (Option ℕ)) × Resolved found c
  unfolding resolve_segment
  resolve_segment-Resolved = elim (Option-cases (get segment_id s.pending_segments)) [
    | inr (b, pending) ↦ (
      some b,
      s.segment_cache,
      record {
        is = sym (inv.segments segment_id b pending).1;
        run = rw (pending, resolve_segment) refl;
        ready = inv;
      },
    )
    | inl missing ↦ elim (Bool-cases (is_empty s.pending_nodes)) [
      | inr full ↦
          let (c, r) = by_walk (rw (missing, resolve_segment) (rw (full, resolve_segment) refl)) in
          (held, c, r)
      | inl empty ↦ elim (Option-cases (get (committed, segment_id) s.segment_cache)) [
        | inl uncached ↦
            let (c, r) = by_walk (
              rw (missing, resolve_segment)
                (rw (empty, resolve_segment) (rw (uncached, resolve_segment) refl))) in
            (held, c, r)
        | inr (o, cached) ↦ (
          o,
          s.segment_cache,
          record {
            is = sym (inv.cache segment_id o empty cached);
            run =
                rw (missing, resolve_segment)
                  (rw (empty, resolve_segment) (rw (cached, resolve_segment) refl));
            ready = inv;
          },
        )
      ]
    ]
  ]
