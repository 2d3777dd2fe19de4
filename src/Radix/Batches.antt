-- ===== src/Radix/Batches.antt =====
-- Reservations in a row: every requested segment is mapped, and no other is touched.
use durable_infinite_context.Prelude.{
  ℕ, suc, ◌+◌, ◌*◌, ◌<◌, ◌≤◌, ◌≡◌, ◌≢◌, inl, inr, ◌^◌, Bool, true, false, Option, none, some, List,
  [], ◌∷◌, String, length, All, arith, refl, sym, ap, subst, ◌∙◌, some_same, Option-cases, Outcome,
}
use native.Mathlib.Decide.{ℕ_discrete}
use durable_infinite_context.Prelude.Dicts.{
  number_key, pair_key, Dict, get, put, get-put_same, get-put_other,
}
use durable_infinite_context.Radix.{Fault, radix_digits, root_node_base_page}
use durable_infinite_context.Radix.Disk.{Disk, Format, IsFormat, node_at}
use durable_infinite_context.Radix.Digits.{
  digits_from-length, digits_from-Byte, path-injective, length-path,
}
use durable_infinite_context.Radix.Mapping.{
  Descent, descend, note_segment, place, reserve_from, reserve_unnoted, reserve_unless,
  reserve_missing, reserve_fresh_mapping, reserve_all, has_number,
}
use durable_infinite_context.Radix.Pending.{view, path, Pending}
use durable_infinite_context.Radix.Reservation.{Stopped, Reserved, allocate-Ended}
use durable_infinite_context.Radix.Resolution.{Resolved, resolve_segment-Resolved, digits_ok}
use durable_infinite_context.Radix.Runs.{Ended, chain, weaken}
use durable_infinite_context.Radix.Tree.{View, reach}
use durable_infinite_context.Radix.Txn.{Txn, Step, ◌>>=◌, lift, run_on, digits_of, resolve_segment}
use durable_infinite_context.Radix.Walks.{Ends, descend-Ends}

module _ {Page R : Type 0} (f : Format Page R) (law : IsFormat f) (before : Disk Page)
    (committed start : ℕ) (room : 4 ≤ start)
    (tail : (i : ℕ) → start ≤ i → node_at f before i ≡ none) (epochs : suc committed < 2 ^ 64)
    (failpoint : String → Txn Page → Bool) where
  abbrev ReadyTxn : Txn Page → ℕ → Type 0
  ReadyTxn = Pending f before committed start

  abbrev shown : Txn Page → View
  shown = view f before committed start

  abbrev pub StoppedAt : ℕ → Fault → Txn Page → Type 0
  StoppedAt = Stopped f law before committed start room tail epochs failpoint

  abbrev pub ReservedTxn : Txn Page → Txn Page → ℕ → ℕ → ℕ → ℕ → Type 0
  ReservedTxn = Reserved f law before committed start room tail epochs failpoint

  module _ (s : Txn Page) (frontier segment_id : ℕ) (inv : ReadyTxn s frontier)
      (bound : segment_id < 2 ^ 64) (at : s.pending_frontier ≡ some frontier) where
    abbrev pub MappedFrom : ℕ → Txn Page → Type 0
    MappedFrom b t = (later : ℕ) × ReservedTxn s t frontier later segment_id b

    -- A segment that is there already is noted.
    note_ready :
        (b : ℕ)
        → reach (shown s) (path segment_id) ≡ some b
        → ReadyTxn (note_segment f failpoint segment_id b s) frontier
    note_ready b there = record {
      even = inv.even;
      safe = inv.safe;
      tree = inv.tree;
      segments = λ q c has. elim (ℕ_discrete q segment_id) [
        | yes same ↦
            let is : b ≡ c = some_same (
              sym (get-put_same segment_id b s.pending_segments)
              ∙ ap (λ k. get k (put segment_id b s.pending_segments)) (sym same)
              ∙ has) in
            (omega arith, ap (λ k. reach (shown s) (path k)) same ∙ there ∙ ap some is)
        | no other ↦
            inv.segments q c (sym (get-put_other q segment_id b s.pending_segments other) ∙ has)
      ];
      cache = inv.cache;
    }

    note_Mapped :
        (b : ℕ)
        → reach (shown s) (path segment_id) ≡ some b
        → MappedFrom b (note_segment f failpoint segment_id b s)
    note_Mapped b there = (
      frontier,
      record {
        ready = note_ready b there;
        front = at;
        grown = omega arith;
        bounded = omega arith;
        here = there;
        was = inr there;
        others = λ q full ne. refl;
      },
    )

    placed :
        (end : Descent)
        → reach (shown s) (path segment_id) ≡ none
        → Ends f before committed start s frontier inv (radix_digits segment_id) [] end
        → Ended MappedFrom
            (StoppedAt (frontier + 46))
            (place f failpoint segment_id committed (suc committed) frontier end s)
    unfolding place
    placed _ missed (Ends.mapped page there) =
        Ended.returned page (note_segment f failpoint segment_id page s) (note_Mapped page there)
    placed _ missed (Ends.missing q base slot n digit rest spot depth read same count bytes) =
        let (byte, bytes') = bytes (digits_from-Byte 8 segment_id) in
        allocate-Ended f law before committed start room tail epochs failpoint s frontier segment_id
          inv bound q base slot n digit rest spot same count byte bytes' missed depth read

    reserve_missing-Ended :
        reach (shown s) (path segment_id) ≡ none
        → Ended MappedFrom
            (StoppedAt (frontier + 46))
            (reserve_missing f failpoint segment_id committed (suc committed) s)
    unfolding reserve_missing reach
    reserve_missing-Ended missed =
        let full : length (radix_digits segment_id) ≡ 8 = digits_from-length 8 segment_id in
        let (end, down, ends) =
          descend-Ends f before committed start s frontier inv (radix_digits segment_id) []
            root_node_base_page
            (λ e. let l : length (radix_digits segment_id) ≡ 0 = ap length e in omega arith)
            (omega arith) refl in
        let down_step : ℕ → List ℕ → Step Page ℕ = λ frontier digits.
          lift (λ t. descend f t committed 0 digits root_node_base_page)
          >>= place f failpoint segment_id committed (suc committed) frontier in
        let run : reserve_missing f failpoint segment_id committed (suc committed) s
            ≡ place f failpoint segment_id committed (suc committed) frontier end s =
          ap (λ o. reserve_from f failpoint segment_id committed (suc committed) o s) at
          ∙ run_on (lift (λ t. digits_of segment_id)) (down_step frontier) s s
              (radix_digits segment_id)
              (ap (λ o. (o, s))
                (digits_ok f before committed start s frontier segment_id inv bound))
          ∙ run_on
              (lift (λ t. descend f t committed 0 (radix_digits segment_id) root_node_base_page))
              (place f failpoint segment_id committed (suc committed) frontier) s s end
              (ap (λ o. (o, s)) down) in
        subst (Ended MappedFrom (StoppedAt (frontier + 46))) (sym run) (placed end missed ends)

  -- One reservation, of a segment already noted, already mapped, or missing.
  module _ (s : Txn Page) (frontier segment_id : ℕ) (inv : ReadyTxn s frontier)
      (bound : segment_id < 2 ^ 64) (at : s.pending_frontier ≡ some frontier) where
    abbrev GoodEnd : Outcome Fault ℕ × Txn Page → Type 0
    GoodEnd = Ended (MappedFrom s frontier segment_id inv bound at) (StoppedAt (frontier + 46))

    abbrev cached : Dict (ℕ × ℕ) (Option ℕ) → Txn Page
    cached c = record s { segment_cache = c }

    uncached :
        (c : Dict (ℕ × ℕ) (Option ℕ)) (t : Txn Page) (later b : ℕ)
        → ReservedTxn (cached c) t frontier later segment_id b
        → ReservedTxn s t frontier later segment_id b
    uncached c t later b m = record {
      ready = m.ready;
      front = m.front;
      grown = m.grown;
      bounded = m.bounded;
      here = m.here;
      was = m.was;
      others = m.others;
    }

    resolved :
        (found : Option ℕ) (c : Dict (ℕ × ℕ) (Option ℕ))
        → Resolved f before committed start s frontier segment_id inv bound found c
        → GoodEnd (reserve_unless f failpoint segment_id committed (suc committed) found (cached c))
    resolved (some b) c r = Ended.returned b (note_segment f failpoint segment_id b (cached c)) (
        let m = note_Mapped (cached c) frontier segment_id r.ready bound at b (sym r.is) in
        (m.0, uncached c (note_segment f failpoint segment_id b (cached c)) m.0 b m.1))
    resolved none c r =
        weaken (MappedFrom (cached c) frontier segment_id r.ready bound at)
          (MappedFrom s frontier segment_id inv bound at) (StoppedAt (frontier + 46))
          (StoppedAt (frontier + 46)) _
          (reserve_missing-Ended (cached c) frontier segment_id r.ready bound at (sym r.is))
          (λ b t mapped. (mapped.0, uncached c t mapped.0 b mapped.1)) (λ e t stopped. stopped)

    pub reserve_fresh_mapping-Ended :
        GoodEnd (reserve_fresh_mapping f failpoint segment_id committed (suc committed) s)
    unfolding reserve_fresh_mapping
    reserve_fresh_mapping-Ended =
        let go : Option ℕ → Outcome Fault ℕ × Txn Page =
          λ o. reserve_unnoted f failpoint segment_id committed (suc committed) o s in
        elim (Option-cases (get segment_id s.pending_segments)) [
          | inr (b, noted) ↦
              let there : reach (shown s) (path segment_id) ≡ some b =
                (inv.segments segment_id b noted).1 in
              subst GoodEnd (sym (ap go noted)) (
                Ended.returned b s (
                  frontier,
                  record {
                    ready = inv;
                    front = at;
                    grown = omega arith;
                    bounded = omega arith;
                    here = there;
                    was = inr there;
                    others = λ q full ne. refl;
                  },
                ))
          | inl unnoted ↦
              let (found, c, r) =
                resolve_segment-Resolved f before committed start s frontier segment_id inv bound in
              let run : go none
                  ≡ reserve_unless f failpoint segment_id committed (suc committed) found
                      (cached c) =
                run_on (resolve_segment f segment_id committed)
                  (reserve_unless f failpoint segment_id committed (suc committed)) s (cached c)
                  found r.run in
              subst GoodEnd (sym (ap go unnoted ∙ run)) (resolved found c r)
        ]

  -- Several reservations: all of them made, and each path that is none of theirs as it was.
  pub record AllReserved (s s' : Txn Page) (frontier later : ℕ) (requested : List ℕ) : Type 0 where
    pub ready : ReadyTxn s' later
    pub front : s'.pending_frontier ≡ some later
    pub grown : frontier ≤ later
    pub bounded : later ≤ frontier + 46 * length requested
    pub here :
        (q : ℕ)
        → q < 2 ^ 64
        → has_number q requested ≡ true
        → (b : ℕ) × (reach (shown s') (path q) ≡ some b)
    pub kept :
        (q b : ℕ)
        → q < 2 ^ 64
        → reach (shown s) (path q) ≡ some b
        → reach (shown s') (path q) ≡ some b
    pub others :
        (q : ℕ)
        → q < 2 ^ 64
        → has_number q requested ≡ false
        → reach (shown s') (path q) ≡ reach (shown s) (path q)

  module _ (s t u : Txn Page) (frontier middle later r b : ℕ) (requested : List ℕ)
      (one : ReservedTxn s t frontier middle r b) (rest : AllReserved t u middle later requested)
      (word : r < 2 ^ 64) where
    moved :
        (q c : ℕ)
        → q < 2 ^ 64
        → reach (shown s) (path q) ≡ some c
        → reach (shown t) (path q) ≡ some c
    moved q c word' there = elim (ℕ_discrete q r) [
      | yes same ↦
          let there' : reach (shown s) (path r) ≡ some c =
            ap (λ k. reach (shown s) (path k)) (sym same) ∙ there in
          elim one.was [
            | inl none_there ↦ cc
            | inr was ↦ ap (λ k. reach (shown t) (path k)) same ∙ one.here ∙ sym was ∙ there'
          ]
      | no other ↦
          one.others (path q) (length-path q) (λ e. other (path-injective q r word' word e)) ∙ there
    ]

    pub and_more : AllReserved s u frontier later (r ∷ requested)
    unfolding has_number
    and_more =
        let le : frontier ≤ middle = one.grown in
        let le' : middle ≤ frontier + 46 = one.bounded in
        let rest_le : middle ≤ later = rest.grown in
        let rest_le' : later ≤ middle + 46 * length requested = rest.bounded in
        record {
          ready = rest.ready;
          front = rest.front;
          grown = omega arith;
          bounded = omega arith;
          here = λ q word' has. elim (ℕ_discrete q r) [
            | yes same ↦
                (b, rest.kept q b word' (ap (λ k. reach (shown t) (path k)) same ∙ one.here))
            | no other ↦ rest.here q word' (ground arith)
          ];
          kept = λ q c word' there. rest.kept q c word' (moved q c word' there);
          others = λ q word' off.
              let other : q ≢ r = λ e. ground arith in
              rest.others q word' (ground arith)
              ∙ one.others (path q) (length-path q) (λ e. other (path-injective q r word' word e));
        }

  wider :
      (bound bound' : ℕ) (e : Fault) (t : Txn Page)
      → bound ≤ bound'
      → StoppedAt bound e t
      → StoppedAt bound' e t
  wider bound bound' e t le (inl hit, held) = (inl hit, held)
  wider bound bound' e t le (inr (over, past), held) = (inr (over, omega arith), held)

  pub reserve_all-Ended :
      (requested : List ℕ) (s : Txn Page) (frontier bound : ℕ)
      → ReadyTxn s frontier
      → s.pending_frontier ≡ some frontier
      → All (λ q. q < 2 ^ 64) requested
      → frontier + 46 * length requested ≤ bound
      → Ended
          (λ _ t. (later : ℕ) × AllReserved s t frontier later requested)
          (StoppedAt bound)
          (reserve_all f failpoint requested committed (suc committed) s)
  unfolding reserve_all has_number
  reserve_all-Ended [] s frontier bound inv at words le = Ended.returned tt s (
    frontier,
    record {
      ready = inv;
      front = at;
      grown = omega arith;
      bounded = omega arith;
      here = λ q word has. cc;
      kept = λ q b word there. there;
      others = λ q word off. refl;
    },
  )
  reserve_all-Ended (r ∷ requested) s frontier bound inv at (word, words) le =
      let later_len : length (r ∷ requested) ≡ suc (length requested) = refl in
      chain (MappedFrom s frontier r inv word at) (StoppedAt bound)
        (λ _ t. (later : ℕ) × AllReserved s t frontier later (r ∷ requested))
        (reserve_fresh_mapping f failpoint r committed (suc committed))
        (λ base. reserve_all f failpoint requested committed (suc committed)) s
        (weaken (MappedFrom s frontier r inv word at) (MappedFrom s frontier r inv word at)
          (StoppedAt (frontier + 46)) (StoppedAt bound) _
          (reserve_fresh_mapping-Ended s frontier r inv word at) (λ b t mapped. mapped)
          (λ e t stopped. wider (frontier + 46) bound e t (omega arith) stopped))
        (λ b t mapped.
          let (middle, one) = mapped in
          let le' : middle ≤ frontier + 46 = one.bounded in
          weaken (λ _ u. (later : ℕ) × AllReserved t u middle later requested)
            (λ _ u. (later : ℕ) × AllReserved s u frontier later (r ∷ requested)) (StoppedAt bound)
            (StoppedAt bound) _
            (reserve_all-Ended requested t middle bound one.ready one.front words (omega arith))
            (λ _ u rest.
              (rest.0, and_more s t u frontier middle rest.0 r b requested one rest.1 word))
            (λ e u stopped. stopped))
