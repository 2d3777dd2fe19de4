-- ===== src/Placement/Insert.antt =====
-- BoundedBucketCuckooIndex.insert: the two candidate buckets, the relocation loop with its log, the
-- stash, and the rollback. A raised error comes back beside the state that it leaves behind.
use mathlib.Core.List.{reverse}
use durable_infinite_context.Prelude.{
  err, ok, ℕ, zero, suc, ◌+◌, String, true, false, none, some, List, [], ◌∷◌, ◌++◌, ltb, ◌==◌,
  if◌then◌else◌, length, get_or,
}
use durable_infinite_context.Placement.{
  Hashing, Config, Index, Error, full_bucket_with_empty_slot, evicted_from_foreign_bucket, Result,
  InsertTrace, Bucket, bucket_at, set_slot, first_empty, bucket_pair, victim_slot,
}
use Prim.Native.Nat.{bit_and}

-- (bucket, slot, the key that stood there)
abbrev pub Log : Type 0
Log = List (ℕ × ℕ × String)

-- The variables of the relocation loop.
pub record Loop : Type 0 where
  pub buckets : List Bucket
  pub current : String
  pub target : ℕ
  pub inspections : ℕ
  pub relocations : ℕ
  pub log : Log

-- One round: the current key found a place, a victim was moved out, or an assertion failed.
pub data Round : Type 0 where
  placed evicted : Loop → Round
  broken : Error → Loop → Round

-- `for bucket, slot, previous in log: self._buckets[bucket][slot] = previous`
unfoldable pub undo : Log → List Bucket → List Bucket
undo [] buckets = buckets
undo ((b, i, previous) ∷ log) buckets = undo log (set_slot buckets b i (some previous))

module _ (h : Hashing) (c : Config) where
  -- the move of `current` into the victim's place, and the victim's other bucket
  unfoldable pub evict : ℕ → Loop → String → Round
  evict slot s victim =
      let s' : Loop = record s {
        buckets = set_slot s.buckets s.target slot (some s.current);
        current = victim;
        relocations = s.relocations + 1;
        log = s.log ++ (s.target, slot, victim) ∷ [];
      } in
      let (first, second) = bucket_pair h c victim in
      if first == s.target
      then evicted (record s' { target = second })
      else if second == s.target
      then evicted (record s' { target = first })
      else broken evicted_from_foreign_bucket s'

  -- the body of `for kick in range(self.max_kicks)`
  unfoldable pub kick_round : ℕ → Loop → Round
  kick_round kick s =
      let (empty, scanned) = first_empty 0 0 (bucket_at s.buckets s.target) in
      let s' : Loop = record s { inspections = s.inspections + scanned } in
      let slot = victim_slot h c s.current kick in
      elim empty [
        | some e ↦ placed (record s' { buckets = set_slot s.buckets s.target e (some s.current) })
        | none ↦ elim (get_or (bucket_at s.buckets s.target) slot none) [
          | none ↦ broken full_bucket_with_empty_slot s'
          | some victim ↦ evict slot s' victim
        ]
      ]

  -- `evicted` at the end means that every round moved a victim.
  unfoldable pub kicks : ℕ → ℕ → Loop → Round
  kicks zero kick s = evicted s
  kicks (suc n) kick s = elim (kick_round kick s) [
    | placed s' ↦ placed s'
    | broken e s' ↦ broken e s'
    | evicted s' ↦ kicks n (kick + 1) s'
  ]

  -- what follows the loop: the stash, or the rollback
  unfoldable pub finish : String → Index → Round → Result InsertTrace × Index
  finish key x (broken e s) = (err e, record x { buckets = s.buckets })
  finish key x (placed s) = (
    ok (record {
      key = key;
      success = true;
      stashed = false;
      bucket_slot_inspections = s.inspections;
      relocations = s.relocations;
      stash_write = 0;
      rollback_writes = 0;
      mutation_slot_work = s.inspections + s.relocations;
    }),
    record x { buckets = s.buckets; size = x.size + 1 },
  )
  finish key x (evicted s) =
      if ltb (length x.stash) c.stash_capacity
      then (
        ok (record {
          key = key;
          success = true;
          stashed = true;
          bucket_slot_inspections = s.inspections;
          relocations = s.relocations;
          stash_write = 1;
          rollback_writes = 0;
          mutation_slot_work = s.inspections + s.relocations + 1;
        }),
        record { buckets = s.buckets; stash = x.stash ++ s.current ∷ []; size = x.size + 1 },
      )
      else (
        ok (record {
          key = key;
          success = false;
          stashed = false;
          bucket_slot_inspections = s.inspections;
          relocations = s.relocations;
          stash_write = 0;
          rollback_writes = length s.log;
          mutation_slot_work = s.inspections + s.relocations + length s.log;
        }),
        record x { buckets = undo (reverse s.log) s.buckets },
      )

  -- an empty slot of a candidate bucket takes the key at once
  unfoldable pub direct : String → Index → ℕ → ℕ → ℕ → Result InsertTrace × Index
  direct key x bucket slot inspections = (
    ok (record {
      key = key;
      success = true;
      stashed = false;
      bucket_slot_inspections = inspections;
      relocations = 0;
      stash_write = 0;
      rollback_writes = 0;
      mutation_slot_work = inspections;
    }),
    record x { buckets = set_slot x.buckets bucket slot (some key); size = x.size + 1 },
  )

  abbrev pub start : String → Index → ℕ → Loop
  start key x inspections =
      let (first, second) = bucket_pair h c key in
      record {
        buckets = x.buckets;
        current = key;
        target = if bit_and (h.blake2b c.choice_key key) 1 == 0 then first else second;
        inspections = inspections;
        relocations = 0;
        log = [];
      }

  unfoldable pub insert : String → Index → Result InsertTrace × Index
  insert key x =
      let (first, second) = bucket_pair h c key in
      let (empty, scanned) = first_empty 0 0 (bucket_at x.buckets first) in
      let (empty', scanned') = first_empty 0 0 (bucket_at x.buckets second) in
      elim empty [
        | some e ↦ direct key x first e scanned
        | none ↦ elim empty' [
          | some e ↦ direct key x second e (scanned + scanned')
          | none ↦ finish key x (kicks c.max_kicks 0 (start key x (scanned + scanned')))
        ]
      ]
