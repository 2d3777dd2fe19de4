-- ===== src/Radix/Safety.antt =====
-- What holds of the disk between any two steps of a transaction, also where a fault ends it.
use durable_infinite_context.Prelude.{
  ℕ, suc, ◌+◌, ◌%◌, ◌<◌, ◌≤◌, ◌≡◌, false, Option, none, some, ◌==◌, if◌then◌else◌, arith, refl, sym,
  ap, subst, ◌∙◌, some_same, ok,
}
use native.Mathlib.Decide.{ℕ_discrete}
use durable_infinite_context.Prelude.Dicts.{
  number_key, pair_key, Dict, get, put, get-put_same, get-put_other, Unique,
}
use durable_infinite_context.Radix.{Node}
use durable_infinite_context.Radix.Disk.{
  Disk, Format, IsFormat, super_at, pwrite, ftruncate, super_at-pwrite, super_at-ftruncate, node_at,
}
use durable_infinite_context.Radix.Copies.{
  Copies, Target, Copies-write, Copies-beside, Copies-extend,
}

module _ {Page R : Type 0} (f : Format Page R) (before : Disk Page) (committed start : ℕ) where
  -- of the disk, the pending nodes and their slots
  pub record Safe (d : Disk Page) (nodes : Dict ℕ Node) (slots : Dict ℕ ℕ) (frontier : ℕ)
      : Type 0 where
    pub from : start ≤ frontier
    pub copies :
        (b : ℕ)
        → b % 2 ≡ 0
        → 2 ≤ b
        → Copies f before committed start d frontier b (get b nodes) (get b slots)
    pub unique : (b : ℕ) (n : Node) → get b nodes ≡ some n → Unique n.entries
    pub super : super_at f d 0 ≡ super_at f before 0
    pub super' : super_at f d 1 ≡ super_at f before 1

module _ {Page R : Type 0} (f : Format Page R) (law : IsFormat f) (before : Disk Page)
    (committed start : ℕ) (room : 4 ≤ start)
    (tail : (i : ℕ) → start ≤ i → node_at f before i ≡ none) where
  -- The file is longer.
  pub Safe-extend :
      (d : Disk Page) (nodes : Dict ℕ Node) (slots : Dict ℕ ℕ) (frontier later : ℕ)
      → frontier ≤ later
      → Safe f before committed start d nodes slots frontier
      → Safe f before committed start (ftruncate f later d) nodes slots later
  Safe-extend d nodes slots frontier later le safe =
      let from : start ≤ frontier = safe.from in
      record {
        from = omega arith;
        copies = λ b halves low.
            Copies-extend f before committed start law d frontier later b (get b nodes)
              (get b slots) le from tail (safe.copies b halves low);
        unique = safe.unique;
        super = super_at-ftruncate f later d 0 law (omega arith) ∙ safe.super;
        super' = super_at-ftruncate f later d 1 law (omega arith) ∙ safe.super';
      }

  copies_as :
      (d : Disk Page) (frontier b : ℕ) (x x' : Option Node) (y y' : Option ℕ)
      → x' ≡ x
      → y' ≡ y
      → Copies f before committed start d frontier b x y
      → Copies f before committed start d frontier b x' y'
  copies_as d frontier b x x' y y' p q c =
      subst (λ o. Copies f before committed start d frontier b o y') (sym p)
        (subst (Copies f before committed start d frontier b x) (sym q) c)

  super_kept :
      (page : Page) (at : ℕ) (d : Disk Page) (i : ℕ)
      → i < 2
      → 2 ≤ at
      → super_at f (pwrite f page at d) i ≡ super_at f d i
  super_kept page at d i lt le =
      let test : (i == at) ≡ false = ground arith in
      super_at-pwrite f page at d i law
      ∙ ap (λ b. if b then f.decode_super page else super_at f d i) test

  -- A node written in a slot that its readers do not read.
  pub Safe-write :
      (d : Disk Page) (nodes : Dict ℕ Node) (slots : Dict ℕ ℕ) (frontier base slot : ℕ) (n : Node)
      (page : Page)
      → Safe f before committed start d nodes slots frontier
      → f.encode_node (suc committed) n ≡ ok page
      → Unique n.entries
      → base % 2 ≡ 0
      → 2 ≤ base
      → base + 2 ≤ frontier
      → slot ≤ 1
      → Target f before committed start base slot (get base slots)
      → Safe f before committed start
          (pwrite f page (base + slot) d)
          (put base n nodes)
          (put base slot slots)
          frontier
  Safe-write d nodes slots frontier base slot n page safe coded unique halves low below bit target =
      record {
        from = safe.from;
        copies = λ b halves' low'. elim (ℕ_discrete b base) [
          | yes same ↦
              subst
                (λ k.
                  Copies f before committed start (pwrite f page (base + slot) d) frontier k
                    (get k (put base n nodes)) (get k (put base slot slots)))
                (sym same)
                (copies_as (pwrite f page (base + slot) d) frontier base (some n)
                  (get base (put base n nodes)) (some slot) (get base (put base slot slots))
                  (get-put_same base n nodes) (get-put_same base slot slots)
                  (Copies-write f before committed start law d frontier base (get base nodes) n page
                    slot (get base slots) coded below bit target (safe.copies base halves low)))
          | no other ↦
              copies_as (pwrite f page (base + slot) d) frontier b (get b nodes)
                (get b (put base n nodes)) (get b slots) (get b (put base slot slots))
                (get-put_other b base n nodes other) (get-put_other b base slot slots other)
                (Copies-beside f before committed start law d frontier base slot page b
                  (get b nodes) (get b slots) bit halves halves' other (safe.copies b halves' low'))
        ];
        unique = λ b m has. elim (ℕ_discrete b base) [
          | yes same ↦
              let m_is : n ≡ m = some_same (
                sym (get-put_same base n nodes)
                ∙ ap (λ k. get k (put base n nodes)) (sym same)
                ∙ has) in
              subst (λ x. Unique x.entries) m_is unique
          | no other ↦ safe.unique b m (sym (get-put_other b base n nodes other) ∙ has)
        ];
        super = super_kept page (base + slot) d 0 (omega arith) (omega arith) ∙ safe.super;
        super' = super_kept page (base + slot) d 1 (omega arith) (omega arith) ∙ safe.super';
      }

  -- A fresh node has no slot, or the first one.
  pub fresh-Target :
      (d : Disk Page) (frontier base : ℕ) (pending : Option Node) (old : Option ℕ)
      → start ≤ base
      → Copies f before committed start d frontier base pending old
      → Target f before committed start base 0 old
  fresh-Target d frontier base _ _ past (Copies.kept k) =
      Target.alternate 0 (λ le. absurd (omega arith)) (λ _. refl)
  fresh-Target d frontier base _ _ past (Copies.rewritten n slot w) =
      let zero_slot : slot ≡ 0 = w.fresh past in
      subst (λ k. Target f before committed start base 0 (some k)) (sym zero_slot) (Target.again 0)

  -- The slots of a node with a slot, rewritten in it, are the ones it had.
  pub Safe-slots :
      (d : Disk Page) (nodes : Dict ℕ Node) (slots slots' : Dict ℕ ℕ) (frontier : ℕ)
      → ((b : ℕ) → get b slots' ≡ get b slots)
      → Safe f before committed start d nodes slots frontier
      → Safe f before committed start d nodes slots' frontier
  Safe-slots d nodes slots slots' frontier same safe = record {
    from = safe.from;
    copies = λ b halves low.
        copies_as d frontier b (get b nodes) (get b nodes) (get b slots) (get b slots') refl
          (same b) (safe.copies b halves low);
    unique = safe.unique;
    super = safe.super;
    super' = safe.super';
  }
