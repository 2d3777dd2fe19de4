-- ===== src/Radix/Initial.antt =====
-- `initialize` of storage/segmented_fixed_page_primary.py and of storage/fixed_width_radix_primary.py: the
-- first disk. The checks of the arguments are left out; the rest of the meta data is the caller's.
use durable_infinite_context.Prelude.{
  ℕ, ◌%◌, ◌≤◌, ◌≡◌, inl, none, some, List, [], ◌∷◌, length, ◌==◌, ◌≢◌, false, if◌then◌else◌, arith,
  refl, sym, ap, subst, ◌∙◌, some_same, Outcome, ok, ◌>>=◌,
}
use native.Mathlib.Decide.{ℕ_discrete}
use durable_infinite_context.Prelude.Dicts.{number_key, get, Unique}
use durable_infinite_context.Radix.{Node, Meta, Fault}
use durable_infinite_context.Radix.Disk.{
  Disk, Format, IsFormat, Same, Fits, node_at, node_at-pwrite, super_at, super_at-pwrite, pread,
  pwrite, ftruncate,
}
use durable_infinite_context.Radix.Commit.{Sound}
use durable_infinite_context.Radix.Copies.{frozen, newest_node}
use durable_infinite_context.Radix.Tree.{
  View, edge, reach, Tree, extent, reach-next, reach-stop, empty_node,
}
use durable_infinite_context.Radix.Txn.{newest, visible, latest, or_raise, read_super}

module _ {Page R : Type 0} (f : Format Page R) where
  -- a file that was created
  abbrev pub empty_file : Disk Page
  empty_file = record { size = 0; pages = λ i. f.zeros }

  -- the pages of the base class: the frontier behind the root, the root in the base class's format
  unfoldable pub initialize_base : Page → R → Outcome Fault (Disk Page)
  initialize_base old_root rest =
      f.encode_super 1 (record { next_physical_page = 4; rest = rest }) >>= λ page.
      ok (pwrite f page 0 (pwrite f old_root 2 (ftruncate f 4 empty_file)))

  -- the superblock with its format changed, the root as a fixed-width node, and its other copy cleared
  unfoldable pub initialize : (R → R) → Page → R → Outcome Fault (Disk Page)
  initialize reformat old_root rest = initialize_base old_root rest >>= λ d.
      read_super f d >>= λ row.
      f.encode_super row.0 (record row.1 { rest = reformat row.1.rest }) >>= λ page.
      f.encode_node row.0 (empty_node 0) >>= λ root.
      ok (pwrite f f.zeros 3 (pwrite f root 2 (pwrite f page row.2 d)))

  module _ (d : Disk Page) (m : Meta R) (root : Node) (super : read_super f d ≡ ok (1, m, 0))
      (front : m.next_physical_page ≡ 4) (held : node_at f d 2 ≡ some (1, root))
      (same : Same (empty_node 0) root) (others : (i : ℕ) → 3 ≤ i → node_at f d i ≡ none) where
    abbrev v : View
    v = frozen f d 1 4

    v_root : v 2 ≡ some root
    unfolding frozen latest newest visible
    v_root =
        ap (λ o. newest_node (newest (visible 1 o) (visible 1 (node_at f d 3)))) held
        ∙ ap (λ o. newest_node (newest (some (1, root)) (visible 1 o))) (others 3 (omega arith))

    -- Nothing is mapped.
    pub nothing_mapped : (e : ℕ) (p : List ℕ) → reach v (e ∷ p) ≡ none
    unfolding reach get
    nothing_mapped e [] = reach-next v e [] 2 refl ∙ ap (edge e) v_root ∙ same.entries e
    nothing_mapped e (e' ∷ p) = reach-stop v e (e' ∷ p) (nothing_mapped e' p)

    only_root : (p : List ℕ) (page : ℕ) → reach v p ≡ some page → (p ≡ []) × (page ≡ 2)
    unfolding reach
    only_root [] page run = (refl, sym (some_same run))
    only_root (e ∷ p) page run = let nothing = nothing_mapped e p in cc

    root_Tree : Tree v 4
    root_Tree = record {
      node = λ p base short run.
          let (is, at) = only_root p base run in
          (root, ap v at ∙ v_root, same.depth ∙ sym (ap length is));
      digit = λ e p page short run. let nothing = nothing_mapped e p in cc;
      even = λ p page short run. let (is, at) = only_root p page run in ap (λ k. k % 2) at;
      inside = λ p page short run.
          let (is, at) = only_root p page run in
          let size : extent p ≡ 2 = ap extent is in (omega arith, omega arith);
      apart = λ p q page page' short short' run run'.
          let (is, at) = only_root p page run in
          let (is', at') = only_root q page' run' in inl (is ∙ sym is');
    }

    root_Sound : Sound f d 1 m 0
    root_Sound = record {
      super = super;
      room = omega (arith, front);
      even = ap (λ k. k % 2) front;
      tail = λ i le. others i (omega (arith, front));
      clean = λ i e n low is. elim (ℕ_discrete i 2) [
        | yes at ↦
            let both : (1, root) ≡ (e, n) = some_same (sym held ∙ ap (node_at f d) (sym at) ∙ is) in
            let eq : 1 ≡ e = ap (λ x. x.0) both in omega arith
        | no ne ↦ let nothing = others i (omega arith) in cc
      ];
      tree = subst (λ k. Tree (frozen f d 1 k) k) (sym front) root_Tree;
    }

module _ {Page R : Type 0} (f : Format Page R) (law : IsFormat f) where
  -- what is left out of a test of pages
  off : {A : Type 0} (i at : ℕ) (a b : A) → i ≢ at → (if i == at then a else b) ≡ b
  off i at a b ne = let test : (i == at) ≡ false = ground arith in ap (λ c. if c then a else b) test

  node_past :
      (page : Page) (at : ℕ) (d : Disk Page) (i : ℕ)
      → i ≢ at
      → node_at f (pwrite f page at d) i ≡ node_at f d i
  node_past page at d i ne =
      node_at-pwrite f page at d i law ∙ off i at (f.decode_node page) (node_at f d i) ne

  super_past :
      (page : Page) (at : ℕ) (d : Disk Page) (i : ℕ)
      → i ≢ at
      → super_at f (pwrite f page at d) i ≡ super_at f d i
  super_past page at d i ne =
      super_at-pwrite f page at d i law ∙ off i at (f.decode_super page) (super_at f d i) ne

  -- A file that was created and extended holds no node and no superblock.
  fresh_node : (i : ℕ) → node_at f (ftruncate f 4 (empty_file f)) i ≡ none
  unfolding pread ftruncate
  fresh_node i = ground (arith, law.missing, law.zeros)

  fresh_super : (i : ℕ) → super_at f (ftruncate f 4 (empty_file f)) i ≡ none
  unfolding pread ftruncate
  fresh_super i = ground (arith, law.missing_super, law.zeros_super)

  empty-Fits : Fits (empty_node 0)
  unfolding get Unique
  empty-Fits = record { depth = omega arith; unique = tt; entries = λ d v there. absurd (cc) }

  module _ (reformat : R → R) (old_root : Page) (rest : R) (page page' : Page)
      (coded : f.encode_super 1 (record { next_physical_page = 4; rest = rest }) ≡ ok page)
      (coded' : f.encode_super 1 (record { next_physical_page = 4; rest = reformat rest })
        ≡ ok page') where
    abbrev first : Disk Page
    first = pwrite f page 0 (pwrite f old_root 2 (ftruncate f 4 (empty_file f)))

    abbrev last : Page → Disk Page
    last root = pwrite f f.zeros 3 (pwrite f root 2 (pwrite f page' 0 first))

    first_0 : super_at f first 0 ≡ some (1, record { next_physical_page = 4; rest = rest })
    first_0 =
        super_at-pwrite f page 0 (pwrite f old_root 2 (ftruncate f 4 (empty_file f))) 0 law
        ∙ law.super 1 (record { next_physical_page = 4; rest = rest }) page coded

    first_1 : super_at f first 1 ≡ none
    first_1 =
        super_past page 0 (pwrite f old_root 2 (ftruncate f 4 (empty_file f))) 1 (λ e. omega arith)
        ∙ super_past old_root 2 (ftruncate f 4 (empty_file f)) 1 (λ e. omega arith)
        ∙ fresh_super 1

    read_first : read_super f first ≡ ok (1, record { next_physical_page = 4; rest = rest }, 0)
    unfolding newest
    read_first =
        ap (λ o. or_raise Fault.no_valid_super (newest o (super_at f first 1))) first_0
        ∙ ap
            (λ o.
              or_raise Fault.no_valid_super
                (newest (some (1, record { next_physical_page = 4; rest = rest })) o))
            first_1

    last_0 :
        (root : Page)
        → super_at f (last root) 0
          ≡ some (1, record { next_physical_page = 4; rest = reformat rest })
    last_0 root =
        super_past f.zeros 3 (pwrite f root 2 (pwrite f page' 0 first)) 0 (λ e. omega arith)
        ∙ super_past root 2 (pwrite f page' 0 first) 0 (λ e. omega arith)
        ∙ super_at-pwrite f page' 0 first 0 law
        ∙ law.super 1 (record { next_physical_page = 4; rest = reformat rest }) page' coded'

    last_1 : (root : Page) → super_at f (last root) 1 ≡ none
    last_1 root =
        super_past f.zeros 3 (pwrite f root 2 (pwrite f page' 0 first)) 1 (λ e. omega arith)
        ∙ super_past root 2 (pwrite f page' 0 first) 1 (λ e. omega arith)
        ∙ super_past page' 0 first 1 (λ e. omega arith)
        ∙ first_1

    read_last :
        (root : Page)
        → read_super f (last root)
          ≡ ok (1, record { next_physical_page = 4; rest = reformat rest }, 0)
    unfolding newest
    read_last root =
        ap (λ o. or_raise Fault.no_valid_super (newest o (super_at f (last root) 1))) (last_0 root)
        ∙ ap
            (λ o.
              or_raise Fault.no_valid_super
                (newest (some (1, record { next_physical_page = 4; rest = reformat rest })) o))
            (last_1 root)

    last_root : (root : Page) → node_at f (last root) 2 ≡ f.decode_node root
    last_root root =
        node_past f.zeros 3 (pwrite f root 2 (pwrite f page' 0 first)) 2 (λ e. omega arith)
        ∙ node_at-pwrite f root 2 (pwrite f page' 0 first) 2 law

    last_others : (root : Page) (i : ℕ) → 3 ≤ i → node_at f (last root) i ≡ none
    last_others root i le = elim (ℕ_discrete i 3) [
      | yes e ↦
          ap (node_at f (last root)) e
          ∙ node_at-pwrite f f.zeros 3 (pwrite f root 2 (pwrite f page' 0 first)) 3 law
          ∙ law.zeros
      | no ne ↦
          node_past f.zeros 3 (pwrite f root 2 (pwrite f page' 0 first)) i ne
          ∙ node_past root 2 (pwrite f page' 0 first) i (λ e. omega arith)
          ∙ node_past page' 0 first i (λ e. omega arith)
          ∙ node_past page 0 (pwrite f old_root 2 (ftruncate f 4 (empty_file f))) i
              (λ e. omega arith)
          ∙ node_past old_root 2 (ftruncate f 4 (empty_file f)) i (λ e. omega arith)
          ∙ fresh_node i
    ]

    -- Initialization returns a store at rest, in which nothing is mapped.
    pub initialize-Sound :
        (d : Disk Page) × (initialize f reformat old_root rest ≡ ok d)
        × Sound f d 1 (record { next_physical_page = 4; rest = reformat rest }) 0
        × ((e : ℕ) (p : List ℕ) → reach (frozen f d 1 4) (e ∷ p) ≡ none)
    unfolding initialize initialize_base
    initialize-Sound =
        let (root, rooted) = law.fits 1 (empty_node 0) (omega arith) empty-Fits in
        let (n, read, same) = law.node 1 (empty_node 0) root rooted in
        (
          last root,
          rw (coded, read_first, coded', rooted) refl,
          root_Sound f (last root) (record { next_physical_page = 4; rest = reformat rest }) n
              (read_last root) refl (last_root root ∙ read) same (last_others root),
          nothing_mapped f (last root) (record { next_physical_page = 4; rest = reformat rest }) n
              (read_last root) refl (last_root root ∙ read) same (last_others root),
        )
