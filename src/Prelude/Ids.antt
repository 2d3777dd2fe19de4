-- ===== src/Prelude/Ids.antt =====
-- Lists of ids read as sets: membership, `add`, and Python's sorted order of texts.
use Prim.Native.Nat.{Ordering}
use Prim.Native.String.{String, compare as compare_text}
use mathlib.Core.Path.{◌≡◌, refl}
use mathlib.Core.Bool.{Bool, true, false, ◌||◌, ◌&&◌, not}
use mathlib.Core.List.{List, [], ◌∷◌, ◌++◌}
use native.Mathlib.Omega.{arith}
use text.Mathlib.Text.{◌==◌ as str_eq}
use text.Mathlib.TextEquality.{eq_iff}
use durable_infinite_context.Prelude.Tests.{if◌then◌else◌}

unfoldable pub has : String → List String → Bool
has k [] = false
has k (j ∷ l) = str_eq k j || has k l

-- `s.add(k)`
unfoldable pub add_id : String → List String → List String
add_id k l = if has k l then l else k ∷ l

-- `a | b`
unfoldable pub union : List String → List String → List String
union a [] = a
union a (k ∷ b) = add_id k (union a b)

abbrev pub text_le : String → String → Bool
text_le s t = elim (compare_text s t) [ Ordering.gt ↦ false | _ ↦ true ]

unfoldable pub insert_text : String → List String → List String
insert_text k [] = k ∷ []
insert_text k (j ∷ l) = if text_le k j then k ∷ j ∷ l else j ∷ insert_text k l

-- `sorted` of texts
unfoldable pub sort_texts : List String → List String
sort_texts [] = []
sort_texts (k ∷ l) = insert_text k (sort_texts l)

pub has-append : (q : String) (a b : List String) → has q (a ++ b) ≡ (has q a || has q b)
unfolding has
has-append q [] b = refl
has-append q (k ∷ a) b = ground (arith, has-append q a b)

pub has-add_id : (q k : String) (l : List String) → has q (add_id k l) ≡ (str_eq q k || has q l)
unfolding has add_id
has-add_id q k l = ground (arith, eq_iff q k)

pub has-union : (q : String) (a b : List String) → has q (union a b) ≡ (has q a || has q b)
unfolding has union
has-union q a [] = ground arith
has-union q a (k ∷ b) = ground (arith, has-add_id q k (union a b), has-union q a b)

has-insert_text :
    (q k : String) (l : List String) → has q (insert_text k l) ≡ (str_eq q k || has q l)
unfolding has insert_text
has-insert_text q k [] = refl
has-insert_text q k (j ∷ l) = ground (arith, has-insert_text q k l)

pub has-sort_texts : (q : String) (l : List String) → has q (sort_texts l) ≡ has q l
unfolding has sort_texts
has-sort_texts q [] = refl
has-sort_texts q (k ∷ l) = ground (arith, has-insert_text q k (sort_texts l), has-sort_texts q l)

-- `s.discard(k)`
unfoldable pub discard : String → List String → List String
discard k [] = []
discard k (j ∷ l) = let rest = discard k l in if str_eq k j then rest else j ∷ rest

-- `a - b`
unfoldable pub difference : List String → List String → List String
difference [] b = []
difference (k ∷ a) b = let rest = difference a b in if has k b then rest else k ∷ rest

pub has-discard :
    (q k : String) (l : List String) → has q (discard k l) ≡ (has q l && not (str_eq q k))
unfolding has discard
has-discard q k [] = refl
has-discard q k (j ∷ l) = ground (arith, has-discard q k l, eq_iff q j, eq_iff q k, eq_iff k j)

pub has-difference :
    (q : String) (a b : List String) → has q (difference a b) ≡ (has q a && not (has q b))
unfolding has difference
has-difference q [] b = refl
has-difference q (k ∷ a) b = ground (arith, has-difference q a b, eq_iff q k)

-- `tuple(dict.fromkeys(ids))`, behind the ids that are there already
unfoldable pub from_keys : List String → List String → List String
from_keys l [] = l
from_keys l (k ∷ ks) = from_keys (if has k l then l else l ++ k ∷ []) ks

pub has-from_keys :
    (q : String) (l ks : List String) → has q (from_keys l ks) ≡ (has q l || has q ks)
unfolding from_keys has
has-from_keys q l [] = ground arith
has-from_keys q l (k ∷ ks) = ground (
  arith,
  has-from_keys q (if has k l then l else l ++ k ∷ []) ks,
  has-append q l (k ∷ []),
  eq_iff q k,
)
