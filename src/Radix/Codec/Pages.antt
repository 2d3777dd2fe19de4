-- ===== src/Radix/Codec/Pages.antt =====
-- How the pieces of a record are read back from a page.
use mathlib.Core.List.{append_assoc}
use durable_infinite_context.Prelude.{
  ℕ, ◌^◌, ◌<◌, ◌≡◌, refl, ap, ◌∙◌, true, List, [], ◌∷◌, ◌++◌, arith, ◌==◌, length, length-append,
}
use durable_infinite_context.Prelude.Bytes.{
  to_be, of_be, take, drop, length-to_be, of_be-to_be, take-append, drop-append,
}
use durable_infinite_context.Prelude.Bits.{bit_and-low_ones}
use durable_infinite_context.Descriptor.{checksum, same_bytes}
use durable_infinite_context.Radix.Codec.{sealed}

pub same_bytes_refl : (xs : List ℕ) → same_bytes xs xs ≡ true
same_bytes_refl [] = refl
same_bytes_refl (x ∷ xs) = ground (arith, same_bytes_refl xs)

pub ==-refl : (a : ℕ) → (a == a) ≡ true
==-refl a = ground arith

-- A piece is read where it stands.
pub piece :
    (before part after page : List ℕ) (n j : ℕ)
    → page ≡ before ++ (part ++ after)
    → length before ≡ j
    → length part ≡ n
    → take n (drop j page) ≡ part
piece before part after page n j is at width =
    ap (λ l. take n (drop j l)) is
    ∙ ap (take n) (drop-append before (part ++ after) j at)
    ∙ take-append part after n width

pub number :
    (before after page : List ℕ) (n j v : ℕ)
    → page ≡ before ++ (to_be n v ++ after)
    → length before ≡ j
    → v < 256 ^ n
    → of_be 0 (take n (drop j page)) ≡ v
number before after page n j v is at small =
    ap (of_be 0) (piece before (to_be n v) after page n j is at (length-to_be n v))
    ∙ of_be-to_be n v small

module _ (crc32 : List ℕ → ℕ) where
  pub checksum_bound : (xs : List ℕ) → checksum crc32 xs < 256 ^ 4
  checksum_bound xs = rw (bit_and-low_ones 32 (crc32 xs)) (omega arith)

pub length-sealed :
    (magic : List ℕ) (epoch : ℕ) → length magic ≡ 8 → length (sealed magic epoch) ≡ 16
length-sealed magic epoch eight =
    omega (arith, length-append magic (to_be 8 epoch), length-to_be 8 epoch)

-- The magic and the epoch stand in front.
pub reads_magic :
    (magic rest page : List ℕ) (epoch : ℕ)
    → page ≡ sealed magic epoch ++ rest
    → length magic ≡ 8
    → take 8 page ≡ magic
reads_magic magic rest page epoch is eight =
    ap (take 8) (is ∙ append_assoc magic (to_be 8 epoch) rest)
    ∙ take-append magic (to_be 8 epoch ++ rest) 8 eight

pub reads_epoch :
    (magic rest page : List ℕ) (epoch : ℕ)
    → page ≡ sealed magic epoch ++ rest
    → length magic ≡ 8
    → epoch < 2 ^ 64
    → of_be 0 (take 8 (drop 8 page)) ≡ epoch
reads_epoch magic rest page epoch is eight word =
    number magic rest page 8 8 epoch (is ∙ append_assoc magic (to_be 8 epoch) rest) eight
      (omega arith)
