-- ===== src/Residue.antt =====
-- storage/lazy_generation_allocation.py: the file length that a migration to a doubled generation
-- leaves behind the committed frontier, eagerly and by one lazy write.
use Prim.Native.Nat.{bit_and}
use durable_infinite_context.Prelude.{
  Outcome, err, ok, ◌>>=◌, ℕ, ◌+◌, ◌-◌, ◌*◌, ◌/◌, ◌%◌, ◌≤◌, ◌<◌, ◌≡◌, ◌||◌, not, arith, leb, ◌==◌,
  if◌then◌else◌,
}
use durable_infinite_context.Persistence.{page_size, stale_tail_bytes_for_capacity}

pub data Fault : Type 0 where
  bad_capacity bad_bucket_size bucket_out_of_range : Fault

abbrev Checked {ℓ} : Type ℓ → Type ℓ
Checked A = Outcome Fault A

-- `_validate_capacity`
unfoldable pub validate_capacity : ℕ → ℕ → Checked (Unit {0})
validate_capacity old_capacity bucket_size =
    if old_capacity == 0 || not (bit_and old_capacity (old_capacity - 1) == 0)
    then err bad_capacity
    else if bucket_size == 0 || not (old_capacity % bucket_size == 0)
    then err bad_bucket_size
    else ok tt

unfoldable pub new_bucket_pages : ℕ → ℕ → Checked ℕ
unfolding validate_capacity
new_bucket_pages old_capacity bucket_size = do
  _ ← validate_capacity old_capacity bucket_size
  ok (2 * old_capacity / bucket_size)

unfoldable pub eager_generation_residue_bytes : ℕ → ℕ → Checked ℕ
eager_generation_residue_bytes old_capacity bucket_size = do
  buckets ← new_bucket_pages old_capacity bucket_size
  ok (page_size * 2 * (buckets + 1))

unfoldable pub lazy_bucket_residue_bytes : ℕ → ℕ → ℕ → Checked ℕ
lazy_bucket_residue_bytes old_capacity bucket_index bucket_size = do
  buckets ← new_bucket_pages old_capacity bucket_size
  if leb buckets bucket_index
      then err bucket_out_of_range
      else ok (page_size * (2 * bucket_index + 1))

unfoldable pub lazy_stash_residue_bytes : ℕ → ℕ → Checked ℕ
lazy_stash_residue_bytes old_capacity bucket_size = do
  buckets ← new_bucket_pages old_capacity bucket_size
  ok (page_size * (2 * buckets + 1))

-- With four slots to a bucket, the eager residue of a valid capacity is the stale tail that the fault
-- model of recovery starts from.
pub eager-stale_tail :
    (capacity bytes : ℕ)
    → eager_generation_residue_bytes capacity 4 ≡ ok bytes
    → bytes ≡ stale_tail_bytes_for_capacity capacity
unfolding eager_generation_residue_bytes new_bucket_pages stale_tail_bytes_for_capacity
eager-stale_tail capacity bytes run = ground arith

-- For a valid capacity and a bucket of the new generation, the residue of one lazy bucket write is
-- below the stash page's, which is one page below the eager residue; the eager residue exceeds the
-- bucket's by two pages for each bucket from it to the last and one more.
pub lazy_residue_bounds :
    (capacity size bucket buckets bytes stash eager : ℕ)
    → new_bucket_pages capacity size ≡ ok buckets
    → lazy_bucket_residue_bytes capacity bucket size ≡ ok bytes
    → lazy_stash_residue_bytes capacity size ≡ ok stash
    → eager_generation_residue_bytes capacity size ≡ ok eager
    → (page_size ≤ bytes)
      × (bytes + 2 * page_size ≤ stash)
      × (stash + page_size ≡ eager)
      × (bytes + page_size * (2 * (buckets - bucket) + 1) ≡ eager)
      × (bucket < buckets)
unfolding lazy_bucket_residue_bytes lazy_stash_residue_bytes eager_generation_residue_bytes
lazy_residue_bounds capacity size bucket buckets bytes stash eager v lazy at whole = ground arith
