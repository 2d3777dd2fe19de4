-- ===== src/Placement.antt =====
-- storage/bounded_placement.py: BoundedBucketCuckooIndex, its constructor, `insert` and `lookup`.
-- blake2b and the decimal text of an int are Python's: they are the fields of `Hashing`. Buckets
-- and stash are lists; a bucket index is masked by the code, so no read is out of range.
pub mod Insert
pub mod Lookup
pub mod Kicks
pub mod Slots
pub mod Invariant
pub mod Relocation
pub mod Totality
pub mod Membership
pub mod Construction
pub mod Rollback
use Prim.Native.Nat.{bit_and}
use durable_infinite_context.Prelude.Bits.{no_power}
use durable_infinite_context.Prelude.{
  Outcome, err, ok, ◌>>=◌, ℕ, ◌+◌, ◌-◌, ◌*◌, ◌/◌, ◌%◌, String, Bool, ◌||◌, not, Option, none, some,
  List, [], ◌∷◌, leb, ◌==◌, if◌then◌else◌, get_or, set, replicate,
}

-- `blake2b key data` is the 8-byte digest read big-endian; `text_key` is the text f"{key}|{kick}".
pub record Hashing : Type 0 where
  pub blake2b : String → String → ℕ
  pub text_key : String → ℕ → String

pub record Config : Type 0 where
  pub capacity_slots : ℕ
  pub bucket_size : ℕ
  pub bucket_count : ℕ
  pub max_kicks : ℕ
  pub stash_capacity : ℕ
  pub hash_key_1 : String
  pub hash_key_2 : String
  pub choice_key : String
  pub victim_key : String
  pub bucket_pair_override : Option (String → ℕ × ℕ)

abbrev pub Bucket : Type 0
Bucket = List (Option String)

pub record Index : Type 0 where
  pub buckets : List Bucket
  pub stash : List String
  pub size : ℕ

pub data Error : Type 0 where
  bad_capacity bad_bucket_size bad_bucket_count bad_max_kicks : Error
  full_bucket_with_empty_slot evicted_from_foreign_bucket : Error

abbrev pub Result {ℓ} : Type ℓ → Type ℓ
Result A = Outcome Error A

-- CuckooInsertTrace
pub record InsertTrace : Type 0 where
  pub key : String
  pub success : Bool
  pub stashed : Bool
  pub bucket_slot_inspections : ℕ
  pub relocations : ℕ
  pub stash_write : ℕ
  pub rollback_writes : ℕ
  pub mutation_slot_work : ℕ

-- The parameters of `__init__`, checked in its order; the bucket count is computed.
unfoldable pub new :
    (capacity_slots bucket_size max_kicks stash_capacity : ℕ)
    → (hash_key_1 hash_key_2 choice_key victim_key : String) → Option (String → ℕ × ℕ)
    → Result (Config × Index)
new capacity bucket_size max_kicks stash_capacity k1 k2 choice victim pair =
    let bucket_count = capacity / bucket_size in
    if no_power capacity
    then err bad_capacity
    else if bucket_size == 0 || not (capacity % bucket_size == 0)
    then err bad_bucket_size
    else if leb bucket_count 1 || not (bit_and bucket_count (bucket_count - 1) == 0)
    then err bad_bucket_count
    else if max_kicks == 0
    then err bad_max_kicks
    else ok (
      record {
        capacity_slots = capacity;
        bucket_size = bucket_size;
        bucket_count = bucket_count;
        max_kicks = max_kicks;
        stash_capacity = stash_capacity;
        hash_key_1 = k1;
        hash_key_2 = k2;
        choice_key = choice;
        victim_key = victim;
        bucket_pair_override = pair;
      },
      record {
        buckets = replicate bucket_count (replicate bucket_size none);
        stash = [];
        size = 0;
      },
    )

abbrev pub bucket_at : List Bucket → ℕ → Bucket
bucket_at buckets b = get_or buckets b []

-- `self._buckets[bucket][slot] = value`
abbrev pub set_slot : List Bucket → ℕ → ℕ → Option String → List Bucket
set_slot buckets b i v = set buckets b (set (bucket_at buckets b) i v)

-- The loop of `_first_empty`, from `index` with the inspections made so far.
unfoldable pub first_empty : ℕ → ℕ → Bucket → Option ℕ × ℕ
first_empty index inspections [] = (none, inspections)
first_empty index inspections (none ∷ b) = (some index, inspections + 1)
first_empty index inspections (some _ ∷ b) = first_empty (index + 1) (inspections + 1) b

-- `theoretical_max_mutation_slot_work`
unfoldable pub max_slot_work : Config → ℕ
max_slot_work c = 2 * c.bucket_size + c.max_kicks * c.bucket_size + c.max_kicks + c.max_kicks

module _ (h : Hashing) (c : Config) where
  unfoldable pub bucket_pair : String → ℕ × ℕ
  bucket_pair key =
      let mask = c.bucket_count - 1 in
      let (a, b) : ℕ × ℕ = elim c.bucket_pair_override [
        | some pair ↦ pair key
        | none ↦ (h.blake2b c.hash_key_1 key, h.blake2b c.hash_key_2 key)
      ] in
      let first = bit_and a mask in
      let second = bit_and b mask in
      (first, if second == first then bit_and (second + 1) mask else second)

  unfoldable pub victim_slot : String → ℕ → ℕ
  victim_slot key kick = h.blake2b c.victim_key (h.text_key key kick) % c.bucket_size
