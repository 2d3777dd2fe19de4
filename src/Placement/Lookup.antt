-- ===== src/Placement/Lookup.antt =====
-- BoundedBucketCuckooIndex.lookup: the two candidate buckets, each read up to its first empty slot,
-- then the stash. `pages` is the source's set of the pages that were touched.
use durable_infinite_context.Prelude.{
  ℕ, ◌+◌, String, Bool, true, false, ◌||◌, none, some, List, [], ◌∷◌, ◌==◌, str_eq, if◌then◌else◌,
  length,
}
use durable_infinite_context.Placement.{Hashing, Config, Index, Bucket, bucket_at, bucket_pair}

-- CuckooLookupTrace
pub record LookupTrace : Type 0 where
  pub key : String
  pub found : Bool
  pub bucket_slot_inspections : ℕ
  pub stash_inspections : ℕ
  pub page_probes : ℕ

-- the property `slot_work`
abbrev pub slot_work : LookupTrace → ℕ
slot_work t = t.bucket_slot_inspections + t.stash_inspections

pub data Page : Type 0 where
  bucket_page : ℕ → Page
  stash_page : Page

abbrev same_page : Page → Page → Bool
same_page (bucket_page a) (bucket_page b) = a == b
same_page stash_page stash_page = true
same_page _ _ = false

has_page : Page → List Page → Bool
has_page p [] = false
has_page p (q ∷ ps) = same_page p q || has_page p ps

-- `pages.add(p)`
unfoldable pub add_page : Page → List Page → List Page
unfolding has_page
add_page p ps = if has_page p ps then ps else p ∷ ps

-- one bucket: whether the key was met, and the inspections made by then
unfoldable pub scan_bucket : String → ℕ → Bucket → Bool × ℕ
scan_bucket key n [] = (false, n)
scan_bucket key n (none ∷ b) = (false, n + 1)
scan_bucket key n (some k ∷ b) = if str_eq k key then (true, n + 1) else scan_bucket key (n + 1) b

unfoldable pub scan_stash : String → ℕ → List String → Bool × ℕ
scan_stash key n [] = (false, n)
scan_stash key n (k ∷ stash) = if str_eq k key then (true, n + 1) else scan_stash key (n + 1) stash

module _ (h : Hashing) (c : Config) where
  unfoldable pub lookup : String → Index → LookupTrace
  lookup key x =
      let (first, second) = bucket_pair h c key in
      let (found, n) = scan_bucket key 0 (bucket_at x.buckets first) in
      let (found', n') = scan_bucket key n (bucket_at x.buckets second) in
      let pages = add_page (bucket_page first) [] in
      let pages' = add_page (bucket_page second) pages in
      let pages'' : List Page = elim x.stash [ [] ↦ pages' | _ ∷ _ ↦ add_page stash_page pages' ] in
      let (found'', m) = scan_stash key 0 x.stash in
      let trace : Bool → ℕ → ℕ → List Page → LookupTrace = λ f i j p. record {
        key = key;
        found = f;
        bucket_slot_inspections = i;
        stash_inspections = j;
        page_probes = length p;
      } in
      if found
      then trace true n 0 pages
      else if found'
      then trace true n' 0 pages'
      else trace found'' n' m pages''
