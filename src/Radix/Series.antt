-- ===== src/Radix/Series.antt =====
-- Batches one after the other, each a call of `materialize_segment_mappings`.
use durable_infinite_context.Prelude.{
  ℕ, suc, ◌+◌, ◌-◌, ◌*◌, ◌^◌, ◌<◌, ◌≤◌, ◌≡◌, inl, inr, Bool, true, false, ◌||◌, none, some, List,
  [], ◌∷◌, String, All, length, arith, refl, sym, ap, subst, ◌∙◌, Bool-cases, ok,
}
use durable_infinite_context.Radix.{Meta}
use durable_infinite_context.Radix.Disk.{Disk, Format, IsFormat}
use durable_infinite_context.Radix.Commit.{Sound, segments_of}
use durable_infinite_context.Radix.Mapping.{has_number, batch_fault, materialize_segment_mappings}
use durable_infinite_context.Radix.Publication.{materialize_segment_mappings-Committed}
use durable_infinite_context.Radix.Txn.{Txn, Step, ◌>>=◌, run_on}

-- how many ids a series of batches requests
unfoldable pub total : List (List ℕ) → ℕ
total [] = 0
total (batch ∷ batches) = length batch + total batches

-- an id that some batch requests
unfoldable pub requested_in : ℕ → List (List ℕ) → Bool
requested_in q [] = false
requested_in q (batch ∷ batches) = has_number q batch || requested_in q batches

module _ {Page R : Type 0} (f : Format Page R) (failpoint : String → Txn Page → Bool) where
  unfoldable pub materialize_all : List (List ℕ) → Step Page Unit
  materialize_all [] s = (ok tt, s)
  materialize_all (batch ∷ batches) s =
      (materialize_segment_mappings f failpoint batch >>= λ trace. materialize_all batches) s

  -- What a series of batches has done: every id that was mapped keeps its pages, and every requested id
  -- is mapped.
  pub record Extended (d : Disk Page) (epoch : ℕ) (m : Meta R) (batches : List (List ℕ))
      (u : Txn Page) : Type 0 where
    pub later : ℕ
    pub grown : m.next_physical_page ≤ later
    pub slot : ℕ
    pub at_rest :
        Sound f u.disk (epoch + length batches) (record m { next_physical_page = later }) slot
    pub kept :
        (q b : ℕ)
        → q < 2 ^ 64
        → segments_of f d epoch m.next_physical_page q ≡ some b
        → segments_of f u.disk (epoch + length batches) later q ≡ some b
    pub mapped :
        (q : ℕ)
        → q < 2 ^ 64
        → requested_in q batches ≡ true
        → (b : ℕ) × (segments_of f u.disk (epoch + length batches) later q ≡ some b)

  module _ (law : IsFormat f)
      (never : (label : String) (t : Txn Page) → failpoint label t ≡ false) where
    pub materialize_all-Extended :
        (batches : List (List ℕ)) (s : Txn Page) (epoch : ℕ) (m : Meta R) (slot : ℕ)
        → Sound f s.disk epoch m slot
        → All (λ batch. batch_fault f failpoint batch ≡ none) batches
        → epoch + length batches < 2 ^ 64
        → m.next_physical_page + 46 * total batches ≤ 2 ^ 64
        → ((e frontier : ℕ)
            → e ≤ epoch + length batches
            → frontier ≤ m.next_physical_page + 46 * total batches
            → (page : Page) × (f.encode_super e (record m { next_physical_page = frontier })
                ≡ ok page))
        → (u : Txn Page) × (materialize_all batches s ≡ (ok tt, u))
          × Extended s.disk epoch m batches u
    unfolding materialize_all total requested_in
    materialize_all-Extended [] s epoch m slot sound fine epochs range supers =
        let same : epoch + 0 ≡ epoch = omega arith in
        (
          s,
          refl,
          record {
            later = m.next_physical_page;
            grown = omega arith;
            slot = slot;
            at_rest = subst (λ e. Sound f s.disk e m slot) (sym same) sound;
            kept = λ q b word there.
                ap (λ e. segments_of f s.disk e m.next_physical_page q) same ∙ there;
            mapped = λ q word no. absurd (cc);
          },
        )
    materialize_all-Extended (batch ∷ batches) s epoch m slot sound (fine, rest_fine) epochs range
          supers =
        let (trace, t, run, c) =
          materialize_segment_mappings-Committed f law s epoch m slot sound (omega arith) failpoint
            batch fine (omega arith) never
            (λ frontier low high. supers (suc epoch) frontier (omega arith) (omega arith)) in
        let later : ℕ = c.later in
        let bounded : later ≤ m.next_physical_page + 46 * length batch = c.bounded in
        let grown : m.next_physical_page ≤ later = c.grown in
        let (u, more, x) =
          materialize_all-Extended batches t (suc epoch) (record m { next_physical_page = later })
            (1 - slot) c.at_rest rest_fine (omega arith) (omega arith)
            (λ e frontier low high. supers e frontier (omega arith) (omega arith)) in
        let same : suc epoch + length batches ≡ epoch + suc (length batches) = omega arith in
        let last : ℕ = x.later in
        (
          u,
          run_on (materialize_segment_mappings f failpoint batch) (λ _. materialize_all batches) s t
                trace run
              ∙ more,
          record {
            later = last;
            grown = let on : later ≤ last = x.grown in omega arith;
            slot = x.slot;
            at_rest =
                subst (λ e. Sound f u.disk e (record m { next_physical_page = last }) x.slot) same
                  x.at_rest;
            kept = λ q b word there.
                ap (λ e. segments_of f u.disk e last q) (sym same)
                ∙ x.kept q b word (c.kept q b word there);
            mapped = λ q word has. elim (Bool-cases (has_number q batch)) [
              | inl here ↦
                  let (b, at) = c.mapped q word here in
                  (b, ap (λ e. segments_of f u.disk e last q) (sym same) ∙ x.kept q b word at)
              | inr not_here ↦
                  let (b, at) =
                    x.mapped q word (sym (ap (λ c. c || requested_in q batches) not_here) ∙ has) in
                  (b, ap (λ e. segments_of f u.disk e last q) (sym same) ∙ at)
            ];
          },
        )
