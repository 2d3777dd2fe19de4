-- ===== src/Store/Queries.antt =====
-- The queries of a MemoryStore, against a scan of its records.
use durable_infinite_context.Prelude.{
  All, ◌≡◌, refl, sym, ◌∙◌, inl, inr, String, Bool, true, false, ◌||◌, Option, none, some, List, [],
  ◌∷◌, str_eq, eq_iff, arith, Bool-cases, ltb,
}
use durable_infinite_context.Prelude.Ids.{has, has-sort_texts}
use durable_infinite_context.Prelude.Dicts.{text_key, triple_key, Dict, get}
use durable_infinite_context.Prelude.Buckets.{set_at}
use durable_infinite_context.Models.{Assertion, Key}
use durable_infinite_context.Reconciliation.{ids}
use durable_infinite_context.Store.{
  MemoryStore, earlier, fetch, insert_assertion, sort_assertions, assertions_for_key, keys_of,
  subjects_for_evidence,
}
use durable_infinite_context.Store.Invariant.{cited, with_key, IsIndexed}

abbrev is_there : {A : Type 0} → Option A → Bool
is_there none = false
is_there (some a) = true

has-keys_of : {A : Type 0} (q : String) (d : Dict String A) → has q (keys_of d) ≡ is_there (get q d)
unfolding keys_of has get
has-keys_of q [] = refl
has-keys_of q ((k, v) ∷ d) = ground (arith, has-keys_of q d)

module _ {V : Type 0} where
  -- A subject is listed for an evidence id exactly if an assertion of the subject cites it.
  pub subjects_for_evidence-cited :
      (e q : String) (s : MemoryStore V)
      → IsIndexed s
      → has q (subjects_for_evidence e s) ≡ ltb 0 (cited e q s.assertions)
  subjects_for_evidence-cited e q s v = ground (
    arith,
    has-sort_texts q (keys_of (set_at e s.evidence_subject_refcounts)),
    has-keys_of q (set_at e s.evidence_subject_refcounts),
    v.counts e q,
  )

  abbrev pub Stored : Dict String (Assertion V) → Assertion V → Type 0
  Stored d a = get a.id d ≡ some a

  fetched :
      (d : Dict String (Assertion V)) (qs : List String)
      → ((q : String) (a : Assertion V) → get q d ≡ some a → a.id ≡ q)
      → ((q : String) → has q qs ≡ true → (a : Assertion V) × (get q d ≡ some a))
      → (l : List (Assertion V)) × (fetch d qs ≡ some l)
        × ((q : String) → has q (ids l) ≡ has q qs)
        × All (Stored d) l
  unfolding fetch has
  fetched d [] named there = ([], refl, (λ q. refl), tt)
  fetched d (q ∷ qs) named there =
      let (a, at) = there q (ground (arith, eq_iff q q)) in
      let (l, run, same, all) = fetched d qs named (λ p h. there p (ground arith)) in
      let e = named q a at in
      (a ∷ l, ground (arith, at, run), (λ p. ground (arith, e, same p)), (rw (← e) at at, all))

  stored_with :
      (k : Key) (o : Option (Assertion V)) → with_key k o ≡ true → (a : Assertion V) × (o ≡ some a)
  stored_with k none h = cc
  stored_with k (some a) h = (a, refl)

  has-insert_assertion :
      (q : String) (a : Assertion V) (l : List (Assertion V))
      → has q (ids (insert_assertion a l)) ≡ (str_eq q a.id || has q (ids l))
  unfolding insert_assertion has
  has-insert_assertion q a [] = refl
  has-insert_assertion q a (b ∷ l) = ground (arith, has-insert_assertion q a l)

  has-sort_assertions :
      (q : String) (l : List (Assertion V)) → has q (ids (sort_assertions l)) ≡ has q (ids l)
  unfolding sort_assertions has
  has-sort_assertions q [] = refl
  has-sort_assertions q (a ∷ l) =
      ground (arith, has-insert_assertion q a (sort_assertions l), has-sort_assertions q l)

  All-insert_assertion :
      (P : Assertion V → Type 0) (a : Assertion V) (l : List (Assertion V))
      → P a
      → All P l
      → All P (insert_assertion a l)
  unfolding insert_assertion
  All-insert_assertion P a [] h all = (h, tt)
  All-insert_assertion P a (b ∷ l) h all = elim (Bool-cases (earlier a b)) [
    | inl e ↦ rw e (h, all)
    | inr e ↦ rw e (all.0, All-insert_assertion P a l h all.1)
  ]

  All-sort_assertions :
      (P : Assertion V → Type 0) (l : List (Assertion V)) → All P l → All P (sort_assertions l)
  unfolding sort_assertions
  All-sort_assertions P [] all = tt
  All-sort_assertions P (a ∷ l) all =
      All-insert_assertion P a (sort_assertions l) all.0 (All-sort_assertions P l all.1)

  -- In a store whose indexes are in step, the lookup by key never meets a missing id: it returns
  -- stored assertions, and an id is among them exactly if the assertion stored under it has the key.
  pub assertions_for_key_exact :
      (k : Key) (s : MemoryStore V)
      → IsIndexed s
      → (l : List (Assertion V)) × (assertions_for_key k s ≡ some l)
        × All (Stored s.assertions) l
        × ((q : String) → has q (ids l) ≡ with_key k (get q s.assertions))
  unfolding assertions_for_key
  assertions_for_key_exact k s v =
      let there = λ (q : String) (h : has q (set_at k s.assertions_by_key) ≡ true).
        stored_with k (get q s.assertions) (sym (v.by_key k q) ∙ h) in
      let (l, run, same, all) = fetched s.assertions (set_at k s.assertions_by_key) v.named there in
      (
        sort_assertions l,
        ground (arith, run),
        All-sort_assertions (Stored s.assertions) l all,
        (λ q. has-sort_assertions q l ∙ same q ∙ v.by_key k q),
      )
