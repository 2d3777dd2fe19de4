-- ===== src/Probing/Chains.antt =====
-- Well-formed probing tables: no empty slot stands between the home of a key and the key.
use native.Mathlib.Nat.{mod-lt, mod-eq_of_lt, add-mod_right, one-le-pow}
use native.Mathlib.Decide.{ℕ_discrete}
use durable_infinite_context.Prelude.{
  ℕ, ◌+◌, ◌-◌, ◌%◌, ◌^◌, ◌<◌, ◌≡◌, ◌≢◌, inl, inr, refl, sym, ap, ◌∙◌, String, false, Option, none,
  some, str_eq, eq_iff, length, get_or, set, length-set, length-replicate, get_or-replicate,
  get_or-set_self, get_or-set_ne, arith, leb, leb→le, Bool-cases,
}
use durable_infinite_context.Prelude.Bits.{bit_and-low_ones}
use durable_infinite_context.Prelude.Slots.{
  copies, filled, slot_of, filled-set, filled_all, filled-replicate,
}
use durable_infinite_context.Probing.{Table, new_table, position, write_slot}

pub record IsShaped (t : Table) : Type 0 where
  pub bits : ℕ
  pub sized : t.capacity ≡ 2 ^ bits
  pub width : length t.slots ≡ t.capacity

pub IsShaped-positive : (t : Table) → IsShaped t → 0 < t.capacity
IsShaped-positive t v = rw v.sized (one-le-pow v.bits 2 (omega arith))

module _ (hash : String → ℕ) where
  position_mod :
      (t : Table) (key : String) (j : ℕ)
      → IsShaped t
      → position hash t.capacity key j ≡ (hash key % t.capacity + j) % t.capacity
  position_mod t key j v =
      rw
        (
          v.sized,
          bit_and-low_ones v.bits (hash key),
          bit_and-low_ones v.bits (hash key % 2 ^ v.bits + j),
        )
        refl

  pub position_lt :
      (t : Table) (key : String) (j : ℕ) → IsShaped t → position hash t.capacity key j < t.capacity
  position_lt t key j v =
      rw (position_mod t key j v) (mod-lt (hash key % t.capacity + j) (IsShaped-positive t v))

  -- every position is on the probe sequence of every key
  pub position_onto :
      (t : Table) (key : String) (p : ℕ)
      → IsShaped t
      → p < t.capacity
      → (j : ℕ) × (j < t.capacity) × (position hash t.capacity key j ≡ p)
  position_onto t key p v lt =
      let home = hash key % t.capacity in
      let home_lt = mod-lt (hash key) (IsShaped-positive t v) in
      elim (Bool-cases (leb home p)) [
        | inl ahead ↦
            let e : home + (p - home) ≡ p = omega (arith, leb→le home p ahead) in
            (
              p - home,
              omega arith,
              position_mod t key (p - home) v ∙ ap (λ n. n % t.capacity) e ∙ mod-eq_of_lt lt,
            )
        | inr behind ↦
            let e : home + (p + t.capacity - home) ≡ p + t.capacity = ground arith in
            (
              p + t.capacity - home,
              ground arith,
              position_mod t key (p + t.capacity - home) v
                  ∙ ap (λ n. n % t.capacity) e
                  ∙ add-mod_right p t.capacity
                  ∙ mod-eq_of_lt lt,
            )
      ]

  -- the slot at an offset of the probe sequence of a key
  abbrev pub slot_at : Table → String → ℕ → Option String
  slot_at t key j = get_or t.slots (position hash t.capacity key j) none

  pub record IsProbed (t : Table) : Type 0 where
    pub shape : IsShaped t
    pub count : t.size ≡ filled t.slots
    pub reached :
        (p : ℕ) (k : String)
        → get_or t.slots p none ≡ some k
        → (j : ℕ) × (j < t.capacity)
          × (position hash t.capacity k j ≡ p)
          × ((i : ℕ) → i < j → slot_at t k i ≢ none)

  -- slots that hold other keys, up to an offset
  abbrev pub Others : Table → String → ℕ → Type 0
  Others t key m =
      (i : ℕ) → i < m → (k : String) × (slot_at t key i ≡ some k) × (str_eq k key ≡ false)

  -- A search that has met other keys only, and then an empty slot or the end, is over.
  pub absent :
      (t : Table) (key : String) (m : ℕ)
      → IsProbed t
      → Others t key m
      → (m < t.capacity → slot_at t key m ≡ none)
      → copies key t.slots ≡ 0
  absent t key m v others stop = elim (Bool-cases (leb (copies key t.slots) 0)) [
    | inl zero_copies ↦ omega (arith, leb→le (copies key t.slots) 0 zero_copies)
    | inr held ↦
        let (p, there) = slot_of key t.slots (ground arith) in
        let (j, lt, at, chain) = v.reached p key there in
        let here : slot_at t key j ≡ some key = ap (λ q. get_or t.slots q none) at ∙ there in
        elim (Bool-cases (leb m j)) [
          | inr before ↦
              let (k, e, other) = others j (ground arith) in absurd (ground (arith, eq_iff key key))
          | inl behind ↦
              let vacant = stop (omega (arith, leb→le m j behind)) in
              elim (ℕ_discrete m j) [
                | yes same ↦ absurd (cc)
                | no differ ↦ absurd (chain m (omega (arith, leb→le m j behind)) vacant)
              ]
        ]
  ]

  -- a key written at the first empty slot of its probe sequence
  pub write_slot-IsProbed :
      (t : Table) (key : String) (m : ℕ)
      → IsProbed t
      → ((i : ℕ) → i < m → slot_at t key i ≢ none)
      → m < t.capacity
      → slot_at t key m ≡ none
      → IsProbed (write_slot t (position hash t.capacity key m) key)
  write_slot-IsProbed t key m v before lt vacant =
      let p = position hash t.capacity key m in
      let p_lt : p < length t.slots = rw v.shape.width (position_lt t key m v.shape) in
      let after = set t.slots p (some key) in
      let kept : (q : ℕ) → get_or t.slots q none ≢ none → get_or after q none ≢ none =
        λ q full gone. elim (ℕ_discrete p q) [
          | yes e ↦ absurd (full (ap (λ r. get_or t.slots r none) (sym e) ∙ vacant))
          | no other ↦ full (sym (get_or-set_ne t.slots p q (some key) none other) ∙ gone)
        ] in
      record {
        shape = record {
          bits = v.shape.bits;
          sized = v.shape.sized;
          width = length-set t.slots p (some key) ∙ v.shape.width;
        };
        count = omega (arith, v.count, filled-set key t.slots p p_lt vacant);
        reached = λ q k there. elim (ℕ_discrete p q) [
          | yes e ↦
              let mine : some key ≡ some k =
                sym (get_or-set_self t.slots p (some key) none p_lt)
                ∙ ap (λ r. get_or after r none) e
                ∙ there in
              let same : key ≡ k = ground arith in
              (
                m,
                lt,
                ap (λ r. position hash t.capacity r m) (sym same) ∙ e,
                (λ i less. kept _ (λ gone. before i less (ap (λ r. slot_at t r i) same ∙ gone))),
              )
          | no other ↦
              let (j, j_lt, at, chain) =
                v.reached q k (sym (get_or-set_ne t.slots p q (some key) none other) ∙ there) in
              (j, j_lt, at, (λ i less. kept _ (chain i less)))
        ];
      }

  -- Where every slot on the way is taken, the table is full.
  pub full-size :
      (t : Table) (key : String)
      → IsProbed t
      → ((i : ℕ) → i < t.capacity → slot_at t key i ≢ none)
      → t.size ≡ t.capacity
  full-size t key v taken =
      let all = filled_all t.slots (λ p lt.
        let (j, j_lt, at) = position_onto t key p v.shape (omega (arith, v.shape.width)) in
        λ gone. taken j j_lt (ap (λ r. get_or t.slots r none) at ∙ gone)) in
      omega (arith, v.count, v.shape.width)

  pub new_table-IsProbed : (bits pages : ℕ) → IsProbed (new_table (2 ^ bits) pages)
  unfolding new_table
  new_table-IsProbed bits pages = record {
    shape = record { bits = bits; sized = refl; width = length-replicate (2 ^ bits) none };
    count = omega (arith, filled-replicate (2 ^ bits));
    reached = λ p k there.
        let blank : get_or (new_table (2 ^ bits) pages).slots p none ≡ none =
          get_or-replicate (2 ^ bits) p none in
        absurd (cc);
  }
