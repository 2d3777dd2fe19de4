-- ===== src/Radix/Codec/Arrays.antt =====
-- The bitmap and the pointer array of a node: what the decoder's loop reads from what the encoder's loop
-- has written.
use durable_infinite_context.Prelude.{
  ℕ, zero, suc, ◌+◌, ◌*◌, ◌/◌, ◌^◌, ◌<◌, ◌≤◌, ◌≡◌, inl, inr, Bool, false, ◌&&◌, none, some, List,
  [], ◌∷◌, ◌++◌, ltb, leb, ◌==◌, if◌then◌else◌, arith, refl, sym, ap, ◌∙◌, length, length-append,
  Bool-cases,
}
use native.Mathlib.Decide.{ℕ_discrete}
use durable_infinite_context.Prelude.Bytes.{
  to_be, of_be, take, drop, length-to_be, of_be-to_be, take-append, drop-append,
}
use durable_infinite_context.Prelude.ByteBits.{has_bit, set_bit, has_bit-set_bit, AreBytes}
use durable_infinite_context.Prelude.Dicts.{number_key, get, Unique}
use durable_infinite_context.Radix.Codec.{write_at, pointer_at, read_entries, node_pointer_bytes}

split_8 :
    (xs : List ℕ) (n : ℕ)
    → 8 + n ≤ length xs
    → (a : List ℕ) × (b : List ℕ) × (xs ≡ a ++ b) × (length a ≡ 8) × (n ≤ length b)
split_8 (a ∷ b ∷ c ∷ d ∷ e ∷ f ∷ g ∷ h ∷ xs) n le =
    (a ∷ b ∷ c ∷ d ∷ e ∷ f ∷ g ∷ h ∷ [], xs, refl, refl, omega arith)
split_8 _ n le = absurd (omega arith)

pub drop_past : (xs ys : List ℕ) (j n : ℕ) → j ≡ length xs + n → drop j (xs ++ ys) ≡ drop n ys
drop_past [] ys j n e = let e' : j ≡ n = omega arith in rw e' refl
drop_past (x ∷ xs) ys zero n e = absurd (omega arith)
drop_past (x ∷ xs) ys (suc j) n e = drop_past xs ys j n (omega arith)

write_past :
    (xs ys w : List ℕ) (j n : ℕ)
    → j ≡ length xs + n
    → write_at j w (xs ++ ys) ≡ xs ++ write_at n w ys
unfolding write_at
write_past [] ys w j n e = let e' : j ≡ n = omega arith in rw e' refl
write_past (x ∷ xs) ys w zero n e = absurd (omega arith)
write_past (x ∷ xs) ys w (suc j) n e = ap (λ l. x ∷ l) (write_past xs ys w j n (omega arith))

-- one block of eight bytes
abbrev block : ℕ → List ℕ → List ℕ
block d buffer = take 8 (drop (8 * d) buffer)

block-write_at :
    (d k : ℕ) (w buffer : List ℕ)
    → length w ≡ 8
    → 8 * k + 8 ≤ length buffer
    → 8 * d + 8 ≤ length buffer
    → block d (write_at (8 * k) w buffer) ≡ (if d == k then w else block d buffer)
unfolding write_at
block-write_at zero zero w buffer eight room room' = take-append w (drop (length w) buffer) 8 eight
block-write_at (suc d) zero w buffer eight room room' =
    let (a, b, is, size, rest) = split_8 buffer (8 * d) (omega arith) in
    let test : (suc d == 0) ≡ false = ground arith in
    ap (λ l. block (suc d) (w ++ drop (length w) l)) is
    ∙ ap (take 8) (drop_past w (drop (length w) (a ++ b)) (8 * suc d) (8 * d) (omega arith))
    ∙ ap (λ l. take 8 (drop (8 * d) l)) (drop-append a b (length w) (omega arith))
    ∙ sym (ap (block (suc d)) is ∙ ap (take 8) (drop_past a b (8 * suc d) (8 * d) (omega arith)))
    ∙ sym (ap (λ c. if c then w else block (suc d) buffer) test)
block-write_at zero (suc k) w buffer eight room room' =
    let (a, b, is, size, rest) = split_8 buffer (8 * k) (omega arith) in
    let test : (0 == suc k) ≡ false = ground arith in
    ap (λ l. block zero (write_at (8 * suc k) w l)) is
    ∙ ap (take 8) (write_past a b w (8 * suc k) (8 * k) (omega arith))
    ∙ take-append a (write_at (8 * k) w b) 8 size
    ∙ sym (ap (take 8) is ∙ take-append a b 8 size)
    ∙ sym (ap (λ c. if c then w else block 0 buffer) test)
block-write_at (suc d) (suc k) w buffer eight room room' =
    let (a, b, is, size, rest) = split_8 buffer (8 * k) (omega arith) in
    let whole : length buffer ≡ 8 + length b = ap length is ∙ omega (arith, length-append a b) in
    let test : (suc d == suc k) ≡ (d == k) = ground arith in
    ap (λ l. block (suc d) (write_at (8 * suc k) w l)) is
    ∙ ap (block (suc d)) (write_past a b w (8 * suc k) (8 * k) (omega arith))
    ∙ ap (take 8) (drop_past a (write_at (8 * k) w b) (8 * suc d) (8 * d) (omega arith))
    ∙ block-write_at d k w b eight (omega arith) (omega arith)
    ∙ ap (λ l. if d == k then w else l)
        (sym
          (ap (block (suc d)) is ∙ ap (take 8) (drop_past a b (8 * suc d) (8 * d) (omega arith))))
    ∙ sym (ap (λ c. if c then w else block (suc d) buffer) test)

length-drop : (n : ℕ) (xs : List ℕ) → n ≤ length xs → n + length (drop n xs) ≡ length xs
length-drop zero xs le = omega arith
length-drop (suc n) [] le = absurd (omega arith)
length-drop (suc n) (x ∷ xs) le = omega (arith, length-drop n xs (omega arith))

pub length-write_at :
    (at : ℕ) (w buffer : List ℕ)
    → at + length w ≤ length buffer
    → length (write_at at w buffer) ≡ length buffer
unfolding write_at
length-write_at zero w buffer le =
    omega
      (arith, length-append w (drop (length w) buffer), length-drop (length w) buffer (omega arith))
length-write_at (suc at) w [] le = refl
length-write_at (suc at) w (b ∷ buffer) le = ap suc (length-write_at at w buffer (omega arith))

pub pointer_at-write_at :
    (d k v : ℕ) (pointers : List ℕ)
    → v < 2 ^ 64
    → length pointers ≡ node_pointer_bytes
    → k < 256
    → d < 256
    → pointer_at d (write_at (8 * k) (to_be 8 v) pointers)
      ≡ (if d == k then v else pointer_at d pointers)
unfolding pointer_at
pointer_at-write_at d k v pointers word width lt lt' =
    let eight = length-to_be 8 v in
    ap (of_be 0) (block-write_at d k (to_be 8 v) pointers eight (omega arith) (omega arith))
    ∙ elim (Bool-cases (d == k)) [
      | inl t ↦
          ap (λ c. of_be 0 (if c then to_be 8 v else block d pointers)) t
          ∙ of_be-to_be 8 v (omega arith)
          ∙ sym (ap (λ c. if c then v else of_be 0 (block d pointers)) t)
      | inr t ↦
          ap (λ c. of_be 0 (if c then to_be 8 v else block d pointers)) t
          ∙ sym (ap (λ c. if c then v else of_be 0 (block d pointers)) t)
    ]

-- how many of so many digits from one on are in a bitmap
unfoldable pub tally : ℕ → ℕ → List ℕ → ℕ
tally zero digit bitmap = 0
tally (suc n) digit bitmap =
    let rest = tally n (suc digit) bitmap in if has_bit digit bitmap then suc rest else rest

pub length-read_entries :
    (n d : ℕ) (bitmap pointers : List ℕ)
    → length (read_entries n d bitmap pointers) ≡ tally n d bitmap
unfolding read_entries tally
length-read_entries zero d bitmap pointers = refl
length-read_entries (suc n) d bitmap pointers =
    ground (arith, length-read_entries n (suc d) bitmap pointers)

pub tally_bound : (n d : ℕ) (bitmap : List ℕ) → tally n d bitmap ≤ n
unfolding tally
tally_bound zero d bitmap = omega arith
tally_bound (suc n) d bitmap = ground (arith, tally_bound n (suc d) bitmap)

abbrev pub within : ℕ → ℕ → ℕ → Bool
within n d k = leb d k && ltb k (d + n)

pub tally-set_bit :
    (n d k : ℕ) (bitmap : List ℕ)
    → AreBytes bitmap
    → k / 8 < length bitmap
    → has_bit k bitmap ≡ false
    → tally n d (set_bit k bitmap)
      ≡ (if within n d k then suc (tally n d bitmap) else tally n d bitmap)
unfolding tally
tally-set_bit zero d k bitmap bytes lt new = ground arith
tally-set_bit (suc n) d k bitmap bytes lt new = elim (ℕ_discrete d k) [
  | yes e ↦
      let new' : has_bit d bitmap ≡ false = ap (λ i. has_bit i bitmap) e ∙ new in
      ground
        (arith, has_bit-set_bit d k bitmap bytes lt, tally-set_bit n (suc d) k bitmap bytes lt new)
  | no ne ↦
      ground
        (arith, has_bit-set_bit d k bitmap bytes lt, tally-set_bit n (suc d) k bitmap bytes lt new)
]

-- The entry of a digit is its pointer, if its bit is set.
pub get-read_entries :
    (n d q : ℕ) (bitmap pointers : List ℕ)
    → get q (read_entries n d bitmap pointers)
      ≡ (if within n d q && has_bit q bitmap then some (pointer_at q pointers) else none)
unfolding get read_entries
get-read_entries zero d q bitmap pointers = ground arith
get-read_entries (suc n) d q bitmap pointers = elim (ℕ_discrete q d) [
  | yes e ↦ rw e (ground (arith, get-read_entries n (suc d) d bitmap pointers))
  | no ne ↦ ground (arith, get-read_entries n (suc d) q bitmap pointers)
]

pub read_entries-Unique :
    (n d : ℕ) (bitmap pointers : List ℕ) → Unique (read_entries n d bitmap pointers)
unfolding get Unique read_entries
read_entries-Unique zero d bitmap pointers = tt
read_entries-Unique (suc n) d bitmap pointers =
    let below : get d (read_entries n (suc d) bitmap pointers) ≡ none =
      ground (arith, get-read_entries n (suc d) d bitmap pointers) in
    elim (Bool-cases (has_bit d bitmap)) [
      | inl t ↦ rw t (below, read_entries-Unique n (suc d) bitmap pointers)
      | inr t ↦ rw t (read_entries-Unique n (suc d) bitmap pointers)
    ]
