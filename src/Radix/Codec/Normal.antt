-- ===== src/Radix/Codec/Normal.antt =====
-- `_normalize_entries`: what it returns, and when it does.
use native.Mathlib.Decide.{ℕ_discrete}
use durable_infinite_context.Prelude.{
  ℕ, ◌-◌, ◌^◌, ◌<◌, ◌≡◌, Bool, true, false, not, Option, none, some, [], ◌∷◌, ltb, ◌==◌,
  if◌then◌else◌, arith, refl, sym, ap, subst, ◌∙◌, Outcome, ok, err,
}
use durable_infinite_context.Prelude.Dicts.{number_key, Dict, get, put, get-put, Unique, put-Unique}
use durable_infinite_context.Radix.{Fault}
use durable_infinite_context.Radix.Codec.{is_there, normalize_from}
use durable_infinite_context.Radix.Codec.Filling.{AreEntries}
use durable_infinite_context.Radix.Codec.Pages.{==-refl}

pub past_guard :
    {A : Type 0} (c : Bool) (e : Fault) (o : Outcome Fault A) (a : A)
    → (if c then err e else o) ≡ ok a
    → (c ≡ false) × (o ≡ ok a)
past_guard true e o a h = cc
past_guard false e o a h = (refl, h)

unfoldable pub either : Option ℕ → Option ℕ → Option ℕ
either none o = o
either (some v) o = some v

pub record IsNormal (done entries out : Dict ℕ ℕ) : Type 0 where
  pub unique : Unique done → Unique out
  pub are : AreEntries done → AreEntries out
  pub gets : (q : ℕ) → get q out ≡ either (get q done) (get q entries)

either-put :
    (q key value : ℕ) (done entries : Dict ℕ ℕ)
    → get key done ≡ none
    → either (get q (put key value done)) (get q entries)
      ≡ either (get q done) (get q ((key, value) ∷ entries))
unfolding either get
either-put q key value done entries new = elim (ℕ_discrete q key) [
  | yes e ↦
      let test : (q == key) ≡ true = ground arith in
      let off : get q done ≡ none = ap (λ i. get i done) e ∙ new in
      ap (λ o. either o (get q entries))
        (get-put q key value done ∙ ap (λ c. if c then some value else get q done) test)
      ∙ sym (
          ap (λ o. either o (if q == key then some value else get q entries)) off
          ∙ ap (λ c. if c then some value else get q entries) test)
  | no ne ↦
      let test : (q == key) ≡ false = ground arith in
      ap (λ o. either o (get q entries))
        (get-put q key value done ∙ ap (λ c. if c then some value else get q done) test)
      ∙ sym (ap (λ c. either (get q done) (if c then some value else get q entries)) test)
]

put-AreEntries :
    (key value : ℕ) (done : Dict ℕ ℕ)
    → key < 256
    → value < 2 ^ 64
    → AreEntries done
    → AreEntries (put key value done)
put-AreEntries key value done digit word are q w there = elim (ℕ_discrete q key) [
  | yes e ↦
      let test : (q == key) ≡ true = ground arith in
      let same : some value ≡ some w =
        sym (get-put q key value done ∙ ap (λ c. if c then some value else get q done) test)
        ∙ there in
      let is : value ≡ w = ap (λ o. elim o [ none ↦ 0 | some x ↦ x ]) same in
      (omega arith, omega arith)
  | no ne ↦
      let test : (q == key) ≡ false = ground arith in
      are q w (
        sym (get-put q key value done ∙ ap (λ c. if c then some value else get q done) test)
        ∙ there)
]

off_of : (o : Option ℕ) → is_there o ≡ false → o ≡ none
off_of none h = refl
off_of (some v) h = cc

either-none : (o : Option ℕ) → o ≡ either o none
unfolding either
either-none none = refl
either-none (some v) = refl

pub normalize-IsNormal :
    (entries done out : Dict ℕ ℕ) → normalize_from done entries ≡ ok out → IsNormal done entries out
unfolding normalize_from get
normalize-IsNormal [] done out run =
    let same : done ≡ out = ap (λ o. elim o [ ok x ↦ x | err e ↦ done ]) run in
    subst (IsNormal done []) same
      (record { unique = λ u. u; are = λ a. a; gets = λ q. either-none (get q done) })
normalize-IsNormal ((key, value) ∷ entries) done out run =
    let bad : Fault = Fault.bad_node in
    let run0 : Outcome Fault (Dict ℕ ℕ) = normalize_from (put key value done) entries in
    let twice : Bool = is_there (get key done) in
    let (digit, run1) =
      past_guard (not (ltb key 256)) bad
        (if ltb (2 ^ 64 - 1) value then err bad else if twice then err bad else run0) out run in
    let (word, run2) =
      past_guard (ltb (2 ^ 64 - 1) value) bad (if twice then err bad else run0) out run1 in
    let (new, run3) = past_guard twice bad run0 out run2 in
    let off : get key done ≡ none = off_of (get key done) new in
    let rest = normalize-IsNormal entries (put key value done) out run3 in
    record {
      unique = λ u. rest.unique (put-Unique key value done u);
      are = λ a. rest.are (put-AreEntries key value done (ground arith) (ground arith) a);
      gets = λ q. rest.gets q ∙ either-put q key value done entries off;
    }

pub normalize_returns :
    (entries done : Dict ℕ ℕ)
    → Unique entries
    → AreEntries entries
    → ((q v : ℕ) → get q entries ≡ some v → get q done ≡ none)
    → (out : Dict ℕ ℕ) × (normalize_from done entries ≡ ok out)
unfolding normalize_from get Unique
normalize_returns [] done unique are apart = (done, refl)
normalize_returns ((key, value) ∷ entries) done (new, unique) are apart =
    let here : (key == key) ≡ true = ==-refl key in
    let first : get key ((key, value) ∷ entries) ≡ some value =
      ap (λ c. if c then some value else get key entries) here in
    let (digit, word) = are key value first in
    let off : get key done ≡ none = apart key value first in
    let later : (q w : ℕ) → get q entries ≡ some w → (q == key) ≡ false = λ q w there.
      elim (ℕ_discrete q key) [
        | yes e ↦ absurd (let gone : get q entries ≡ none = ap (λ i. get i entries) e ∙ new in cc)
        | no ne ↦ ground arith
      ] in
    let (out, run) =
      normalize_returns entries (put key value done) unique
        (λ q w there.
          are q w (ap (λ c. if c then some value else get q entries) (later q w there) ∙ there))
        (λ q w there.
          get-put q key value done
          ∙ ap (λ c. if c then some value else get q done) (later q w there)
          ∙ apart q w
              (ap (λ c. if c then some value else get q entries) (later q w there) ∙ there)) in
    let t1 : ltb key 256 ≡ true = ground arith in
    let t2 : ltb (2 ^ 64 - 1) value ≡ false = ground arith in (out, rw (t1, t2, off) run)
