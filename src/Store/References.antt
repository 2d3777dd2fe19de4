-- ===== src/Store/References.antt =====
-- The reference counts of the evidence, against a table of how often a subject cites an evidence id.
use durable_infinite_context.Prelude.{
  ℕ, ◌+◌, ◌-◌, ◌≡◌, ap, ◌∙◌, inl, inr, String, ◌&&◌, Option, none, some, List, [], ◌∷◌, leb, ◌==◌,
  str_eq, eq_iff, if◌then◌else◌, arith, Option-cases, List-cases,
}
use durable_infinite_context.Prelude.Dicts.{text_key, Dict, get, put, get-put, get-pop}
use durable_infinite_context.Prelude.Buckets.{set_at, set_at-put}
use durable_infinite_context.Store.{count_at, add_ref, one_less, drop_ref, add_refs, drop_refs}

-- what a dictionary of counts holds for a number
abbrev pub counted : ℕ → Option ℕ
counted n = if n == 0 then none else some n

-- how often the id occurs
unfoldable pub occurrences : String → List String → ℕ
occurrences e [] = 0
occurrences e (x ∷ xs) = (if str_eq e x then 1 else 0) + occurrences e xs

get-add_ref :
    (e s e' s' : String) (d : Dict String (Dict String ℕ))
    → get s' (set_at e' (add_ref e s d)) ≡ (
        if str_eq e' e && str_eq s' s
        then some (count_at s (set_at e d) + 1)
        else get s' (set_at e' d))
unfolding add_ref
get-add_ref e s e' s' d =
    let counts = set_at e d in
    ground (
      arith,
      set_at-put e' e (put s (count_at s counts + 1) counts) d,
      get-put s' s (count_at s counts + 1) counts,
      eq_iff e' e,
    )

get-one_less :
    (s s' : String) (counts : Dict String ℕ)
    → get s' (one_less s counts) ≡ (
        if str_eq s' s
        then (if leb (count_at s counts) 1 then none else some (count_at s counts - 1))
        else get s' counts)
unfolding one_less
get-one_less s s' counts =
    ground (arith, get-pop s' s counts, get-put s' s (count_at s counts - 1) counts)

get-drop_ref :
    (e s e' s' : String) (d : Dict String (Dict String ℕ))
    → get s' (set_at e' (drop_ref e s d)) ≡ (
        if str_eq e' e && str_eq s' s
        then (if leb (count_at s (set_at e d)) 1 then none else some (count_at s (set_at e d) - 1))
        else get s' (set_at e' d))
unfolding drop_ref set_at count_at get
get-drop_ref e s e' s' d = elim (Option-cases (get e d)) [
  | inl nothing ↦ ground (arith, nothing, eq_iff e' e)
  | inr (counts, at) ↦
      let less = get-one_less s s' counts in
      elim (List-cases (one_less s counts)) [
        | inl empty ↦ ground (arith, at, empty, less, get-pop e' e d, eq_iff e' e)
        | inr (c, cs, left) ↦ ground (arith, at, left, less, get-put e' e (c ∷ cs) d, eq_iff e' e)
      ]
]

-- the table that the counts follow
abbrev pub Follows : Dict String (Dict String ℕ) → (String → String → ℕ) → Type 0
Follows d table = (e s : String) → get s (set_at e d) ≡ counted (table e s)

pub add_refs-Follows :
    (es : List String) (subject : String) (d : Dict String (Dict String ℕ))
    (table : String → String → ℕ)
    → Follows d table
    → Follows
        (add_refs es subject d)
        (λ e s. table e s + (if str_eq s subject then occurrences e es else 0))
unfolding add_refs occurrences count_at
add_refs-Follows [] subject d table f e s = ground (arith, f e s)
add_refs-Follows (x ∷ es) subject d table f e s =
    let table' = λ (e s : String). table e s + (if str_eq s subject && str_eq e x then 1 else 0) in
    let one : Follows (add_ref x subject d) table' = λ e s.
      ground
        (arith, get-add_ref x subject e s d, f e s, f x subject, eq_iff e x, eq_iff s subject) in
    add_refs-Follows es subject (add_ref x subject d) table' one e s ∙ ap counted (ground arith)

pub drop_refs-Follows :
    (es : List String) (subject : String) (d : Dict String (Dict String ℕ))
    (table : String → String → ℕ)
    → Follows d table
    → Follows
        (drop_refs es subject d)
        (λ e s. table e s - (if str_eq s subject then occurrences e es else 0))
unfolding drop_refs occurrences count_at
drop_refs-Follows [] subject d table f e s = ground (arith, f e s)
drop_refs-Follows (x ∷ es) subject d table f e s =
    let table' = λ (e s : String). table e s - (if str_eq s subject && str_eq e x then 1 else 0) in
    let one : Follows (drop_ref x subject d) table' = λ e s.
      ground
        (arith, get-drop_ref x subject e s d, f e s, f x subject, eq_iff e x, eq_iff s subject) in
    drop_refs-Follows es subject (drop_ref x subject d) table' one e s ∙ ap counted (ground arith)
