-- ===== src/Radix/Runs.antt =====
-- What a chain of steps ends in: a value with what holds then, or a fault with what holds then.
use durable_infinite_context.Prelude.{Outcome, ok, err}
use durable_infinite_context.Radix.{Fault}
use durable_infinite_context.Radix.Txn.{Txn, Step, ◌>>=◌}

module _ {Page : Type 0} {A : Type 0} where
  pub data Ended (Good : A → Txn Page → Type 0) (Bad : Fault → Txn Page → Type 0)
      : Outcome Fault A × Txn Page → Type 0 where
    returned : (a : A) (s : Txn Page) → Good a s → Ended Good Bad (ok a, s)
    raised : (e : Fault) (s : Txn Page) → Bad e s → Ended Good Bad (err e, s)

  pub weaken :
      (Good Good' : A → Txn Page → Type 0) (Bad Bad' : Fault → Txn Page → Type 0)
      (o : Outcome Fault A × Txn Page)
      → Ended Good Bad o
      → ((a : A) (s : Txn Page) → Good a s → Good' a s)
      → ((e : Fault) (s : Txn Page) → Bad e s → Bad' e s)
      → Ended Good' Bad' o
  weaken Good Good' Bad Bad' _ (Ended.returned a s g) good bad = Ended.returned a s (good a s g)
  weaken Good Good' Bad Bad' _ (Ended.raised e s b) good bad = Ended.raised e s (bad e s b)

module _ {Page A B : Type 0} (Good : A → Txn Page → Type 0) (Bad : Fault → Txn Page → Type 0)
    (Good' : B → Txn Page → Type 0) where
  on_end :
      (next : A → Step Page B) (o : Outcome Fault A × Txn Page)
      → Ended Good Bad o
      → ((a : A) (s : Txn Page) → Good a s → Ended Good' Bad (next a s))
      → Ended Good' Bad (elim o.0 [ ok a ↦ next a o.1 | err e ↦ (err e, o.1) ])
  on_end next _ (Ended.returned a s g) go = go a s g
  on_end next _ (Ended.raised e s b) go = Ended.raised e s b

  -- A chain ends as its second part does, or raises in its first.
  pub chain :
      (m : Step Page A) (next : A → Step Page B) (s : Txn Page)
      → Ended Good Bad (m s)
      → ((a : A) (s' : Txn Page) → Good a s' → Ended Good' Bad (next a s'))
      → Ended Good' Bad ((m >>= next) s)
  chain m next s run go = on_end next (m s) run go
