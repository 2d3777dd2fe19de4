-- ===== src/Descriptor/Versions.antt =====
-- What a writer of TaggedDescriptorIO changes for readers at the old and at the new epoch.
use durable_infinite_context.Prelude.{err, ok, ℕ, ◌-◌, ◌≤◌, ◌≡◌, ◌⊎◌, Option, some, List}
use durable_infinite_context.Descriptor.{Payload, Result}
use durable_infinite_context.Descriptor.Copies.{File, copy}

abbrev Stored : Type 0
Stored = Option (ℕ × Payload)

-- the copy that a read without identity checks has taken
abbrev Taken : Stored → Stored → ℕ → Payload → ℕ → Type 0
Taken d₀ d₁ committed p slot =
    ((slot ≡ 0) × (e : ℕ) × (d₀ ≡ some (e, p)) × (e ≤ committed))
    ⊎ ((slot ≡ 1) × (e : ℕ) × (d₁ ≡ some (e, p)) × (e ≤ committed))

file_of {ℓ} : {A : Type ℓ} → File → Result (A × File) → File
file_of f (ok r) = r.1
file_of f (err e) = f

module _ (crc32 : List ℕ → ℕ) where
  -- A write to the other slot than the one that the committed copy stands in.
  record Beside (f f' : File) (base new slot : ℕ) (q : Payload) : Type 0 where
    kept : copy crc32 f' base slot ≡ copy crc32 f base slot
    put : copy crc32 f' base (1 - slot) ≡ some (new, q)
