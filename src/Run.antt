-- ===== src/Run.antt =====
-- Results of C code that can go wrong below the level of its return codes: undefined behaviour,
-- a loop that does not end, and `_exit`.
use tdss.Common.{◌≡◌}

pub data Run {ℓ} (A : Type ℓ) : Type ℓ where
  ok : A → Run A
  -- a read or write through a null or dangling pointer, or a `free` of memory not from `malloc`
  fault : Run A
  -- the fuel of a loop ran out
  hang : Run A
  -- `_exit(-1)`
  exited : Run A

infixl 5 ◌>>◌ ◌>>=◌
-- What goes wrong in the first part skips the second.
abbrev pub ◌>>=◌ {ℓ₁ ℓ₂} : {X : Type ℓ₁} {Y : Type ℓ₂} → Run X → (X → Run Y) → Run Y
exited >>= rest = exited
hang >>= rest = hang
fault >>= rest = fault
ok x >>= rest = rest x

abbrev pub ◌>>◌ {ℓ₂} : {Y : Type ℓ₂} → Run (Unit {0}) → Run Y → Run Y
first >> rest = first >>= λ _. rest

-- The run ends normally, in a value with the property `Good`.
abbrev pub Returns {ℓ₁ ℓ₂} : {X : Type ℓ₁} (run : Run X) (Good : X → Type ℓ₂) → Type (ℓ₁ ⊔ ℓ₂)
Returns {X} run Good = (x : X) × (run ≡ ok x) × Good x
