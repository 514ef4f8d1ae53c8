-- ===== src/Base/Outcome.antt =====
-- The outcome of a run of the C++ code. A `fault` is a null dereference, an index out of range that
-- throws, or a division by zero; `no_fuel` means that the bound on a loop or recursion was too low.
use Prim.Native.Nat.{ℕ, zero, suc, ◌<◌}
use mathlib.Core.Path.{◌≡◌, refl}
use mathlib.Core.List.{List, [], ◌∷◌}
use native.Mathlib.Omega.{arith}
use nanobdd.Base.Lists.{length, get_or}

pub data Run {ℓ} (A : Type ℓ) : Type ℓ where
  no_fuel fault : Run A
  ok : A → Run A

-- The run ends normally, in a value that satisfies `Post`.
abbrev pub Returns {ℓ κ} : {Value : Type ℓ} → Run Value → (Value → Type κ) → Type (ℓ ⊔ κ)
Returns {Value} run Post = (v : Value) × (run ≡ ok v) × Post v

-- One call after another; the second runs only if the first returns.
infixl 5 ◌>>=◌
abbrev pub ◌>>=◌ {ℓ κ} : {V : Type ℓ} {W : Type κ} → Run V → (V → Run W) → Run W
no_fuel >>= next = no_fuel
fault >>= next = fault
ok v >>= next = next v

-- `v.at(i)`, which throws out of range
abbrev pub at {ℓ} : {A : Type ℓ} → List A → ℕ → Run A
at [] index = fault
at (a ∷ rest) zero = ok a
at (a ∷ rest) (suc index) = at rest index

pub at-get_or {ℓ} :
    {A : Type ℓ} (v : List A) (index : ℕ) (other : A)
    → index < length v
    → at v index ≡ ok (get_or v index other)
at-get_or (a ∷ rest) zero other inside = refl
at-get_or (a ∷ rest) (suc index) other inside = at-get_or rest index other (omega arith)
at-get_or [] index other inside = absurd (omega arith)

pub Returns_map {ℓ κ} :
    {A : Type ℓ} {P Q : A → Type κ} (r : Run A) → ((a : A) → P a → Q a) → Returns r P → Returns r Q
Returns_map r weaken (a, run, p) = (a, run, weaken a p)
