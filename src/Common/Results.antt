-- ===== src/Common/Results.antt =====
-- Go's (value, error) pairs, with the error type of the package that returns them.
use mathlib.Core.Path.{◌≡◌, refl}
use mathlib.Core.Logic.{◌⊎◌, inl, inr}
use mathlib.Core.Option.{Option, none, some}
use mathlib.Core.List.{List}
use Prim.Native.Nat.{ℕ}

pub data Result {ℓ} (E A : Type ℓ) : Type ℓ where
  ok : A → Result E A
  err : E → Result E A

infixl 5 ◌>>=◌ ◌>>◌
abbrev pub ◌>>=◌ {ℓ} : {E A B : Type ℓ} → Result E A → (A → Result E B) → Result E B
ok a >>= f = f a
err e >>= f = err e

abbrev pub ◌>>◌ {ℓ} : {E A B : Type ℓ} → Result E A → Result E B → Result E B
m >> k = m >>= λ _. k

-- The value of an Option, or the error that its absence stands for.
abbrev pub or_fail {ℓ} : {E A : Type ℓ} → E → Option A → Result E A
or_fail e none = err e
or_fail e (some a) = ok a

pub Result-cases {ℓ} :
    {E A : Type ℓ} (r : Result E A) → ((a : A) × (r ≡ ok a)) ⊎ ((e : E) × (r ≡ err e))
Result-cases (ok a) = inl (a, refl)
Result-cases (err e) = inr (e, refl)

-- A serialisation that the program takes from a library: `unmarshal` reads back what `marshal` wrote.
pub record Codec {ℓ} (A : Type ℓ) : Type ℓ where
  pub marshal : A → Option (List ℕ)
  pub unmarshal : List ℕ → Option A
  pub unmarshal-marshal :
      (a : A) (bytes : List ℕ) → marshal a ≡ some bytes → unmarshal bytes ≡ some a
