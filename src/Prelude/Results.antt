-- ===== src/Prelude/Results.antt =====
-- A function of the source that returns a value and an error.
use mathlib.Core.Path.{◌≡◌, refl}
use mathlib.Core.Logic.{◌⊎◌, inl, inr}
use native.Mathlib.Omega.{arith}

pub data Result {ℓ κ} (E : Type ℓ) (A : Type κ) : Type (ℓ ⊔ κ) where
  ok : A → Result E A
  err : E → Result E A

module _ {ℓ κ ν} {E : Type ℓ} {A : Type κ} {B : Type ν} where
  infixl 10 ◌>>=◌
  abbrev pub ◌>>=◌ : Result E A → (A → Result E B) → Result E B
  err e >>= next = err e
  ok a >>= next = next a

  -- Inversion of a chain that succeeds, and of one that fails.
  pub >>=-eq-err :
      (first : Result E A) (next : A → Result E B) {e : E}
      → (first >>= next) ≡ err e
      → (first ≡ err e) ⊎ ((v : A) × (first ≡ ok v) × (next v ≡ err e))
  >>=-eq-err (ok v) next failed = inr (v, refl, failed)
  >>=-eq-err (err e) next failed = inl (ground arith)

  pub >>=-eq-ok :
      (first : Result E A) (next : A → Result E B) {out : B}
      → (first >>= next) ≡ ok out
      → (v : A) × (first ≡ ok v) × (next v ≡ ok out)
  >>=-eq-ok (err e) next done = cc
  >>=-eq-ok (ok v) next done = (v, refl, done)

pub Result-cases {ℓ κ} :
    {E : Type ℓ} {A : Type κ} (r : Result E A) → ((a : A) × (r ≡ ok a)) ⊎ ((e : E) × (r ≡ err e))
Result-cases (ok a) = inl (a, refl)
Result-cases (err e) = inr (e, refl)
