-- ===== src/Effects.antt =====
-- Functions that make calls of other systems and may fail: they take the calls made so far, the
-- latest first, and return a result or an error, and the calls that were made.
pub mod Keeps
pub mod Hoare
use tiproxy_machine_operator.Prelude.{List, Option, Result, err, none, ok, some, ◌∷◌}

-- The calls that are made stay made when a later one fails.
abbrev pub Effect {ℓ} : Type 0 → Type 0 → Type ℓ → Type ℓ
Effect C E A = List C → Result E A × List C

unfoldable pub continue {ℓ κ} :
    {C E : Type 0} {A : Type ℓ} {B : Type κ} → Result E A → (A → Effect C E B) → Effect C E B
continue (ok a) f h = f a h
continue (err e) f h = (err e, h)

infixl 5 ◌>>=◌ ◌>>◌
unfoldable pub ◌>>=◌ {ℓ κ} :
    {C E : Type 0} {A : Type ℓ} {B : Type κ} → Effect C E A → (A → Effect C E B) → Effect C E B
unfolding continue
◌>>=◌ m f h = let (r, h') = m h in continue r f h'

unfoldable pub lift {ℓ} : {C E : Type 0} {A : Type ℓ} → Result E A → Effect C E A
lift r h = (r, h)

unfoldable pub ◌>>◌ {ℓ} :
    {C E : Type 0} {B : Type ℓ} → Effect C E (Unit {0}) → Effect C E B → Effect C E B
m >> k = m >>= λ _. k

abbrev pub pure {ℓ} : {C E : Type 0} {A : Type ℓ} → A → Effect C E A
pure a = lift (ok a)

abbrev pub raise {ℓ} : {C E : Type 0} {A : Type ℓ} → E → Effect C E A
raise e = lift (err e)

-- What is made of the state of the world, the clock's time for one, without a call.
unfoldable pub read {ℓ} : {C E : Type 0} {A : Type ℓ} → (List C → A) → Effect C E A
read g h = (ok (g h), h)

-- A call, with its answer.
unfoldable pub call {ℓ} : {C E : Type 0} {A : Type ℓ} → (List C → Result E A) → C → Effect C E A
call answer c h = (answer h, c ∷ h)

-- `if err := …; err != nil { return err }`
abbrev pub to_result : {E : Type 0} → Option E → Result E (Unit {0})
to_result none = ok tt
to_result (some e) = err e
