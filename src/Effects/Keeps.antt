-- ===== src/Effects/Keeps.antt =====
-- What holds of all calls a function makes, if it held of the calls before.
use tiproxy_machine_operator.Effects.{Effect, call, continue, lift, read, ◌>>=◌, ◌>>◌}
use tiproxy_machine_operator.Prelude.{All, List, Result, err, ok, refl, ◌≡◌}

pub record Keeps {ℓ} {C E : Type 0} {A : Type ℓ} (P : C → Type 0) (m : Effect C E A) : Type 0 where
  pub kept : (h : List C) → All P h → All P ((m h).1)

continue-Keeps {ℓ κ} :
    {C E : Type 0} {A : Type ℓ} {B : Type κ} (P : C → Type 0) (r : Result E A)
    (f : A → Effect C E B) (h : List C)
    → ((a : A) → r ≡ ok a → All P ((f a h).1))
    → All P h
    → All P ((continue r f h).1)
unfolding continue
continue-Keeps P (ok a) f h keeps before = keeps a refl
continue-Keeps P (err e) f h keeps before = before

module _ {C E : Type 0} {P : C → Type 0} where
  pub bind-Keeps {ℓ κ} :
      {A : Type ℓ} {B : Type κ} {m : Effect C E A} {f : A → Effect C E B}
      → Keeps P m
      → ((a : A) → Keeps P (f a))
      → Keeps P (m >>= f)
  unfolding ◌>>=◌
  bind-Keeps {m} {f} first next = record {
    kept = λ h before.
        continue-Keeps P ((m h).0) f ((m h).1)
          (λ a e. (next a).kept ((m h).1) (first.kept h before)) (first.kept h before);
  }

  pub then-Keeps {ℓ} :
      {B : Type ℓ} {m : Effect C E (Unit {0})} {k : Effect C E B}
      → Keeps P m
      → Keeps P k
      → Keeps P (m >> k)
  unfolding ◌>>◌
  then-Keeps first next = bind-Keeps first (λ _. next)

  pub lift-Keeps {ℓ} : {A : Type ℓ} (r : Result E A) → Keeps P (lift r)
  unfolding lift
  lift-Keeps r = record { kept = λ h before. before }

  -- A step that reads the clock.
  pub read-Keeps {ℓ κ} :
      {A : Type ℓ} {B : Type κ} {g : List C → A} (f : A → Effect C E B)
      → ((h : List C) → Keeps P (f (g h)))
      → Keeps P (read g >>= f)
  unfolding read ◌>>=◌ continue
  read-Keeps f keeps = record { kept = λ h before. (keeps h).kept h before }

  pub call-Keeps {ℓ} :
      {A : Type ℓ} (answer : List C → Result E A) (c : C) → P c → Keeps P (call answer c)
  unfolding call
  call-Keeps answer c p = record { kept = λ h before. (p, before) }
