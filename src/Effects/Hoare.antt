-- ===== src/Effects/Hoare.antt =====
-- Triples: what holds after a function, with its result or its error, if something held before.
use tiproxy_machine_operator.Effects.{Effect, call, continue, lift, read, ◌>>=◌, ◌>>◌}
use tiproxy_machine_operator.Prelude.{List, Result, err, ok, refl, ◌∷◌, ◌≡◌}

abbrev pub Post {ℓ} :
    {C E : Type 0} {A : Type ℓ}
    → (A → List C → Type 0)
    → (E → List C → Type 0)
    → Result E A × List C
    → Type 0
Post Q F (ok a, h) = Q a h
Post Q F (err e, h) = F e h

pub record Runs {ℓ} {C E : Type 0} {A : Type ℓ} (P : List C → Type 0) (m : Effect C E A)
    (Q : A → List C → Type 0) (F : E → List C → Type 0) : Type 0 where
  pub runs : (h : List C) → P h → Post Q F (m h)

continue-Runs {ℓ κ} :
    {C E : Type 0} {A : Type ℓ} {B : Type κ} (r : Result E A) (f : A → Effect C E B) (h : List C)
    (R : A → List C → Type 0) (Q : B → List C → Type 0) (F : E → List C → Type 0)
    → Post R F (r, h)
    → ((a : A) → Runs (R a) (f a) Q F)
    → Post Q F (continue r f h)
unfolding continue
continue-Runs (ok a) f h R Q F first next = (next a).runs h first
continue-Runs (err e) f h R Q F first next = first

module _ {C E : Type 0} {F : E → List C → Type 0} where
  pub bind-Runs {ℓ κ} :
      {A : Type ℓ} {B : Type κ} {m : Effect C E A} {f : A → Effect C E B} {P : List C → Type 0}
      {Q : B → List C → Type 0} (R : A → List C → Type 0)
      → Runs P m R F
      → ((a : A) → Runs (R a) (f a) Q F)
      → Runs P (m >>= f) Q F
  unfolding ◌>>=◌
  bind-Runs {m} {f} {Q} R first next = record {
    runs = λ h before. continue-Runs ((m h).0) f ((m h).1) R Q F (first.runs h before) next;
  }

  pub then-Runs {ℓ} :
      {B : Type ℓ} {m : Effect C E (Unit {0})} {k : Effect C E B} {P : List C → Type 0}
      {Q : B → List C → Type 0} (R : List C → Type 0)
      → Runs P m (λ _. R) F
      → Runs R k Q F
      → Runs P (m >> k) Q F
  unfolding ◌>>◌
  then-Runs R first next = bind-Runs (λ _. R) first (λ _. next)

  pub lift-Runs {ℓ} :
      {A : Type ℓ} {P : List C → Type 0} {Q : A → List C → Type 0} (r : Result E A)
      → ((h : List C) → P h → Post Q F (r, h))
      → Runs P (lift r) Q F
  unfolding lift
  lift-Runs r post = record { runs = post }

  pub read-Runs {ℓ} :
      {A : Type ℓ} {P : List C → Type 0} {Q : A → List C → Type 0} (g : List C → A)
      → ((h : List C) → P h → Q (g h) h)
      → Runs P (read g) Q F
  unfolding read
  read-Runs g post = record { runs = post }

  pub call-Runs {ℓ} :
      {A : Type ℓ} {P : List C → Type 0} {Q : A → List C → Type 0} (answer : List C → Result E A)
      (c : C)
      → ((h : List C) → P h → Post Q F (answer h, c ∷ h))
      → Runs P (call answer c) Q F
  unfolding call
  call-Runs answer c post = record { runs = post }

-- Nothing is asked of a result, or of an error.
abbrev pub Anything {ℓ} : {C : Type 0} {A : Type ℓ} → A → List C → Type 0
Anything a h = Unit {0}

frame-Post {ℓ} :
    {C E : Type 0} {A : Type ℓ} (K : Type 0) (out : Result E A × List C)
    → K
    → Post (λ a h. K) Anything out
frame-Post K (ok a, h) k = k
frame-Post K (err e, h) k = tt

-- What does not depend on the calls still holds after a function.
pub frame-Runs {ℓ} :
    {C E : Type 0} {A : Type ℓ} (K : Type 0) (m : Effect C E A)
    → Runs (λ h. K) m (λ a h. K) Anything
frame-Runs K m = record { runs = λ h k. frame-Post K (m h) k }

weaken-Post {ℓ} :
    {C E : Type 0} {A : Type ℓ} {Q R : A → List C → Type 0} (F : E → List C → Type 0)
    (out : Result E A × List C)
    → ((a : A) (h : List C) → Q a h → R a h)
    → Post Q F out
    → Post R F out
weaken-Post F (ok a, h) imply post = imply a h post
weaken-Post F (err e, h) imply post = post

pub weaken-Runs {ℓ} :
    {C E : Type 0} {A : Type ℓ} {P : List C → Type 0} {Q R : A → List C → Type 0}
    {F : E → List C → Type 0} (m : Effect C E A)
    → Runs P m Q F
    → ((a : A) (h : List C) → Q a h → R a h)
    → Runs P m R F
weaken-Runs {F} m first imply = record { runs = λ h p. weaken-Post F (m h) imply (first.runs h p) }

-- A value that is lifted is known after it.
pub lift-known :
    {C E : Type 0} {A : Type 0} (r : Result E A)
    → Runs {C = C} (λ h. Unit {0}) (lift r) (λ a h. r ≡ ok a) Anything
unfolding lift
lift-known (ok a) = record { runs = λ h p. refl }
lift-known (err e) = record { runs = λ h p. tt }
