-- ===== src/Prelude/Keys.antt =====
-- Types with a Boolean equality test, such as the key types of the maps.
use Prim.Native.Nat.{ℕ}
use Prim.Native.String.{String}
use mathlib.Core.Path.{◌≡◌, refl}
use mathlib.Core.Logic.{◌↔◌}
use mathlib.Core.Bool.{Bool, true}
use text.Mathlib.Text.{◌==◌ as text_eqb}
use text.Mathlib.TextEquality.{eq_iff}
use tiproxy_machine_operator.Prelude.Tests.{eqb, eqb_iff}
use tiproxy_machine_operator.Prelude.Int.{ℤ, eqz, eqz_iff}

pub record Eq {ℓ} (K : Type ℓ) : Type ℓ where
  pub beq : K → K → Bool
  pub beq_iff : (a b : K) → (beq a b ≡ true) ↔ (a ≡ b)

instance abbrev pub int_eq : Eq ℤ
int_eq = record { beq = eqz; beq_iff = eqz_iff }

instance abbrev pub string_eq : Eq String
string_eq = record { beq = text_eqb; beq_iff = eq_iff }

-- Go's `==`.
infix 50 ◌==◌
abbrev pub ◌==◌ {ℓ} : {K : Type ℓ} ⦃e : Eq K⦄ → K → K → Bool
◌==◌ ⦃e⦄ = e.beq

instance abbrev pub nat_eq : Eq ℕ
nat_eq = record { beq = eqb; beq_iff = eqb_iff }

pub beq_refl {ℓ} : {K : Type ℓ} ⦃e : Eq K⦄ (a : K) → (a == a) ≡ true
beq_refl ⦃e⦄ a = (e.beq_iff a a).1 refl
