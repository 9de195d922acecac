-- ===== src/Prelude/Assoc.antt =====
-- Go's maps and sets, as association lists and lists. A nil map reads as an empty one.
use tiproxy_machine_operator.Prelude.Tests.{if◌then◌else◌}
use tiproxy_machine_operator.Prelude.Keys.{Eq, ◌==◌}
use mathlib.Core.Path.{◌≡◌, refl}
use mathlib.Core.Bool.{Bool, false, ◌||◌}
use mathlib.Core.Option.{Option, none, some}
use mathlib.Core.List.{List, [], ◌∷◌}
use native.Mathlib.Omega.{arith}

abbrev pub Map {ℓ κ} : Type ℓ → Type κ → Type (ℓ ⊔ κ)
Map K V = List (K × V)

module _ {ℓ} {K : Type ℓ} ⦃e : Eq K⦄ where
  unfoldable pub contains : List K → K → Bool
  contains [] k = false
  contains (x ∷ xs) k = x == k || contains xs k

  module _ {κ} {V : Type κ} where
    unfoldable pub get : K → Map K V → Option V
    get k [] = none
    get k ((j, v) ∷ m) = if j == k then some v else get k m

    unfoldable pub put : K → V → Map K V → Map K V
    put k v [] = (k, v) ∷ []
    put k v ((j, w) ∷ m) = if j == k then (k, v) ∷ m else (j, w) ∷ put k v m

    unfoldable pub remove : K → Map K V → Map K V
    remove k [] = []
    remove k ((j, v) ∷ m) = let rest = remove k m in if j == k then rest else (j, v) ∷ rest

    pub get-put :
        (k j : K) (v : V) (m : Map K V) → get j (put k v m) ≡ (if k == j then some v else get j m)
    unfolding get put
    get-put k j v [] = refl
    get-put k j v ((i, w) ∷ m) =
        ground (arith, e.beq_iff k j, e.beq_iff i k, e.beq_iff i j, get-put k j v m)

    pub get-remove :
        (k j : K) (m : Map K V) → get j (remove k m) ≡ (if k == j then none else get j m)
    unfolding get remove
    get-remove k j [] = ground arith
    get-remove k j ((i, w) ∷ m) =
        ground (arith, e.beq_iff k j, e.beq_iff i k, e.beq_iff i j, get-remove k j m)
