-- ===== src/Prelude/Sets.antt =====
-- Lists without repetition, and what sorting does to them.
use mathlib.Core.Path.{◌≡◌, refl}
use mathlib.Core.Bool.{Bool, false, ◌||◌}
use mathlib.Core.List.{List, [], ◌∷◌}
use native.Mathlib.Omega.{arith}
use tiproxy_machine_operator.Prelude.Lists.{insert_by, sort_by}
use tiproxy_machine_operator.Prelude.Keys.{Eq, ◌==◌}
use tiproxy_machine_operator.Prelude.Assoc.{contains}

module _ {ℓ} {K : Type ℓ} ⦃e : Eq K⦄ where
  -- No value twice.
  abbrev pub Apart : List K → Type 0
  Apart [] = Unit {0}
  Apart (x ∷ xs) = (contains xs x ≡ false) × Apart xs

  module _ (less : K → K → Bool) where
    contains-insert_by :
        (k x : K) (xs : List K) → contains (insert_by less x xs) k ≡ (x == k || contains xs k)
    unfolding contains insert_by
    contains-insert_by k x [] = refl
    contains-insert_by k x (y ∷ ys) = ground (arith, contains-insert_by k x ys)

    pub contains-sort_by : (k : K) (xs : List K) → contains (sort_by less xs) k ≡ contains xs k
    unfolding contains sort_by
    contains-sort_by k [] = refl
    contains-sort_by k (x ∷ xs) =
        ground (arith, contains-sort_by k xs, contains-insert_by k x (sort_by less xs))

    Apart-insert_by :
        (x : K) (xs : List K) → contains xs x ≡ false → Apart xs → Apart (insert_by less x xs)
    unfolding contains insert_by
    Apart-insert_by x [] h a = (refl, tt)
    Apart-insert_by x (y ∷ ys) h a =
        ground
          (arith, Apart-insert_by x ys, contains-insert_by y x ys, e.beq_iff x y, e.beq_iff y x)

    pub Apart-sort_by : (xs : List K) → Apart xs → Apart (sort_by less xs)
    unfolding sort_by
    Apart-sort_by [] a = tt
    Apart-sort_by (x ∷ xs) a =
        Apart-insert_by x (sort_by less xs) (ground (arith, contains-sort_by x xs))
          (Apart-sort_by xs a.1)
