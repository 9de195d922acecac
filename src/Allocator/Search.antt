-- ===== src/Allocator/Search.antt =====
-- findNext: it finds the lowest free port from `next` on, and its fuel is enough.
use tiproxy_machine_operator.Allocator.{Found, cut_off, exhausted, find_next, found}
use tiproxy_machine_operator.Prelude.{
  Bool-cases, List, [], arith, eq_of_parts, false, filter_by, inc_int32, inc_int32-parts, inl, inr,
  int_eq, length, lez, max_int32, refl, string_eq, suc, true, zero, ℕ, ℤ, ◌<ℤ◌, ◌<◌, ◌∷◌, ◌≡◌, ◌≤ℤ◌,
  ◌≤◌, ◌⊎◌,
}
use tiproxy_machine_operator.Prelude.Assoc.{contains}

-- The used ports that a search from `next` can still meet.
abbrev above : ℤ → List ℤ → ℕ
above next used = length (filter_by (λ p. lez next p) used)

above-le : (next : ℤ) (used : List ℤ) → above next used ≤ length used
above-le next [] = omega arith
above-le next (p ∷ used) = ground (arith, above-le next used)

module _ (next : ℤ) (below : next <ℤ max_int32) where
  above-inc-le : (used : List ℤ) → above (inc_int32 next) used ≤ above next used
  above-inc-le [] = omega arith
  above-inc-le (p ∷ used) = ground (arith, above-inc-le used, inc_int32-parts next)

  -- A round that meets a used port leaves fewer of them ahead.
  above-inc :
      (used : List ℤ) → contains used next ≡ true → above (inc_int32 next) used < above next used
  unfolding contains
  above-inc [] h = absurd (cc)
  above-inc (p ∷ used) h =
      ground (arith, above-inc used, above-inc-le used, inc_int32-parts next, int_eq.beq_iff p next)

-- What a search from `next` up to `end` has to answer.
abbrev pub Finds : ℤ → ℤ → List ℤ → Found → Type 0
Finds next end used (found p after) =
    (next ≤ℤ p)
    × (p ≤ℤ end)
    × (contains used p ≡ false)
    × (after ≡ inc_int32 p)
    × ((q : ℤ) → next ≤ℤ q → q <ℤ p → contains used q ≡ true)
Finds next end used exhausted = (q : ℤ) → next ≤ℤ q → q ≤ℤ end → contains used q ≡ true
Finds next end used cut_off = ⊥

at_or_after : (next q : ℤ) → next <ℤ max_int32 → next ≤ℤ q → (next ≡ q) ⊎ (inc_int32 next ≤ℤ q)
at_or_after next q below h = elim (Bool-cases (lez q next)) [
  | inl le ↦ inl (eq_of_parts next q (ground arith))
  | inr gt ↦ inr (ground (arith, inc_int32-parts next))
]

-- What holds from the port after a used one holds from that one.
Finds-step :
    (next end : ℤ) (used : List ℤ)
    → next <ℤ max_int32
    → contains used next ≡ true
    → (r : Found) → Finds (inc_int32 next) end used r
    → Finds next end used r
Finds-step next end used below h (found p after) f = (
  omega (arith, inc_int32-parts next),
  f.1,
  f.2,
  f.3,
  λ q lo hi. elim (at_or_after next q below lo) [ inl e ↦ rw (← e) h | inr later ↦ f.4 q later hi ],
)
Finds-step next end used below h exhausted f =
    λ q lo hi. elim (at_or_after next q below lo) [ inl e ↦ rw (← e) h | inr later ↦ f q later hi ]
Finds-step next end used below h cut_off f = f

find_next-Finds :
    (fuel : ℕ) (next end : ℤ) (used : List ℤ)
    → end <ℤ max_int32
    → above next used < fuel
    → Finds next end used (find_next fuel next end used)
unfolding find_next
find_next-Finds zero next end used top enough = elim enough [ ]
find_next-Finds (suc fuel) next end used top enough = elim (Bool-cases (lez next end)) [
  | inr past ↦ rw past (λ q lo hi. absurd (ground arith))
  | inl inside ↦ elim (Bool-cases (contains used next)) [
    | inl taken ↦
        rw (inside, taken)
          (Finds-step next end used (ground arith) taken (find_next fuel (inc_int32 next) end used)
            (find_next-Finds fuel (inc_int32 next) end used top
              (ground (arith, above-inc next (ground arith) used taken))))
    | inr free ↦
        rw (inside, free) (omega arith, ground arith, free, refl, λ q lo hi. absurd (omega arith))
  ]
]

-- With one round more than there are used ports, as the program's caller gives it.
pub find_next_lem :
    (next end : ℤ) (used : List ℤ)
    → end <ℤ max_int32
    → Finds next end used (find_next (suc (length used)) next end used)
find_next_lem next end used top =
    find_next-Finds (suc (length used)) next end used top (omega (arith, above-le next used))
