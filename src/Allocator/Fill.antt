-- ===== src/Allocator/Fill.antt =====
-- The last loop: it places the requests that have no port yet on the lowest free ports.
use mathlib.Core.Path.{subst₂}
use tiproxy_machine_operator.Allocator.{
  Found, LinkPortRequest, State, assign, cut_off, exhausted, fill, fill_all, find_next, found,
  place,
}
use tiproxy_machine_operator.Allocator.Invariant.{Inv, assign-Inv}
use tiproxy_machine_operator.Allocator.Search.{Finds, find_next_lem}
use tiproxy_machine_operator.Prelude.{
  >>=-eq-ok, List, Option-cases, String, [], arith, inc_int32-parts, inl, inr, int_eq, is_some,
  length, max_int32, none, ok, refl, string_eq, subst, suc, true, ℕ, ℤ, ◌<ℤ◌, ◌∷◌, ◌≡◌, ◌≤ℤ◌, ◌⊎◌,
}
use tiproxy_machine_operator.Prelude.Assoc.{contains, get}

-- The search of one round.
abbrev pub search_of : ℤ → State × ℤ → Found
search_of end (s, next) = find_next (suc (length s.used)) next end s.used

module _ (start end : ℤ) (n : ℕ) where
  place_cases :
      (u : String) (s : State) (f : Found) (t : State) (after : ℤ)
      → place u start end n s f ≡ ok (t, after)
      → (p : ℤ) × (f ≡ found p after) × (t ≡ assign u p s)
  place_cases u s (found p after') t after h = (p, ground arith, ground arith)
  place_cases u s exhausted t after h = cc
  place_cases u s cut_off t after h = cc

  -- What a round does, when it succeeds: nothing, or it takes what the search finds.
  pub fill_cases :
      (r : LinkPortRequest) (s t : State) (next after : ℤ)
      → fill start end n r (s, next) ≡ ok (t, after)
      → ((is_some (get r.uid s.result) ≡ true) × (t ≡ s) × (after ≡ next))
        ⊎ ((p : ℤ) × (get r.uid s.result ≡ none)
            × (search_of end (s, next) ≡ found p after)
            × (t ≡ assign r.uid p s))
  unfolding fill
  fill_cases r s t next after h = elim (Option-cases (get r.uid s.result)) [
    | inr (q, e) ↦ inl (rw e refl, ground arith, ground arith)
    | inl e ↦
        let (p, f, a) = place_cases r.uid s (search_of end (s, next)) t after (ground arith) in
        inr (p, e, f, a)
  ]

  -- Beside the invariant: the search is at or after the start of the range, and every port that it
  -- has passed is used.
  pub record FillInv (s : State) (next : ℤ) : Type 0 where
    pub inv : Inv start end s
    pub from : start ≤ℤ next
    pub passed : (q : ℤ) → start ≤ℤ q → q <ℤ next → contains s.used q ≡ true

  assign-FillInv :
      (u : String) (s : State) (next p after : ℤ)
      → end <ℤ max_int32
      → FillInv s next
      → Finds next end s.used (found p after)
      → FillInv (assign u p s) after
  unfolding assign contains
  assign-FillInv u s next p after top i f = record {
    inv = assign-Inv start end u p s (omega arith, f.1) f.2 i.inv;
    from = rw f.3 (omega (arith, inc_int32-parts p));
    passed = λ q lo hi. ground (arith, i.passed q, f.4 q, inc_int32-parts p);
  }

  pub fill-FillInv :
      (r : LinkPortRequest) (s t : State) (next after : ℤ)
      → end <ℤ max_int32
      → FillInv s next
      → fill start end n r (s, next) ≡ ok (t, after)
      → FillInv t after
  fill-FillInv r s t next after top i h = elim (fill_cases r s t next after h) [
    | inl (_, e, e') ↦ rw (e, e') i
    | inr (p, _, f, e) ↦ rw e (
        assign-FillInv r.uid s next p after top i
          (subst (Finds next end s.used) f (find_next_lem next end s.used top)))
  ]

  pub fill_all-FillInv :
      (rs : List LinkPortRequest) (s t : State) (next after : ℤ)
      → end <ℤ max_int32
      → FillInv s next
      → fill_all start end n rs (s, next) ≡ ok (t, after)
      → FillInv t after
  unfolding fill_all
  fill_all-FillInv [] s t next after top i h = subst₂ FillInv (ground arith) (ground arith) i
  fill_all-FillInv (r ∷ rs) s t next after top i h =
      let ((s', next'), first, rest) =
        >>=-eq-ok (fill start end n r (s, next)) (fill_all start end n rs) h in
      fill_all-FillInv rs s' t next' after top (fill-FillInv r s s' next next' top i first) rest
