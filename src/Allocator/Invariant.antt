-- ===== src/Allocator/Invariant.antt =====
-- What every round of ReconcilePorts keeps: ports in the range, recorded as used, one to a UID.
use tiproxy_machine_operator.Allocator.{
  LinkPortRequest, State, assign, empty, keep, keep_all, outside, pin, pin_all,
}
use tiproxy_machine_operator.Prelude.{
  >>=-eq-ok, Bool-cases, List, Option-cases, String, [], arith, false, inl, inr, int_eq, is_some,
  none, ok, refl, some, string_eq, subst, true, ℤ, ◌||◌, ◌∷◌, ◌≡◌, ◌≤ℤ◌, ◌⊎◌,
}
use tiproxy_machine_operator.Prelude.Assoc.{Map, contains, get, get-put, put}

abbrev pub InRange : ℤ → ℤ → ℤ → Type 0
InRange start end p = (start ≤ℤ p) × (p ≤ℤ end)

pub outside-false : (start end p : ℤ) → outside p start end ≡ false → InRange start end p
outside-false start end p h = (ground arith, ground arith)

pub InRange-outside : (start end p : ℤ) → InRange start end p → outside p start end ≡ false
InRange-outside start end p h = ground arith

module _ (start end : ℤ) where
  pub record Inv (s : State) : Type 0 where
    pub in_range : (u : String) (p : ℤ) → get u s.result ≡ some p → InRange start end p
    pub recorded : (u : String) (p : ℤ) → get u s.result ≡ some p → contains s.used p ≡ true
    pub distinct :
        (u v : String) (p : ℤ) → get u s.result ≡ some p → get v s.result ≡ some p → u ≡ v

  pub empty-Inv : Inv empty
  unfolding get
  empty-Inv = record { in_range = λ u p h. cc; recorded = λ u p h. cc; distinct = λ u v p h k. cc }

  pub assign-Inv :
      (u : String) (p : ℤ) (s : State)
      → InRange start end p
      → contains s.used p ≡ false
      → Inv s
      → Inv (assign u p s)
  unfolding assign contains
  assign-Inv u p s r free i = record {
    in_range = λ v q h. ground (arith, get-put u v p s.result, i.in_range v q);
    recorded = λ v q h. ground (arith, get-put u v p s.result, i.recorded v q, int_eq.beq_iff p q);
    distinct = λ v w q h k. ground (
      arith,
      get-put u v p s.result,
      get-put u w p s.result,
      i.distinct v w q,
      i.recorded v q,
      i.recorded w q,
      string_eq.beq_iff u v,
      string_eq.beq_iff u w,
    );
  }

  -- What a round of the third loop does: nothing, or it keeps a free port of the range.
  pub keep_cases :
      (existing : Map String ℤ) (r : LinkPortRequest) (s : State)
      → (keep existing start end r s ≡ s)
        ⊎ ((p : ℤ) × (get r.uid s.result ≡ none)
            × (get r.uid existing ≡ some p)
            × (outside p start end ≡ false)
            × (contains s.used p ≡ false)
            × (keep existing start end r s ≡ assign r.uid p s))
  unfolding keep
  keep_cases existing r s = elim (Option-cases (get r.uid existing)) [
    | inl e ↦ inl (ground arith)
    | inr (p, e) ↦
        elim (Bool-cases
          (is_some (get r.uid s.result) || outside p start end || contains s.used p)) [
            | inl h ↦ inl (ground arith)
            | inr h ↦ inr (p, ground arith, e, ground arith, ground arith, ground arith)
          ]
  ]

  pub keep-Inv :
      (existing : Map String ℤ) (r : LinkPortRequest) (s : State)
      → Inv s
      → Inv (keep existing start end r s)
  keep-Inv existing r s i = elim (keep_cases existing r s) [
    | inl e ↦ rw e i
    | inr (p, fresh, old, inside, free, e) ↦
        rw e (assign-Inv r.uid p s (outside-false start end p inside) free i)
  ]

  -- What a round of the second loop does, when it succeeds.
  pub pin_cases :
      (r : LinkPortRequest) (s t : State)
      → pin start end r s ≡ ok t
      → ((r.requested_port ≡ none) × (t ≡ s))
        ⊎ ((p : ℤ) × (r.requested_port ≡ some p)
            × (outside p start end ≡ false)
            × (get p s.requested_by_port ≡ none)
            × (t ≡ assign r.uid p (record s { requested_by_port = put p r s.requested_by_port })))
  unfolding pin
  pin_cases r s t h = elim (Option-cases r.requested_port) [
    | inl e ↦ inl (e, ground arith)
    | inr (p, e) ↦ inr (p, e, ground arith, ground arith, ground arith)
  ]

  -- During the second loop the used ports are the requested ones.
  pub record PinInv (s : State) : Type 0 where
    pub inv : Inv s
    pub tracked : (p : ℤ) → contains s.used p ≡ is_some (get p s.requested_by_port)

  pub empty-PinInv : PinInv empty
  unfolding contains get
  empty-PinInv = record { inv = empty-Inv; tracked = λ p. refl }

  track-PinInv :
      (r : LinkPortRequest) (p : ℤ) (s : State)
      → InRange start end p
      → get p s.requested_by_port ≡ none
      → PinInv s
      → PinInv (assign r.uid p (record s { requested_by_port = put p r s.requested_by_port }))
  unfolding assign contains
  track-PinInv r p s inside free i = record {
    inv =
        assign-Inv r.uid p (record s { requested_by_port = put p r s.requested_by_port }) inside
          (ground (arith, i.tracked p))
          (record {
            in_range = i.inv.in_range;
            recorded = i.inv.recorded;
            distinct = i.inv.distinct;
          });
    tracked = λ q. ground (arith, get-put p q r s.requested_by_port, i.tracked q);
  }

  pub pin-PinInv :
      (r : LinkPortRequest) (s t : State) → PinInv s → pin start end r s ≡ ok t → PinInv t
  pin-PinInv r s t i h = elim (pin_cases r s t h) [
    | inl (_, e) ↦ rw e i
    | inr (p, _, inside, free, e) ↦
        rw e (track-PinInv r p s (outside-false start end p inside) free i)
  ]

  pub pin_all-PinInv :
      (rs : List LinkPortRequest) (s t : State)
      → PinInv s
      → pin_all start end rs s ≡ ok t
      → PinInv t
  unfolding pin_all
  pin_all-PinInv [] s t i h = subst PinInv (cc) i
  pin_all-PinInv (r ∷ rs) s t i h =
      let (s', first, rest) = >>=-eq-ok (pin start end r s) (pin_all start end rs) h in
      pin_all-PinInv rs s' t (pin-PinInv r s s' i first) rest

  pub keep_all-Inv :
      (existing : Map String ℤ) (rs : List LinkPortRequest) (s : State)
      → Inv s
      → Inv (keep_all existing start end rs s)
  unfolding keep_all
  keep_all-Inv existing [] s i = i
  keep_all-Inv existing (r ∷ rs) s i =
      keep_all-Inv existing rs (keep existing start end r s) (keep-Inv existing r s i)
