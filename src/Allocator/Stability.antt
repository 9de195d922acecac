-- ===== src/Allocator/Stability.antt =====
-- An existing allocation stays: the third loop keeps it, if the range holds it and nobody asks
-- for its port.
use text.Mathlib.TextEquality.{eq_iff}
use tiproxy_machine_operator.Allocator.{
  LinkPortRequest, State, assign, empty, fill, fill_all, keep, keep_all, pin, pin_all,
  reconcile_ports, requests_of,
}
use tiproxy_machine_operator.Allocator.Answers.{
  kept-returned, pinned-port, reconcile_ports-domain, reconcile_ports-requested,
  requested-requests_of,
}
use tiproxy_machine_operator.Allocator.Invariant.{InRange, keep_cases, pin_cases}
use tiproxy_machine_operator.Allocator.Loops.{keep-other, keep_all-grows, pin_all-result, requested}
use tiproxy_machine_operator.Allocator.Requests.{
  Distinct, request_of, request_of-requests_of, requests_of-Distinct,
}
use tiproxy_machine_operator.Allocator.Safety.{
  Run, reconcile_ports-InRange, reconcile_ports-Run, reconcile_ports-injective,
  reconcile_ports-of-stages,
}
use tiproxy_machine_operator.Prelude.{
  >>=-eq-ok, Bool-cases, List, Option-cases, String, [], ap, arith, beq_refl, eqz, eqz_iff, false,
  inl, inr, int_eq, is_some, length, max_int32, nat_eq, none, ok, refl, some, string_eq, subst, sym,
  true, ℕ, ℤ, ◌<ℤ◌, ◌==◌, ◌∙◌, ◌∷◌, ◌≡◌, ◌≢◌, ◌≤ℤ◌, ◌⊎◌,
}
use tiproxy_machine_operator.Prelude.Assoc.{Map, contains, get, get-put}

module _ (start end : ℤ) where
  pin_all-used :
      (p : ℤ) (rs : List LinkPortRequest) (s t : State)
      → Distinct rs
      → pin_all start end rs s ≡ ok t
      → contains t.used p ≡ true
      → (contains s.used p ≡ true) ⊎ ((v : String) × (requested v rs ≡ some p))
  unfolding pin_all request_of assign contains
  pin_all-used p [] s t d h c = inl (ground arith)
  pin_all-used p (r ∷ rs) s t d h c =
      let (s', first, rest) = >>=-eq-ok (pin start end r s) (pin_all start end rs) h in
      elim (pin_all-used p rs s' t d.1 rest c) [
        | inr (v, e) ↦ inr (v, ground (arith, eq_iff r.uid v))
        | inl old ↦ elim (pin_cases start end r s s' first) [
          | inl (_, same) ↦ inl (rw same at old)
          | inr (q, asks, _, _, e) ↦
              let old' = rw e at old in
              elim (Bool-cases (eqz q p)) [
                | inl same ↦ inr (r.uid, ground (arith, eqz_iff q p, eq_iff r.uid r.uid))
                | inr differ ↦ inl (ground arith)
              ]
        ]
      ]

  module _ (existing : Map String ℤ) (u : String) (p : ℤ) where
    keep-takes :
        (r : LinkPortRequest) (s : State)
        → r.uid ≡ u
        → get u existing ≡ some p
        → InRange start end p
        → get u s.result ≡ none
        → contains s.used p ≡ false
        → get u (keep existing start end r s).result ≡ some p
    unfolding keep assign
    keep-takes r s same old inside unset free =
        rw (← same) (ground (arith, get-put r.uid r.uid p s.result, beq_refl r.uid, same))

    keep-spares :
        (r : LinkPortRequest) (s : State)
        → r.uid ≢ u
        → get r.uid existing ≢ some p
        → contains s.used p ≡ false
        → contains (keep existing start end r s).used p ≡ false
    unfolding assign contains
    keep-spares r s other differs free = elim (keep_cases start end existing r s) [
      | inl e ↦ rw e free
      | inr (q, _, had, _, _, e) ↦ rw e (ground (arith, int_eq.beq_iff q p))
    ]

    keep_all-keeps :
        (rs : List LinkPortRequest) (s : State)
        → is_some (request_of u rs) ≡ true
        → get u existing ≡ some p
        → ((v : String) → get v existing ≡ some p → v ≡ u)
        → InRange start end p
        → get u s.result ≡ none
        → contains s.used p ≡ false
        → get u (keep_all existing start end rs s).result ≡ some p
    unfolding keep_all request_of
    keep_all-keeps [] s some_of old sole inside unset free = cc
    keep_all-keeps (r ∷ rs) s some_of old sole inside unset free = elim (Bool-cases (r.uid == u)) [
      | inl same ↦
          keep_all-grows start end existing u p rs (keep existing start end r s)
            (keep-takes r s ((eq_iff r.uid u).0 same) old inside unset free)
      | inr other ↦
          let differ : r.uid ≢ u = ground (arith, eq_iff r.uid u) in
          keep_all-keeps rs (keep existing start end r s) (ground arith) old sole inside
            (keep-other start end existing u r s differ ∙ unset)
            (keep-spares r s differ (λ had. differ (sole r.uid had)) free)
    ]

module _ (existing : Map String ℤ) (reqs : List LinkPortRequest) (start end : ℤ) (pinned : State)
    (pins : pin_all start end (requests_of reqs) empty ≡ ok pinned) where
  -- The third loop keeps it.
  pub kept-port :
      (u : String) (p : ℤ)
      → is_some (request_of u reqs) ≡ true
      → requested u reqs ≡ none
      → get u existing ≡ some p
      → ((v : String) → get v existing ≡ some p → v ≡ u)
      → (start ≤ℤ p) × (p ≤ℤ end)
      → ((v : String) → requested v reqs ≢ some p)
      → get u (keep_all existing start end (requests_of reqs) pinned).result ≡ some p
  unfolding contains get
  kept-port u p some_of free_choice old sole inside unasked =
      keep_all-keeps start end existing u p rs pinned
        (ground (arith, request_of-requests_of u reqs)) old sole inside unset free
    where
      rs : List LinkPortRequest
      rs = requests_of reqs

      unset : get u pinned.result ≡ none
      unset =
          pin_all-result start end u rs empty pinned (requests_of-Distinct reqs) pins
          ∙ ground (arith, requested-requests_of reqs u)

      free : contains pinned.used p ≡ false
      free = elim (Bool-cases (contains pinned.used p)) [
        | inr e ↦ e
        | inl e ↦
            elim (pin_all-used start end p rs empty pinned (requests_of-Distinct reqs) pins e) [
              | inl c ↦ absurd (cc)
              | inr (v, asks) ↦ absurd (unasked v (sym (requested-requests_of reqs v) ∙ asks))
            ]
      ]

-- A port that a UID has in the existing allocation, and no other UID has there, stays with it,
-- if the UID is still requested, asks for no port itself, the port is in the range and no
-- request asks for it.
pub reconcile_ports-stable :
    (existing : Map String ℤ) (reqs : List LinkPortRequest) (start end : ℤ) (m : Map String ℤ)
    → reconcile_ports existing reqs start end ≡ ok m
    → (u : String) (p : ℤ) → is_some (request_of u reqs) ≡ true
    → requested u reqs ≡ none
    → get u existing ≡ some p
    → ((v : String) → get v existing ≡ some p → v ≡ u)
    → (start ≤ℤ p) × (p ≤ℤ end)
    → ((v : String) → requested v reqs ≢ some p)
    → get u m ≡ some p
reconcile_ports-stable existing reqs start end m h u p some_of free_choice old sole inside unasked =
    let r = reconcile_ports-Run existing reqs start end m h in
    kept-returned existing reqs start end m h u p (
      kept-port existing reqs start end r.pinned r.pins u p some_of free_choice old sole inside
        unasked)

fill_all-settled :
    (start end : ℤ) (n : ℕ) (rs : List LinkPortRequest) (s : State) (next : ℤ)
    → ((v : String) → is_some (request_of v rs) ≡ true → is_some (get v s.result) ≡ true)
    → fill_all start end n rs (s, next) ≡ ok (s, next)
unfolding fill_all fill request_of
fill_all-settled start end n [] s next set = refl
fill_all-settled start end n (r ∷ rs) s next set =
    rw (set r.uid (ground (arith, eq_iff r.uid r.uid)))
      (fill_all-settled start end n rs s next (λ v some_of. set v (ground arith)))

-- A second ReconcilePorts over the same requests and range, given what the first returned,
-- succeeds and changes no allocation, unless the range ends at the largest int32.
pub reconcile_ports-idempotent :
    (existing : Map String ℤ) (reqs : List LinkPortRequest) (start end : ℤ) (m : Map String ℤ)
    → end <ℤ max_int32
    → reconcile_ports existing reqs start end ≡ ok m
    → (m' : Map String ℤ) × (reconcile_ports m reqs start end ≡ ok m')
      × ((u : String) → get u m' ≡ get u m)
reconcile_ports-idempotent existing reqs start end m below h = (kept.result, again, same)
  where
    r : Run existing reqs start end m
    r = reconcile_ports-Run existing reqs start end m h

    kept : State
    kept = keep_all m start end (requests_of reqs) r.pinned

    stays : (u : String) (p : ℤ) → get u m ≡ some p → get u kept.result ≡ some p
    stays u p e = elim (Option-cases (requested u reqs)) [
      | inr (q, asks) ↦ keep_all-grows start end m u p (requests_of reqs) r.pinned (
          pinned-port existing reqs start end m h u
          ∙ asks
          ∙ sym (reconcile_ports-requested existing reqs start end m h u q asks)
          ∙ e)
      | inl quiet ↦
          kept-port m reqs start end r.pinned r.pins u p
            (sym (reconcile_ports-domain existing reqs start end m h u) ∙ ap is_some e) quiet e
            (λ v e'. reconcile_ports-injective existing reqs start end m below h v u p e' e)
            (reconcile_ports-InRange existing reqs start end m below h u p e)
            (λ v asks.
              let twin : v ≡ u =
                reconcile_ports-injective existing reqs start end m below h v u p
                  (reconcile_ports-requested existing reqs start end m h v p asks) e in
              let asks' = subst (λ w. requested w reqs ≡ some p) twin asks in ground arith)
    ]

    settled :
        (v : String)
        → is_some (request_of v (requests_of reqs)) ≡ true
        → is_some (get v kept.result) ≡ true
    settled v some_of = elim (Option-cases (get v m)) [
      | inr (p, e) ↦ ap is_some (stays v p e)
      | inl e ↦ absurd (
          ground (
            arith,
            reconcile_ports-domain existing reqs start end m h v,
            request_of-requests_of v reqs,
          ))
    ]

    again : reconcile_ports m reqs start end ≡ ok kept.result
    again =
        reconcile_ports-of-stages m reqs start end r.pinned kept start r.positive r.ordered r.pins (
          fill_all-settled start end (length (requests_of reqs)) (requests_of reqs) kept start
            settled)

    same : (u : String) → get u kept.result ≡ get u m
    same u = elim (Option-cases (get u m)) [
      | inr (p, e) ↦ stays u p e ∙ sym e
      | inl e ↦ elim (Option-cases (get u kept.result)) [
        | inl e' ↦ e' ∙ sym e
        | inr (p, e') ↦ absurd (
            ground (
              arith,
              reconcile_ports-domain existing reqs start end m h u,
              reconcile_ports-domain m reqs start end kept.result again u,
            ))
      ]
    ]
