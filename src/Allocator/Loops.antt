-- ===== src/Allocator/Loops.antt =====
-- What each loop of ReconcilePorts does to the port of one UID.
use text.Mathlib.TextEquality.{eq_iff}
use tiproxy_machine_operator.Allocator.{
  LinkPortRequest, State, assign, fill, fill_all, keep, keep_all, pin, pin_all,
}
use tiproxy_machine_operator.Allocator.Fill.{fill_cases}
use tiproxy_machine_operator.Allocator.Invariant.{keep_cases, pin_cases}
use tiproxy_machine_operator.Allocator.Requests.{Distinct, request_of}
use tiproxy_machine_operator.Prelude.{
  >>=-eq-ok, Bool-cases, List, Option, Option-cases, String, [], arith, if◌then◌else◌, inl, inr,
  int_eq, is_some, nat_eq, none, ok, refl, some, string_eq, true, ℕ, ℤ, ◌==◌, ◌∙◌, ◌∷◌, ◌≡◌, ◌≢◌,
}
use tiproxy_machine_operator.Prelude.Assoc.{Map, get, get-put}

-- The port that the first request with a UID asks for, if it asks for one.
abbrev pub requested : String → List LinkPortRequest → Option ℤ
requested u rs = elim (request_of u rs) [ none ↦ none | some r ↦ r.requested_port ]

abbrev pub or_else : Option ℤ → Option ℤ → Option ℤ
or_else none b = b
or_else (some a) b = some a

module _ (start end : ℤ) where
  pub pin-result :
      (u : String) (r : LinkPortRequest) (s t : State)
      → pin start end r s ≡ ok t
      → get u t.result
        ≡ (if r.uid == u then or_else r.requested_port (get u s.result) else get u s.result)
  unfolding assign
  pin-result u r s t h = elim (pin_cases start end r s t h) [
    | inl (e, e') ↦ rw (e, e') (ground arith)
    | inr (p, e, _, _, e') ↦ rw (e, e') (ground (arith, get-put r.uid u p s.result))
  ]

  -- The second loop writes the requested ports and nothing else.
  pub pin_all-result :
      (u : String) (rs : List LinkPortRequest) (s t : State)
      → Distinct rs
      → pin_all start end rs s ≡ ok t
      → get u t.result ≡ or_else (requested u rs) (get u s.result)
  unfolding pin_all request_of
  pin_all-result u [] s t d h = ground arith
  pin_all-result u (r ∷ rs) s t d h =
      let (s', first, rest) = >>=-eq-ok (pin start end r s) (pin_all start end rs) h in
      ground (arith, pin_all-result u rs s' t d.1 rest, pin-result u r s s' first, eq_iff r.uid u)

  module _ (existing : Map String ℤ) where
    keep-grows :
        (u : String) (p : ℤ) (r : LinkPortRequest) (s : State)
        → get u s.result ≡ some p
        → get u (keep existing start end r s).result ≡ some p
    unfolding assign
    keep-grows u p r s h = elim (keep_cases start end existing r s) [
      | inl e ↦ rw e h
      | inr (q, fresh, _, _, _, e) ↦
          rw e (ground (arith, get-put r.uid u q s.result, eq_iff r.uid u))
    ]

    -- The third loop overwrites no port.
    pub keep_all-grows :
        (u : String) (p : ℤ) (rs : List LinkPortRequest) (s : State)
        → get u s.result ≡ some p
        → get u (keep_all existing start end rs s).result ≡ some p
    unfolding keep_all
    keep_all-grows u p [] s h = h
    keep_all-grows u p (r ∷ rs) s h =
        keep_all-grows u p rs (keep existing start end r s) (keep-grows u p r s h)

    pub keep-other :
        (u : String) (r : LinkPortRequest) (s : State)
        → r.uid ≢ u
        → get u (keep existing start end r s).result ≡ get u s.result
    unfolding assign
    keep-other u r s ne = elim (keep_cases start end existing r s) [
      | inl e ↦ rw e refl
      | inr (q, _, _, _, _, e) ↦ rw e (ground (arith, get-put r.uid u q s.result, eq_iff r.uid u))
    ]

    -- Nor does it write for a UID that no request has.
    pub keep_all-other :
        (u : String) (rs : List LinkPortRequest) (s : State)
        → request_of u rs ≡ none
        → get u (keep_all existing start end rs s).result ≡ get u s.result
    unfolding keep_all request_of
    keep_all-other u [] s h = refl
    keep_all-other u (r ∷ rs) s h =
        keep_all-other u rs (keep existing start end r s) (ground arith)
        ∙ keep-other u r s (ground (arith, eq_iff r.uid u))

  module _ (n : ℕ) where
    fill-grows :
        (u : String) (p : ℤ) (r : LinkPortRequest) (s t : State) (next after : ℤ)
        → fill start end n r (s, next) ≡ ok (t, after)
        → get u s.result ≡ some p
        → get u t.result ≡ some p
    unfolding assign
    fill-grows u p r s t next after h e = elim (fill_cases start end n r s t next after h) [
      | inl (_, e', _) ↦ rw e' e
      | inr (q, fresh, _, e') ↦ rw e' (ground (arith, get-put r.uid u q s.result, eq_iff r.uid u))
    ]

    -- The last loop overwrites no port.
    pub fill_all-grows :
        (u : String) (p : ℤ) (rs : List LinkPortRequest) (s t : State) (next after : ℤ)
        → fill_all start end n rs (s, next) ≡ ok (t, after)
        → get u s.result ≡ some p
        → get u t.result ≡ some p
    unfolding fill_all
    fill_all-grows u p [] s t next after h e = ground arith
    fill_all-grows u p (r ∷ rs) s t next after h e =
        let ((s', next'), first, rest) =
          >>=-eq-ok (fill start end n r (s, next)) (fill_all start end n rs) h in
        fill_all-grows u p rs s' t next' after rest (fill-grows u p r s s' next next' first e)

    fill-other :
        (u : String) (r : LinkPortRequest) (s t : State) (next after : ℤ)
        → r.uid ≢ u
        → fill start end n r (s, next) ≡ ok (t, after)
        → get u t.result ≡ get u s.result
    unfolding assign
    fill-other u r s t next after ne h = elim (fill_cases start end n r s t next after h) [
      | inl (_, e', _) ↦ rw e' refl
      | inr (q, _, _, e') ↦ rw e' (ground (arith, get-put r.uid u q s.result, eq_iff r.uid u))
    ]

    pub fill_all-other :
        (u : String) (rs : List LinkPortRequest) (s t : State) (next after : ℤ)
        → request_of u rs ≡ none
        → fill_all start end n rs (s, next) ≡ ok (t, after)
        → get u t.result ≡ get u s.result
    unfolding fill_all request_of
    fill_all-other u [] s t next after none_of h = ground arith
    fill_all-other u (r ∷ rs) s t next after none_of h =
        let ((s', next'), first, rest) =
          >>=-eq-ok (fill start end n r (s, next)) (fill_all start end n rs) h in
        fill_all-other u rs s' t next' after (ground arith) rest
        ∙ fill-other u r s s' next next' (ground (arith, eq_iff r.uid u)) first

    fill-places :
        (r : LinkPortRequest) (s t : State) (next after : ℤ)
        → fill start end n r (s, next) ≡ ok (t, after)
        → is_some (get r.uid t.result) ≡ true
    unfolding assign
    fill-places r s t next after h = elim (fill_cases start end n r s t next after h) [
      | inl (e, e', _) ↦ rw e' e
      | inr (q, _, _, e') ↦
          rw e' (ground (arith, get-put r.uid r.uid q s.result, eq_iff r.uid r.uid))
    ]

    -- After the last loop every request has a port.
    pub fill_all-places :
        (u : String) (rs : List LinkPortRequest) (s t : State) (next after : ℤ)
        → is_some (request_of u rs) ≡ true
        → fill_all start end n rs (s, next) ≡ ok (t, after)
        → is_some (get u t.result) ≡ true
    unfolding fill_all request_of
    fill_all-places u [] s t next after some_of h = cc
    fill_all-places u (r ∷ rs) s t next after some_of h =
        let ((s', next'), first, rest) =
          >>=-eq-ok (fill start end n r (s, next)) (fill_all start end n rs) h in
        elim (Bool-cases (r.uid == u)) [
          | inr other ↦ fill_all-places u rs s' t next' after (ground arith) rest
          | inl same ↦ elim (Option-cases (get u s'.result)) [
            | inr (p, e) ↦ rw (fill_all-grows u p rs s' t next' after rest e) refl
            | inl e ↦ absurd (ground (arith, fill-places r s s' next next' first, eq_iff r.uid u))
          ]
        ]
