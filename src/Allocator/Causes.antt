-- ===== src/Allocator/Causes.antt =====
-- Why ReconcilePorts fails: each of its errors names a cause that is there in its arguments.
use text.Mathlib.TextEquality.{eq_iff}
use tiproxy_machine_operator.Allocator.{
  Found, LinkPortRequest, PortError, State, allocate, assign, cut_off, empty, exhausted, fill,
  fill_all, found, insufficient_ports, invalid_range, invalid_start, keep_all, out_of_fuel, outside,
  outside_range, pin, pin_all, place, port_conflict, reconcile_ports, requests_of, with_name,
}
use tiproxy_machine_operator.Allocator.Capacity.{
  HasRoom, PartOf, PartOf-head, PartOf-tail, assign-HasRoom, keep_all-HasRoom, pin_all-HasRoom,
  ports, ports-le-length, unplaced-le, unplaced-pos,
}
use tiproxy_machine_operator.Allocator.Fill.{FillInv, fill-FillInv, fill_cases, search_of}
use tiproxy_machine_operator.Allocator.Invariant.{
  Inv, empty-PinInv, keep_all-Inv, pin_all-PinInv, pin_cases,
}
use tiproxy_machine_operator.Allocator.Loops.{requested}
use tiproxy_machine_operator.Allocator.Requests.{
  Distinct, request_of, request_of-requests_of, requests_of-Distinct,
}
use tiproxy_machine_operator.Allocator.Search.{Finds, find_next_lem}
use tiproxy_machine_operator.Prelude.{
  >>=-eq-err, Bool-cases, List, Option-cases, String, [], arith, eqz, eqz_iff, err, inl, inr,
  int_eq, is_some, length, lez, ltz, max_int32, none, ok, pos, refl, some, string_eq, subst, true,
  ℤ, ◌<ℤ◌, ◌<◌, ◌∷◌, ◌≡◌, ◌≢◌, ◌≤ℤ◌, ◌≤◌,
}
use tiproxy_machine_operator.Prelude.Assoc.{Map, get, get-put}

-- What each error says of the arguments. There is no cause for `out_of_fuel`.
unfoldable pub Cause : List LinkPortRequest → ℤ → ℤ → PortError → Type 0
Cause reqs start end (invalid_start s) = (s ≡ start) × (start ≤ℤ pos 0)
Cause reqs start end (invalid_range s e) = (s ≡ start) × (e ≡ end) × (end <ℤ start)
Cause reqs start end (outside_range name p s e) =
    (v : String) × (requested v reqs ≡ some p) × (outside p start end ≡ true)
Cause reqs start end (port_conflict p prev name) =
    (v : String) × (w : String) × (v ≢ w)
    × (requested v reqs ≡ some p)
    × (requested w reqs ≡ some p)
Cause reqs start end (insufficient_ports s e n) =
    (n ≡ length (requests_of reqs)) × (ports start end < n)
Cause reqs start end out_of_fuel = ⊥

module _ (reqs : List LinkPortRequest) (start end : ℤ) where
  all : List LinkPortRequest
  all = requests_of reqs

  all-Distinct : Distinct all
  unfolding all
  all-Distinct = requests_of-Distinct reqs

  asks-requested :
      (v : String) (r : LinkPortRequest) (p : ℤ)
      → request_of v all ≡ some r
      → r.requested_port ≡ some p
      → requested v reqs ≡ some p
  unfolding all with_name
  asks-requested v r p e asks = ground (arith, request_of-requests_of v reqs)

  -- The requested ports met so far are those of requests that are behind the loop.
  abbrev Remembers : List LinkPortRequest → State → Type 0
  Remembers sub s =
      (p : ℤ) (prev : LinkPortRequest)
      → get p s.requested_by_port ≡ some prev
      → (requested prev.uid reqs ≡ some p) × (request_of prev.uid sub ≡ none)

  pin-Cause :
      (rs : List LinkPortRequest) (r : LinkPortRequest) (s : State) (e : PortError)
      → PartOf all (r ∷ rs)
      → Remembers (r ∷ rs) s
      → pin start end r s ≡ err e
      → Cause reqs start end e
  unfolding pin request_of Cause
  pin-Cause rs r s e part mem h = elim (Option-cases r.requested_port) [
    | inl n ↦ ground arith
    | inr (p, asks) ↦
        let claimed : requested r.uid reqs ≡ some p =
          asks-requested r.uid r p (PartOf-head all rs r part) asks in
        elim (Bool-cases (outside p start end)) [
          | inl far ↦
              let made : outside_range r.name p start end ≡ e = ground arith in
              rw (← made) (r.uid, claimed, far)
          | inr near ↦ elim (Option-cases (get p s.requested_by_port)) [
            | inl fresh ↦ ground arith
            | inr (prev, met) ↦
                let made : port_conflict p prev.name r.name ≡ e = ground arith in
                let (claimed', behind) = mem p prev met in
                rw (← made)
                  (prev.uid, r.uid, ground (arith, eq_iff r.uid prev.uid), claimed', claimed)
          ]
        ]
  ]

  pin-Remembers :
      (rs : List LinkPortRequest) (r : LinkPortRequest) (s t : State)
      → Distinct (r ∷ rs)
      → PartOf all (r ∷ rs)
      → Remembers (r ∷ rs) s
      → pin start end r s ≡ ok t
      → Remembers rs t
  unfolding request_of assign
  pin-Remembers rs r s t d part mem h p prev = elim (pin_cases start end r s t h) [
    | inl (_, e) ↦ rw e (λ met. let (c, b) = mem p prev met in (c, ground arith))
    | inr (q, asks, _, _, e) ↦ rw e (λ met. elim (Bool-cases (eqz q p)) [
      | inl same ↦
          let first : r ≡ prev = ground (arith, get-put q p r s.requested_by_port) in
          subst (λ x. (requested x.uid reqs ≡ some p) × (request_of x.uid rs ≡ none)) first
            (
              asks-requested r.uid r p (PartOf-head all rs r part) (ground (arith, eqz_iff q p)),
              d.0,
            )
      | inr other ↦
          let met' : get p s.requested_by_port ≡ some prev =
            ground (arith, get-put q p r s.requested_by_port) in
          let (c, b) = mem p prev met' in (c, ground arith)
    ])
  ]

  pin_all-Cause :
      (rs : List LinkPortRequest) (s : State) (e : PortError)
      → Distinct rs
      → PartOf all rs
      → Remembers rs s
      → pin_all start end rs s ≡ err e
      → Cause reqs start end e
  unfolding pin_all
  pin_all-Cause [] s e d part mem h = absurd (cc)
  pin_all-Cause (r ∷ rs) s e d part mem h =
      elim (>>=-eq-err (pin start end r s) (pin_all start end rs) h) [
        | inl first ↦ pin-Cause rs r s e part mem first
        | inr (s', first, rest) ↦
            pin_all-Cause rs s' e d.1 (PartOf-tail all rs r d part)
              (pin-Remembers rs r s s' d part mem first) rest
      ]

  place-Cause :
      (u : String) (s : State) (next : ℤ) (e : PortError) (f : Found)
      → pos 0 <ℤ start
      → is_some (request_of u all) ≡ true
      → get u s.result ≡ none
      → FillInv start end (length all) s next
      → HasRoom all s
      → Finds next end s.used f
      → place u start end (length all) s f ≡ err e
      → Cause reqs start end e
  unfolding Cause all
  place-Cause u s next e (found p after) positive mine unset i room f h = absurd (cc)
  place-Cause u s next e cut_off positive mine unset i room f h = absurd f
  place-Cause u s next e exhausted positive mine unset i room f h =
      let made : insufficient_ports start end (length (requests_of reqs)) ≡ e = ground arith in
      let full : ports start end ≤ length s.used =
        ports-le-length start end s.used positive (λ q lo hi. elim (Bool-cases (ltz q next)) [
          | inl behind ↦ i.passed q lo (ground arith)
          | inr ahead ↦ f q (ground arith) hi
        ]) in
      rw (← made) (refl, omega (arith, unplaced-pos u (requests_of reqs) s.result mine unset))

  fill-HasRoom :
      (r : LinkPortRequest) (s t : State) (next after : ℤ)
      → is_some (request_of r.uid all) ≡ true
      → HasRoom all s
      → fill start end (length all) r (s, next) ≡ ok (t, after)
      → HasRoom all t
  fill-HasRoom r s t next after mine room h =
      elim (fill_cases start end (length all) r s t next after h) [
        | inl (_, e, _) ↦ rw e room
        | inr (p, unset, _, e) ↦ rw e (assign-HasRoom all r.uid p s mine unset room)
      ]

  -- A round of the last loop fails only where every port of the range is used.
  fill-Cause :
      (r : LinkPortRequest) (s : State) (next : ℤ) (e : PortError)
      → pos 0 <ℤ start
      → end <ℤ max_int32
      → is_some (request_of r.uid all) ≡ true
      → FillInv start end (length all) s next
      → HasRoom all s
      → fill start end (length all) r (s, next) ≡ err e
      → Cause reqs start end e
  unfolding fill Cause all
  fill-Cause r s next e positive below mine i room h = elim (Option-cases (get r.uid s.result)) [
    | inr (q, set) ↦ absurd (ground arith)
    | inl unset ↦
        place-Cause r.uid s next e (search_of end (s, next)) positive mine unset i room
          (find_next_lem next end s.used below) (ground arith)
  ]

  fill_all-Cause :
      (rs : List LinkPortRequest) (s : State) (next : ℤ) (e : PortError)
      → pos 0 <ℤ start
      → end <ℤ max_int32
      → Distinct rs
      → PartOf all rs
      → FillInv start end (length all) s next
      → HasRoom all s
      → fill_all start end (length all) rs (s, next) ≡ err e
      → Cause reqs start end e
  unfolding fill_all
  fill_all-Cause [] s next e positive below d part i room h = absurd (cc)
  fill_all-Cause (r ∷ rs) s next e positive below d part i room h =
      let mine : is_some (request_of r.uid all) ≡ true = rw (PartOf-head all rs r part) refl in
      elim (>>=-eq-err (fill start end (length all) r (s, next))
        (fill_all start end (length all) rs) h) [
          | inl first ↦ fill-Cause r s next e positive below mine i room first
          | inr ((s', next'), first, rest) ↦
              fill_all-Cause rs s' next' e positive below d.1 (PartOf-tail all rs r d part)
                (fill-FillInv start end (length all) r s s' next next' below i first)
                (fill-HasRoom r s s' next next' mine room first) rest
        ]

  allocate-Cause :
      (existing : Map String ℤ) (e : PortError)
      → pos 0 <ℤ start
      → end <ℤ max_int32
      → start ≤ℤ end
      → allocate existing all start end ≡ err e
      → Cause reqs start end e
  unfolding allocate get
  allocate-Cause existing e positive below ordered h =
      elim (>>=-eq-err (pin_all start end all empty) _ h) [
        | inl first ↦
            pin_all-Cause all empty e all-Distinct (λ v r x. x) (λ p prev x. absurd (cc)) first
        | inr (pinned, pins, rest) ↦
            let room : HasRoom all pinned =
              pin_all-HasRoom start end all all empty pinned all-Distinct (λ v r x. x) (λ v x. refl)
                pins (omega (arith, unplaced-le all [])) in
            let inv : Inv start end (keep_all existing start end all pinned) =
              keep_all-Inv start end existing all pinned
                (pin_all-PinInv start end all empty pinned (empty-PinInv start end) pins).inv in
            elim (>>=-eq-err
              (fill_all start end (length all) all (keep_all existing start end all pinned, start))
              _ rest) [
                | inr (filled, _, last) ↦ absurd (cc)
                | inl second ↦
                    fill_all-Cause all (keep_all existing start end all pinned) start e positive
                      below all-Distinct (λ v r x. x)
                      (record {
                        inv = inv;
                        from = omega arith;
                        passed = λ q lo hi. absurd (omega arith);
                      })
                      (keep_all-HasRoom start end all existing all pinned all-Distinct (λ v r x. x)
                        room)
                      second
              ]
      ]

-- Whenever ReconcilePorts fails, what its error says is so: the start is not positive, the end is
-- below the start, a requested port is outside the range, two UIDs request one port, or the range
-- has fewer ports than there are UIDs. Its search is never cut off. The range must not end at the
-- largest int32.
pub reconcile_ports-Cause :
    (existing : Map String ℤ) (reqs : List LinkPortRequest) (start end : ℤ) (e : PortError)
    → end <ℤ max_int32
    → reconcile_ports existing reqs start end ≡ err e
    → Cause reqs start end e
unfolding reconcile_ports Cause all
reconcile_ports-Cause existing reqs start end e below h = elim (Bool-cases (lez start (pos 0))) [
  | inl low ↦ let made : invalid_start start ≡ e = ground arith in rw (← made) (refl, ground arith)
  | inr positive ↦ elim (Bool-cases (ltz end start)) [
    | inl turned ↦
        let made : invalid_range start end ≡ e = ground arith in
        rw (← made) (refl, refl, ground arith)
    | inr ordered ↦
        allocate-Cause reqs start end existing e (ground arith) below (ground arith) (ground arith)
  ]
]
