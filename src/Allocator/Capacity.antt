-- ===== src/Allocator/Capacity.antt =====
-- Counting for ReconcilePorts: used ports against requests, and against the size of the range.
use text.Mathlib.TextEquality.{eq_iff}
use tiproxy_machine_operator.Allocator.{
  LinkPortRequest, State, assign, keep, keep_all, pin, pin_all,
}
use tiproxy_machine_operator.Allocator.Invariant.{keep_cases, pin_cases}
use tiproxy_machine_operator.Allocator.Loops.{pin-result}
use tiproxy_machine_operator.Allocator.Requests.{Distinct, request_of}
use tiproxy_machine_operator.Prelude.{
  >>=-eq-ok, List, String, [], ap, arith, eqz_iff, filter_by, if◌then◌else◌, inl, inr, int_eq,
  is_some, length, nat_eq, negsuc, none, not, ok, pos, pos_part, refl, some, string_eq, subst, suc,
  true, zero, ℕ, ℤ, ◌+◌, ◌-◌, ◌<ℤ◌, ◌<◌, ◌==◌, ◌∷◌, ◌≡◌, ◌≢◌, ◌≤ℤ◌, ◌≤◌,
}
use tiproxy_machine_operator.Prelude.Assoc.{Map, contains, get, get-put, put}

-- How many ports a range with a positive start has.
abbrev pub ports : ℤ → ℤ → ℕ
ports start end = pos_part end + 1 - pos_part start

drop_port : ℤ → List ℤ → List ℤ
drop_port x [] = []
drop_port x (y ∷ ys) = if y == x then ys else y ∷ drop_port x ys

length-drop_port :
    (x : ℤ) (ys : List ℤ) → contains ys x ≡ true → suc (length (drop_port x ys)) ≡ length ys
unfolding drop_port contains
length-drop_port x [] h = absurd (cc)
length-drop_port x (y ∷ ys) h = ground (arith, length-drop_port x ys)

contains-drop_port :
    (x z : ℤ) (ys : List ℤ) → x ≢ z → contains ys z ≡ true → contains (drop_port x ys) z ≡ true
unfolding drop_port contains
contains-drop_port x z [] ne h = h
contains-drop_port x z (y ∷ ys) ne h =
    ground (arith, contains-drop_port x z ys, eqz_iff y x, eqz_iff y z)

-- A run of k used ports takes k entries.
covered-length :
    (k a : ℕ) (used : List ℤ)
    → ((i : ℕ) → a ≤ i → i < a + k → contains used (pos i) ≡ true)
    → k ≤ length used
covered-length zero a used h = omega arith
covered-length (suc k) a used h =
    let last : contains used (pos (a + k)) ≡ true = h (a + k) (omega arith) (omega arith) in
    let rest : k ≤ length (drop_port (pos (a + k)) used) =
      covered-length k a (drop_port (pos (a + k)) used) (λ i lo hi.
        contains-drop_port (pos (a + k)) (pos i) used (λ e. absurd (omega (arith, ap pos_part e)))
          (h i lo (omega arith))) in
    omega (arith, length-drop_port (pos (a + k)) used last)

counted_in_range :
    (end : ℤ) (a i : ℕ) → 0 < a → a ≤ i → i < a + (pos_part end + 1 - a) → pos i ≤ℤ end
counted_in_range (pos e) a i h lo hi = omega arith
counted_in_range (negsuc e) a i h lo hi = absurd (omega arith)

-- A range whose ports are all used has no more ports than the list has entries.
pub ports-le-length :
    (start end : ℤ) (used : List ℤ)
    → pos 0 <ℤ start
    → ((q : ℤ) → start ≤ℤ q → q ≤ℤ end → contains used q ≡ true)
    → ports start end ≤ length used
ports-le-length start end used positive all =
    covered-length (ports start end) (pos_part start) used (λ i lo hi.
      all (pos i) (omega arith) (counted_in_range end (pos_part start) i (omega arith) lo hi))

-- How many of the requests have no port yet.
abbrev pub unplaced : List LinkPortRequest → Map String ℤ → ℕ
unplaced rs m = length (filter_by (λ r. not (is_some (get r.uid m))) rs)

pub unplaced-le : (rs : List LinkPortRequest) (m : Map String ℤ) → unplaced rs m ≤ length rs
unplaced-le [] m = omega arith
unplaced-le (r ∷ rs) m = ground (arith, unplaced-le rs m)

unplaced-put-le :
    (u : String) (p : ℤ) (rs : List LinkPortRequest) (m : Map String ℤ)
    → unplaced rs (put u p m) ≤ unplaced rs m
unplaced-put-le u p [] m = omega arith
unplaced-put-le u p (r ∷ rs) m = ground (arith, unplaced-put-le u p rs m, get-put u r.uid p m)

-- To place a request leaves fewer of them.
pub unplaced-put :
    (u : String) (p : ℤ) (rs : List LinkPortRequest) (m : Map String ℤ)
    → is_some (request_of u rs) ≡ true
    → get u m ≡ none
    → unplaced rs (put u p m) < unplaced rs m
unfolding request_of
unplaced-put u p [] m h unset = absurd (cc)
unplaced-put u p (r ∷ rs) m h unset = ground (
  arith,
  unplaced-put u p rs m,
  unplaced-put-le u p rs m,
  get-put u r.uid p m,
  eq_iff r.uid u,
  eq_iff u r.uid,
)

pub unplaced-pos :
    (u : String) (rs : List LinkPortRequest) (m : Map String ℤ)
    → is_some (request_of u rs) ≡ true
    → get u m ≡ none
    → 0 < unplaced rs m
unplaced-pos u rs m h unset = omega (arith, unplaced-put u (pos 0) rs m h unset)

-- The used ports and the requests still to place are no more than the requests.
abbrev pub HasRoom : List LinkPortRequest → State → Type 0
HasRoom rs s = length s.used + unplaced rs s.result ≤ length rs

pub assign-HasRoom :
    (rs : List LinkPortRequest) (u : String) (p : ℤ) (s : State)
    → is_some (request_of u rs) ≡ true
    → get u s.result ≡ none
    → HasRoom rs s
    → HasRoom rs (assign u p s)
unfolding assign
assign-HasRoom rs u p s h unset room = omega (arith, unplaced-put u p rs s.result h unset)

-- `sub` is what a loop over `all` has still to do.
abbrev pub PartOf : List LinkPortRequest → List LinkPortRequest → Type 0
PartOf all sub =
    (v : String) (r : LinkPortRequest) → request_of v sub ≡ some r → request_of v all ≡ some r

pub PartOf-tail :
    (all rs : List LinkPortRequest) (r : LinkPortRequest)
    → Distinct (r ∷ rs)
    → PartOf all (r ∷ rs)
    → PartOf all rs
unfolding request_of
PartOf-tail all rs r d part v r' h = part v r' (ground (arith, eq_iff r.uid v))

pub PartOf-head :
    (all rs : List LinkPortRequest) (r : LinkPortRequest)
    → PartOf all (r ∷ rs)
    → request_of r.uid all ≡ some r
unfolding request_of
PartOf-head all rs r part = part r.uid r (ground (arith, eq_iff r.uid r.uid))

module _ (start end : ℤ) (all : List LinkPortRequest) where
  pub pin_all-HasRoom :
      (rs : List LinkPortRequest) (s t : State)
      → Distinct rs
      → PartOf all rs
      → ((v : String) → is_some (request_of v rs) ≡ true → get v s.result ≡ none)
      → pin_all start end rs s ≡ ok t
      → HasRoom all s
      → HasRoom all t
  unfolding pin_all request_of
  pin_all-HasRoom [] s t d part unset h room =
      subst (HasRoom all) {x = s} {y = t} (ground arith) room
  pin_all-HasRoom (r ∷ rs) s t d part unset h room =
      let (s', first, rest) = >>=-eq-ok (pin start end r s) (pin_all start end rs) h in
      pin_all-HasRoom rs s' t d.1 (PartOf-tail all rs r d part)
        (λ v some_of. ground (arith, pin-result start end v r s s' first, unset v, eq_iff r.uid v))
        rest
        (elim (pin_cases start end r s s' first) [
          | inl (_, e) ↦ rw e room
          | inr (p, _, _, _, e) ↦ rw e (
              assign-HasRoom all r.uid p
                (record s { requested_by_port = put p r s.requested_by_port })
                (rw (PartOf-head all rs r part) refl)
                (unset r.uid (ground (arith, eq_iff r.uid r.uid))) room)
        ])

  pub keep_all-HasRoom :
      (existing : Map String ℤ) (rs : List LinkPortRequest) (s : State)
      → Distinct rs
      → PartOf all rs
      → HasRoom all s
      → HasRoom all (keep_all existing start end rs s)
  unfolding keep_all
  keep_all-HasRoom existing [] s d part room = room
  keep_all-HasRoom existing (r ∷ rs) s d part room =
      keep_all-HasRoom existing rs (keep existing start end r s) d.1 (PartOf-tail all rs r d part)
        (elim (keep_cases start end existing r s) [
          | inl e ↦ rw e room
          | inr (p, unset, _, _, _, e) ↦
              rw e (assign-HasRoom all r.uid p s (rw (PartOf-head all rs r part) refl) unset room)
        ])
