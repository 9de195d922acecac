-- ===== src/Allocator/Examples.antt =====
-- ReconcilePorts at the inputs of internal/portallocator/allocator_test.go and at its edges.
use text.Mathlib.TextEquality.{eq_iff}
use tiproxy_machine_operator.Prelude.{
  List, Option, String, [], arith, err, inc_int32, int_eq, is_some, length, max_int32, min_int32,
  none, ok, pos, refl, some, sort_by, string_eq, ℤ, ◌∷◌, ◌≡◌, ◌≢◌, ◌≤ℤ◌, ◌≤◌, ◌⊎◌,
}
use tiproxy_machine_operator.Allocator.{
  LinkPortRequest, assign, collect, fill, fill_all, find_next, insufficient_ports, keep, keep_all,
  pin, pin_all, reconcile_ports, request_less, requests_of,
}
use tiproxy_machine_operator.Allocator.Answers.{reconcile_ports-domain, reconcile_ports-requested}
use tiproxy_machine_operator.Allocator.Capacity.{ports}
use tiproxy_machine_operator.Allocator.Causes.{Cause, reconcile_ports-Cause}
use tiproxy_machine_operator.Allocator.Loops.{requested}
use tiproxy_machine_operator.Allocator.Overflow.{reconcile_ports-wraps, two_requests}
use tiproxy_machine_operator.Allocator.Requests.{request_of}
use tiproxy_machine_operator.Allocator.Safety.{reconcile_ports-InRange, reconcile_ports-injective}
use tiproxy_machine_operator.Allocator.Stability.{
  reconcile_ports-idempotent, reconcile_ports-stable,
}
use tiproxy_machine_operator.Allocator.Success.{reconcile_ports-succeeds}
use tiproxy_machine_operator.Prelude.Assoc.{Map, contains, get, put}

abbrev link : String → String → Option ℤ → LinkPortRequest
link uid name port = record { uid = uid; name = name; requested_port = port }

abbrev three_links : List LinkPortRequest
three_links = link "a" "ns/a" none ∷ link "b" "ns/b" none ∷ link "c" "ns/c" none ∷ []

abbrev existing_ports : Map String ℤ
existing_ports = ("a", pos 4001) ∷ ("b", pos 4999) ∷ []

abbrev granted : Map String ℤ
granted = ("a", pos 4001) ∷ ("b", pos 4000) ∷ ("c", pos 4002) ∷ []

keeps_existing : reconcile_ports existing_ports three_links (pos 4000) (pos 4002) ≡ ok granted
unfolding reconcile_ports requests_of collect contains sort_by request_less pin_all pin keep_all
    keep assign get put fill_all fill find_next inc_int32
keeps_existing = refl

too_few :
    reconcile_ports [] three_links (pos 4000) (pos 4001)
    ≡ err (insufficient_ports (pos 4000) (pos 4001) 3)
unfolding reconcile_ports requests_of collect contains sort_by request_less pin_all pin keep_all
    keep assign get put fill_all fill find_next inc_int32
too_few = refl

abbrev wishing_links : List LinkPortRequest
wishing_links = link "a" "ns/a" none ∷ link "b" "ns/b" (some (pos 4001)) ∷ []

abbrev wished : Map String ℤ
wished = ("b", pos 4001) ∷ ("a", pos 4000) ∷ []

grants_wish : reconcile_ports existing_ports wishing_links (pos 4000) (pos 4002) ≡ ok wished
unfolding reconcile_ports requests_of collect contains sort_by request_less pin_all pin keep_all
    keep assign get put fill_all fill find_next inc_int32
grants_wish = refl

reconcile_ports-InRange_example : (pos 4000 ≤ℤ pos 4001) × (pos 4001 ≤ℤ pos 4002)
unfolding get
reconcile_ports-InRange_example =
    reconcile_ports-InRange existing_ports three_links (pos 4000) (pos 4002) granted (omega arith)
      keeps_existing "a" (pos 4001) refl

reconcile_ports-injective_example : Path String "b" "b"
unfolding get
reconcile_ports-injective_example =
    reconcile_ports-injective existing_ports three_links (pos 4000) (pos 4002) granted (omega arith)
      keeps_existing "b" "b" (pos 4000) refl refl

reconcile_ports-domain_example : is_some (get "c" granted) ≡ is_some (request_of "c" three_links)
reconcile_ports-domain_example =
    reconcile_ports-domain existing_ports three_links (pos 4000) (pos 4002) granted keeps_existing
      "c"

reconcile_ports-requested_example : get "b" wished ≡ some (pos 4001)
unfolding request_of
reconcile_ports-requested_example =
    reconcile_ports-requested existing_ports wishing_links (pos 4000) (pos 4002) wished grants_wish
      "b" (pos 4001) refl

reconcile_ports-Cause_example :
    Cause three_links (pos 4000) (pos 4001) (insufficient_ports (pos 4000) (pos 4001) 3)
reconcile_ports-Cause_example =
    reconcile_ports-Cause [] three_links (pos 4000) (pos 4001)
      (insufficient_ports (pos 4000) (pos 4001) 3) (omega arith) too_few

reconcile_ports-idempotent_example :
    (m' : Map String ℤ) × (reconcile_ports granted three_links (pos 4000) (pos 4002) ≡ ok m')
    × ((u : String) → get u m' ≡ get u granted)
reconcile_ports-idempotent_example =
    reconcile_ports-idempotent existing_ports three_links (pos 4000) (pos 4002) granted
      (omega arith) keeps_existing

reconcile_ports-wraps_example :
    (m : Map String ℤ) × (u : String) × (reconcile_ports []
        (two_requests (link "a" "ns/a" none) (link "b" "ns/b" none))
        max_int32
        max_int32
      ≡ ok m)
    × ((u ≡ "a") ⊎ (u ≡ "b"))
    × (get u m ≡ some min_int32)
reconcile_ports-wraps_example =
    reconcile_ports-wraps (link "a" "ns/a" none) (link "b" "ns/b" none)
      (ground (arith, eq_iff "a" "b")) refl refl

no_wish : (v : String) (p : ℤ) → requested v three_links ≢ some p
unfolding request_of
no_wish v p h = grind arith

sole_holder : (v : String) → get v existing_ports ≡ some (pos 4001) → v ≡ "a"
unfolding get
sole_holder v h = grind (arith, eq_iff "a" v)

reconcile_ports-stable_example : get "a" granted ≡ some (pos 4001)
unfolding request_of get
reconcile_ports-stable_example =
    reconcile_ports-stable existing_ports three_links (pos 4000) (pos 4002) granted keeps_existing
      "a" (pos 4001) refl refl refl sole_holder (omega arith, omega arith)
      (λ v. no_wish v (pos 4001))

three_fit : length (requests_of three_links) ≤ ports (pos 4000) (pos 4002)
unfolding requests_of collect contains sort_by request_less
three_fit = omega arith

reconcile_ports-succeeds_example :
    (m : Map String ℤ) × (reconcile_ports existing_ports three_links (pos 4000) (pos 4002) ≡ ok m)
reconcile_ports-succeeds_example =
    reconcile_ports-succeeds existing_ports three_links (pos 4000) (pos 4002) (omega arith)
      (omega arith) (omega arith) three_fit (λ v p wish. absurd (no_wish v p wish))
      (λ v w p wish _. absurd (no_wish v p wish))
