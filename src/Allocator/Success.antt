-- ===== src/Allocator/Success.antt =====
-- When ReconcilePorts succeeds.
use tiproxy_machine_operator.Allocator.{
  LinkPortRequest, PortError, insufficient_ports, invalid_range, invalid_start, out_of_fuel,
  outside_range, port_conflict, reconcile_ports, requests_of,
}
use tiproxy_machine_operator.Allocator.Capacity.{ports}
use tiproxy_machine_operator.Allocator.Causes.{Cause, reconcile_ports-Cause}
use tiproxy_machine_operator.Allocator.Invariant.{InRange-outside}
use tiproxy_machine_operator.Allocator.Loops.{requested}
use tiproxy_machine_operator.Prelude.{
  List, Result-cases, String, arith, inl, inr, length, max_int32, ok, pos, some, ℤ, ◌<ℤ◌, ◌≡◌, ◌≤ℤ◌,
  ◌≤◌,
}
use tiproxy_machine_operator.Prelude.Assoc.{Map}

-- ReconcilePorts succeeds where nothing stands against it: a range of positive ports that does
-- not end at the largest int32 and has a port for each UID, and requested ports in the range, no
-- two UIDs with the same.
pub reconcile_ports-succeeds :
    (existing : Map String ℤ) (reqs : List LinkPortRequest) (start end : ℤ)
    → pos 0 <ℤ start
    → start ≤ℤ end
    → end <ℤ max_int32
    → length (requests_of reqs) ≤ ports start end
    → ((v : String) (p : ℤ) → requested v reqs ≡ some p → (start ≤ℤ p) × (p ≤ℤ end))
    → ((v w : String) (p : ℤ) → requested v reqs ≡ some p → requested w reqs ≡ some p → v ≡ w)
    → (m : Map String ℤ) × (reconcile_ports existing reqs start end ≡ ok m)
unfolding Cause
reconcile_ports-succeeds existing reqs start end positive ordered below room inside apart =
    elim (Result-cases (reconcile_ports existing reqs start end)) [
      | inl done ↦ done
      | inr (e, failed) ↦
          absurd (no_cause e (reconcile_ports-Cause existing reqs start end e below failed))
    ]
  where
    no_cause : (e : PortError) → Cause reqs start end e → ⊥
    no_cause (invalid_start s) c = omega (arith, c.1)
    no_cause (invalid_range s f) c = omega (arith, c.2)
    no_cause (outside_range name p s f) (v, asks, far) =
        cc (far, InRange-outside start end p (inside v p asks))
    no_cause (port_conflict p prev name) (v, w, ne, a, b) = ne (apart v w p a b)
    no_cause (insufficient_ports s f n) c = omega (arith, c.0, c.1)
    no_cause out_of_fuel c = c
