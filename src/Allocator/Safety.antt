-- ===== src/Allocator/Safety.antt =====
-- ReconcilePorts, whatever it was given: every port that it hands out is in the range, and no
-- port is handed out twice.
use tiproxy_machine_operator.Allocator.{
  LinkPortRequest, State, allocate, empty, fill_all, keep_all, pin_all, reconcile_ports,
  requests_of,
}
use tiproxy_machine_operator.Allocator.Fill.{fill_all-FillInv}
use tiproxy_machine_operator.Allocator.Invariant.{Inv, empty-PinInv, keep_all-Inv, pin_all-PinInv}
use tiproxy_machine_operator.Prelude.{
  >>=-eq-ok, List, String, arith, int_eq, length, max_int32, ok, pos, some, string_eq, ℤ, ◌<ℤ◌, ◌≡◌,
  ◌≤ℤ◌,
}
use tiproxy_machine_operator.Prelude.Assoc.{Map, get}

-- The stages of a run that ends well.
pub record Run (existing : Map String ℤ) (reqs : List LinkPortRequest) (start end : ℤ)
    (m : Map String ℤ) : Type 0 where
  pub positive : pos 0 <ℤ start
  pub ordered : start ≤ℤ end
  pub pinned : State
  pub filled : State
  pub after : ℤ
  pub pins : pin_all start end (requests_of reqs) empty ≡ ok pinned
  pub fills :
      fill_all start end
        (length (requests_of reqs))
        (requests_of reqs)
        (keep_all existing start end (requests_of reqs) pinned, start)
      ≡ ok (filled, after)
  pub returned : m ≡ filled.result

pub reconcile_ports-Run :
    (existing : Map String ℤ) (reqs : List LinkPortRequest) (start end : ℤ) (m : Map String ℤ)
    → reconcile_ports existing reqs start end ≡ ok m
    → Run existing reqs start end m
unfolding reconcile_ports
reconcile_ports-Run existing reqs start end m h =
    let rs = requests_of reqs in
    let body : allocate existing rs start end ≡ ok m = ground arith in
    let (pinned, pins, rest) = >>=-eq-ok (pin_all start end rs empty) _ body in
    let ((filled, after), fills, last) = >>=-eq-ok (fill_all start end (length rs) rs _) _ rest in
    record {
      positive = ground arith;
      ordered = ground arith;
      pinned = pinned;
      filled = filled;
      after = after;
      pins = pins;
      fills = fills;
      returned = ground arith;
    }

-- The other way round: stages that end well are a run that does.
pub reconcile_ports-of-stages :
    (existing : Map String ℤ) (reqs : List LinkPortRequest) (start end : ℤ) (pinned filled : State)
    (after : ℤ)
    → pos 0 <ℤ start
    → start ≤ℤ end
    → pin_all start end (requests_of reqs) empty ≡ ok pinned
    → fill_all start end
        (length (requests_of reqs))
        (requests_of reqs)
        (keep_all existing start end (requests_of reqs) pinned, start)
      ≡ ok (filled, after)
    → reconcile_ports existing reqs start end ≡ ok filled.result
unfolding reconcile_ports
reconcile_ports-of-stages existing reqs start end pinned filled after positive ordered pins fills =
    ground arith

module _ (existing : Map String ℤ) (reqs : List LinkPortRequest) (start end : ℤ) (m : Map String ℤ)
    (below : end <ℤ max_int32) where
  filled-Inv : (r : Run existing reqs start end m) → Inv start end r.filled
  filled-Inv r =
      (fill_all-FillInv start end (length rs) rs kept r.filled start r.after below
        (record { inv = kept-Inv; from = omega arith; passed = λ q lo hi. absurd (omega arith) })
        r.fills).inv
    where
      rs : List LinkPortRequest
      rs = requests_of reqs

      kept : State
      kept = keep_all existing start end rs r.pinned

      kept-Inv : Inv start end kept
      kept-Inv =
          keep_all-Inv start end existing rs r.pinned
            (pin_all-PinInv start end rs empty r.pinned (empty-PinInv start end) r.pins).inv

-- Every port that a successful ReconcilePorts hands out lies in the range, unless the range
-- ends at the largest int32.
pub reconcile_ports-InRange :
    (existing : Map String ℤ) (reqs : List LinkPortRequest) (start end : ℤ) (m : Map String ℤ)
    → end <ℤ max_int32
    → reconcile_ports existing reqs start end ≡ ok m
    → (u : String) (p : ℤ) → get u m ≡ some p
    → (start ≤ℤ p) × (p ≤ℤ end)
reconcile_ports-InRange existing reqs start end m below h u p e =
    let r = reconcile_ports-Run existing reqs start end m h in
    (filled-Inv existing reqs start end m below r).in_range u p (rw (← r.returned) e)

-- A successful ReconcilePorts never hands one port to two UIDs, unless the range ends at the
-- largest int32.
pub reconcile_ports-injective :
    (existing : Map String ℤ) (reqs : List LinkPortRequest) (start end : ℤ) (m : Map String ℤ)
    → end <ℤ max_int32
    → reconcile_ports existing reqs start end ≡ ok m
    → (u v : String) (p : ℤ) → get u m ≡ some p
    → get v m ≡ some p
    → u ≡ v
reconcile_ports-injective existing reqs start end m below h u v p e e' =
    let r = reconcile_ports-Run existing reqs start end m h in
    (filled-Inv existing reqs start end m below r).distinct u v p (rw (← r.returned) e)
      (rw (← r.returned) e')
