-- ===== src/Allocator/Answers.antt =====
-- Who gets a port from ReconcilePorts, and which: every UID with a request and nobody else; the
-- port of a first request is granted; an existing port stays where it can.
use tiproxy_machine_operator.Allocator.{
  LinkPortRequest, empty, keep_all, reconcile_ports, requests_of, with_name,
}
use tiproxy_machine_operator.Allocator.Loops.{
  fill_all-grows, fill_all-other, fill_all-places, keep_all-grows, keep_all-other, pin_all-result,
  requested,
}
use tiproxy_machine_operator.Allocator.Requests.{
  request_of, request_of-requests_of, requests_of-Distinct,
}
use tiproxy_machine_operator.Allocator.Safety.{Run, reconcile_ports-Run}
use tiproxy_machine_operator.Prelude.{
  List, Option-cases, String, arith, inl, inr, int_eq, is_some, length, none, ok, refl, some,
  string_eq, true, ℤ, ◌∙◌, ◌≡◌,
}
use tiproxy_machine_operator.Prelude.Assoc.{Map, get}

pub requested-requests_of :
    (reqs : List LinkPortRequest) (u : String) → requested u (requests_of reqs) ≡ requested u reqs
unfolding with_name
requested-requests_of reqs u = ground (arith, request_of-requests_of u reqs)

module _ (existing : Map String ℤ) (reqs : List LinkPortRequest) (start end : ℤ) (m : Map String ℤ)
    (h : reconcile_ports existing reqs start end ≡ ok m) (u : String) where
  abbrev pub run : Run existing reqs start end m
  run = reconcile_ports-Run existing reqs start end m h

  pub pinned-port : get u run.pinned.result ≡ requested u reqs
  unfolding get
  pinned-port = ground (
    arith,
    pin_all-result start end u (requests_of reqs) empty run.pinned (requests_of-Distinct reqs)
        run.pins,
    requested-requests_of reqs u,
  )

  -- What stands after the third loop is returned.
  pub kept-returned :
      (p : ℤ)
      → get u (keep_all existing start end (requests_of reqs) run.pinned).result ≡ some p
      → get u m ≡ some p
  kept-returned p e = rw run.returned (
      fill_all-grows start end (length (requests_of reqs)) u p (requests_of reqs)
        (keep_all existing start end (requests_of reqs) run.pinned) run.filled start run.after
        run.fills e)

  request-placed : is_some (request_of u reqs) ≡ true → is_some (get u m) ≡ true
  request-placed some_of = rw run.returned (
      fill_all-places start end (length (requests_of reqs)) u (requests_of reqs)
        (keep_all existing start end (requests_of reqs) run.pinned) run.filled start run.after
        (ground (arith, request_of-requests_of u reqs)) run.fills)

  stranger-unplaced : request_of u reqs ≡ none → get u m ≡ none
  stranger-unplaced none_of =
      let absent : request_of u (requests_of reqs) ≡ none =
        ground (arith, request_of-requests_of u reqs) in
      rw run.returned (
        fill_all-other start end (length (requests_of reqs)) u (requests_of reqs)
          (keep_all existing start end (requests_of reqs) run.pinned) run.filled start run.after
          absent run.fills
        ∙ keep_all-other start end existing u (requests_of reqs) run.pinned absent
        ∙ ground (arith, pinned-port))

-- ReconcilePorts gives a port to exactly the UIDs that some request has.
pub reconcile_ports-domain :
    (existing : Map String ℤ) (reqs : List LinkPortRequest) (start end : ℤ) (m : Map String ℤ)
    → reconcile_ports existing reqs start end ≡ ok m
    → (u : String) → is_some (get u m) ≡ is_some (request_of u reqs)
reconcile_ports-domain existing reqs start end m h u = elim (Option-cases (request_of u reqs)) [
  | inl e ↦ rw (e, stranger-unplaced existing reqs start end m h u e) refl
  | inr (r, e) ↦ rw e (request-placed existing reqs start end m h u (rw e refl))
]

-- When ReconcilePorts succeeds, a UID whose first request asks for a port has that port. Only the
-- first request of a UID counts.
pub reconcile_ports-requested :
    (existing : Map String ℤ) (reqs : List LinkPortRequest) (start end : ℤ) (m : Map String ℤ)
    → reconcile_ports existing reqs start end ≡ ok m
    → (u : String) (p : ℤ) → requested u reqs ≡ some p
    → get u m ≡ some p
reconcile_ports-requested existing reqs start end m h u p e =
    let r = reconcile_ports-Run existing reqs start end m h in
    kept-returned existing reqs start end m h u p (
      keep_all-grows start end existing u p (requests_of reqs) r.pinned
        (pinned-port existing reqs start end m h u ∙ e))
