-- ===== src/Allocator/Overflow.antt =====
-- What ReconcilePorts does where its range ends at the largest int32, as `Validate` allows.
use text.Mathlib.TextEquality.{eq_iff}
use tiproxy_machine_operator.Allocator.{
  LinkPortRequest, allocate, assign, collect, fill, fill_all, find_next, keep, keep_all, pin,
  pin_all, reconcile_ports, request_less, requests_of, with_name,
}
use tiproxy_machine_operator.Prelude.{
  Bool-cases, List, String, [], arith, if◌then◌else◌, inc_int32, inl, inr, insert_by, int_eq,
  max_int32, min_int32, none, ok, refl, some, sort_by, string_eq, ℤ, ◌∷◌, ◌≡◌, ◌≢◌, ◌⊎◌,
}
use tiproxy_machine_operator.Prelude.Assoc.{Map, contains, get, put}

module _ (a b : LinkPortRequest) where
  abbrev pub two_requests : List LinkPortRequest
  two_requests = a ∷ b ∷ []

  -- The loops, whichever of the two comes first.
  wraps_in_order :
      a.uid ≢ b.uid
      → a.requested_port ≡ none
      → b.requested_port ≡ none
      → allocate [] two_requests max_int32 max_int32
        ≡ ok ((a.uid, max_int32) ∷ (b.uid, min_int32) ∷ [])
  unfolding allocate pin_all pin keep_all keep assign get put fill_all fill find_next inc_int32
      contains
  wraps_in_order ne qa qb = ground (arith, eq_iff a.uid b.uid)

module _ (a b : LinkPortRequest) (ne : a.uid ≢ b.uid) where
  sorted_two : requests_of (two_requests a b) ≡ (
      if request_less (with_name b) (with_name a)
      then two_requests (with_name b) (with_name a)
      else two_requests (with_name a) (with_name b))
  unfolding requests_of collect contains sort_by insert_by
  sorted_two = ground (arith, eq_iff a.uid b.uid)

  wraps_forward :
      a.requested_port ≡ none
      → b.requested_port ≡ none
      → allocate [] (two_requests (with_name a) (with_name b)) max_int32 max_int32
        ≡ ok ((a.uid, max_int32) ∷ (b.uid, min_int32) ∷ [])
  unfolding with_name
  wraps_forward qa qb = ground (arith, wraps_in_order (with_name a) (with_name b))

  wraps_backward :
      a.requested_port ≡ none
      → b.requested_port ≡ none
      → allocate [] (two_requests (with_name b) (with_name a)) max_int32 max_int32
        ≡ ok ((b.uid, max_int32) ∷ (a.uid, min_int32) ∷ [])
  unfolding with_name
  wraps_backward qa qb = ground (arith, wraps_in_order (with_name b) (with_name a))

-- `next++` wraps: with no existing allocation, over the range of the one port 2147483647, of two
-- requests of different UIDs without wishes neither is refused, and one of the two UIDs (the one
-- that is sorted second) is given the port -2147483648.
pub reconcile_ports-wraps :
    (a b : LinkPortRequest)
    → a.uid ≢ b.uid
    → a.requested_port ≡ none
    → b.requested_port ≡ none
    → (m : Map String ℤ) × (u : String) × (reconcile_ports [] (two_requests a b) max_int32 max_int32
        ≡ ok m)
      × ((u ≡ a.uid) ⊎ (u ≡ b.uid))
      × (get u m ≡ some min_int32)
unfolding reconcile_ports get
reconcile_ports-wraps a b ne qa qb = elim (Bool-cases (request_less (with_name b) (with_name a))) [
  | inl swap ↦ (
    (b.uid, max_int32) ∷ (a.uid, min_int32) ∷ [],
    a.uid,
    rw (sorted_two a b ne, swap) (wraps_backward a b ne qa qb),
    inl refl,
    ground (arith, eq_iff b.uid a.uid, eq_iff a.uid a.uid),
  )
  | inr stay ↦ (
    (a.uid, max_int32) ∷ (b.uid, min_int32) ∷ [],
    b.uid,
    rw (sorted_two a b ne, stay) (wraps_forward a b ne qa qb),
    inr refl,
    ground (arith, eq_iff a.uid b.uid, eq_iff b.uid b.uid),
  )
]
