-- ===== src/Allocator.antt =====
-- internal/portallocator/allocator.go
pub mod Invariant
pub mod Search
pub mod Requests
pub mod Fill
pub mod Safety
pub mod Loops
pub mod Answers
pub mod Stability
pub mod Capacity
pub mod Causes
pub mod Success
pub mod Overflow
mod Examples
use tiproxy_machine_operator.Prelude.{
  Bool, List, Option, Result, String, [], err, if◌then◌else◌, inc_int32, int_eq, is_some, length,
  lez, ltz, nat_eq, none, ok, pos, some, sort_by, string_eq, suc, text_ltb, zero, ℕ, ℤ, ◌==◌, ◌>>=◌,
  ◌||◌, ◌∷◌,
}
use tiproxy_machine_operator.Prelude.Assoc.{Map, contains, get, put}
use tiproxy_machine_operator.Text.{concat, show_int, show_ℕ}

-- LinkPortRequest. A nil `RequestedPort` is `none`.
pub record LinkPortRequest : Type 0 where
  pub uid : String
  pub name : String
  pub requested_port : Option ℤ

-- The errors of ReconcilePorts. `out_of_fuel` is the model's own: `find_next` was cut off.
pub data PortError : Type 0 where
  invalid_start : ℤ → PortError
  invalid_range : ℤ → ℤ → PortError
  outside_range : String → ℤ → ℤ → ℤ → PortError
  port_conflict : ℤ → String → String → PortError
  insufficient_ports : ℤ → ℤ → ℕ → PortError
  out_of_fuel : PortError

unfoldable pub port_error_text : PortError → String
port_error_text (invalid_start s) = concat ("invalid port range start: " ∷ show_int s ∷ [])
port_error_text (invalid_range s e) =
    concat ("invalid port range: " ∷ show_int s ∷ "-" ∷ show_int e ∷ [])
port_error_text (outside_range name port s e) = concat (
    "link "
    ∷ name
    ∷ " requests port "
    ∷ show_int port
    ∷ " outside range "
    ∷ show_int s
    ∷ "-"
    ∷ show_int e
    ∷ [])
port_error_text (port_conflict port prev name) =
    concat ("requested port " ∷ show_int port ∷ " conflicts between " ∷ prev ∷ " and " ∷ name ∷ [])
port_error_text (insufficient_ports s e n) = concat (
    "insufficient ports in range "
    ∷ show_int s
    ∷ "-"
    ∷ show_int e
    ∷ " for "
    ∷ show_ℕ n
    ∷ " links"
    ∷ [])
port_error_text out_of_fuel = "out of fuel"

-- `if req.Name == "" { req.Name = s }`
unfoldable pub with_name : LinkPortRequest → LinkPortRequest
with_name r = if r.name == "" then record r { name = r.uid } else r

-- The first loop: the first request for each UID stays. `want` is the set of UIDs met so far.
unfoldable pub collect : List String → List LinkPortRequest → List LinkPortRequest
unfolding with_name
collect want [] = []
collect want (r ∷ rs) =
    let later = with_name r ∷ collect (r.uid ∷ want) rs in
    let skipped = collect want rs in if contains want r.uid then skipped else later

-- The comparison that `sort.Slice` is given.
unfoldable pub request_less : LinkPortRequest → LinkPortRequest → Bool
request_less a b = if a.name == b.name then text_ltb a.uid b.uid else text_ltb a.name b.name

-- The maps that the loops fill: `result`, `used` and `requestedByPort`.
pub record State : Type 0 where
  pub result : Map String ℤ
  pub used : List ℤ
  pub requested_by_port : Map ℤ LinkPortRequest

abbrev pub empty : State
empty = record { result = []; used = []; requested_by_port = [] }

-- `result[uid] = port; used[port] = struct{}{}`
unfoldable pub assign : String → ℤ → State → State
assign uid port s = record s { result = put uid port s.result; used = port ∷ s.used }

abbrev pub outside : ℤ → ℤ → ℤ → Bool
outside port start end = ltz port start || ltz end port

-- One round of the second loop: a requested port is taken, or refused.
unfoldable pub pin : ℤ → ℤ → LinkPortRequest → State → Result PortError State
pin start end r s = elim r.requested_port [
  | none ↦ ok s
  | some port ↦
      if outside port start end
      then err (outside_range r.name port start end)
      else elim (get port s.requested_by_port) [
        | some prev ↦ err (port_conflict port prev.name r.name)
        | none ↦
            ok (assign r.uid port (record s { requested_by_port = put port r s.requested_by_port }))
      ]
]

unfoldable pub pin_all : ℤ → ℤ → List LinkPortRequest → State → Result PortError State
pin_all start end [] s = ok s
pin_all start end (r ∷ rs) s = do t ← pin start end r s; pin_all start end rs t

-- One round of the third loop: an existing port is kept if it is in the range and still free.
unfoldable pub keep : Map String ℤ → ℤ → ℤ → LinkPortRequest → State → State
keep existing start end r s =
    if is_some (get r.uid s.result) then s else elim (get r.uid existing) [
      | none ↦ s
      | some port ↦
          if outside port start end || contains s.used port then s else assign r.uid port s
    ]

unfoldable pub keep_all : Map String ℤ → ℤ → ℤ → List LinkPortRequest → State → State
keep_all existing start end [] s = s
keep_all existing start end (r ∷ rs) s =
    keep_all existing start end rs (keep existing start end r s)

-- What findNext returns: a free port with the `next` after it, or that the range is exhausted.
pub data Found : Type 0 where
  found : ℤ → ℤ → Found
  exhausted : Found
  cut_off : Found

-- The closure findNext. Each round that goes on meets a used port, so that one more round than
-- there are used ports is enough.
unfoldable pub find_next : ℕ → ℤ → ℤ → List ℤ → Found
find_next zero next end used = cut_off
find_next (suc fuel) next end used =
    let rest = find_next fuel (inc_int32 next) end used in
    if lez next end
    then (if contains used next then rest else found next (inc_int32 next))
    else exhausted

-- One round of the last loop, on the state and `next`. `n` is the number of requests.
abbrev pub place : String → ℤ → ℤ → ℕ → State → Found → Result PortError (State × ℤ)
place uid start end n s (found port next) = ok (assign uid port s, next)
place uid start end n s exhausted = err (insufficient_ports start end n)
place uid start end n s cut_off = err out_of_fuel

unfoldable pub fill : ℤ → ℤ → ℕ → LinkPortRequest → State × ℤ → Result PortError (State × ℤ)
fill start end n r (s, next) =
    if is_some (get r.uid s.result)
    then ok (s, next)
    else place r.uid start end n s (find_next (suc (length s.used)) next end s.used)

unfoldable pub fill_all :
    ℤ → ℤ → ℕ → List LinkPortRequest → State × ℤ → Result PortError (State × ℤ)
fill_all start end n [] s = ok s
fill_all start end n (r ∷ rs) s = do t ← fill start end n r s; fill_all start end n rs t

unfoldable pub requests_of : List LinkPortRequest → List LinkPortRequest
requests_of link_requests = sort_by request_less (collect [] link_requests)

-- The three loops of ReconcilePorts over the sorted requests.
unfoldable pub allocate :
    Map String ℤ → List LinkPortRequest → ℤ → ℤ → Result PortError (Map String ℤ)
allocate existing requests start end = do
  pinned ← pin_all start end requests empty
  let kept = keep_all existing start end requests pinned
  filled ← fill_all start end (length requests) requests (kept, start)
  ok filled.0.result

-- ReconcilePorts
unfoldable pub reconcile_ports :
    Map String ℤ → List LinkPortRequest → ℤ → ℤ → Result PortError (Map String ℤ)
unfolding allocate
reconcile_ports existing link_requests start end =
    if lez start (pos 0)
    then err (invalid_start start)
    else if ltz end start
    then err (invalid_range start end)
    else allocate existing (requests_of link_requests) start end
