-- ===== src/Allocator/Requests.antt =====
-- The requests that the loops run over: one for each UID, whatever order they came in.
use text.Mathlib.TextEquality.{eq_iff}
use tiproxy_machine_operator.Allocator.{
  LinkPortRequest, collect, request_less, requests_of, with_name,
}
use tiproxy_machine_operator.Prelude.{
  List, Option, String, [], arith, if◌then◌else◌, insert_by, int_eq, nat_eq, none, refl, some,
  sort_by, string_eq, ◌==◌, ◌∙◌, ◌∷◌, ◌≡◌,
}
use tiproxy_machine_operator.Prelude.Assoc.{contains}

-- The first request with a UID, which is the one that counts.
unfoldable pub request_of : String → List LinkPortRequest → Option LinkPortRequest
request_of u [] = none
request_of u (r ∷ rs) = if r.uid == u then some r else request_of u rs

-- No UID twice.
abbrev pub Distinct : List LinkPortRequest → Type 0
Distinct [] = Unit {0}
Distinct (r ∷ rs) = (request_of r.uid rs ≡ none) × Distinct rs

abbrev named : Option LinkPortRequest → Option LinkPortRequest
named none = none
named (some r) = some (with_name r)

uid-with_name : (r : LinkPortRequest) → (with_name r).uid ≡ r.uid
unfolding with_name
uid-with_name r = ground arith

request_of-collect :
    (u : String) (want : List String) (rs : List LinkPortRequest)
    → request_of u (collect want rs) ≡ (if contains want u then none else named (request_of u rs))
unfolding request_of collect contains
request_of-collect u want [] = ground arith
request_of-collect u want (r ∷ rs) =
    ground
      (arith, request_of-collect u want rs, request_of-collect u (r.uid ∷ want) rs, eq_iff r.uid u)

collect-Distinct : (want : List String) (rs : List LinkPortRequest) → Distinct (collect want rs)
unfolding collect contains
collect-Distinct want [] = tt
collect-Distinct want (r ∷ rs) = ground (
  arith,
  collect-Distinct want rs,
  collect-Distinct (r.uid ∷ want) rs,
  request_of-collect r.uid (r.uid ∷ want) rs,
  uid-with_name r,
  eq_iff r.uid r.uid,
)

request_of-insert_by :
    (u : String) (r : LinkPortRequest) (rs : List LinkPortRequest)
    → request_of r.uid rs ≡ none
    → request_of u (insert_by request_less r rs) ≡ (if r.uid == u then some r else request_of u rs)
unfolding request_of insert_by
request_of-insert_by u r [] h = refl
request_of-insert_by u r (s ∷ rs) h =
    ground (arith, request_of-insert_by u r rs, eq_iff r.uid u, eq_iff s.uid u, eq_iff s.uid r.uid)

insert_by-Distinct :
    (r : LinkPortRequest) (rs : List LinkPortRequest)
    → request_of r.uid rs ≡ none
    → Distinct rs
    → Distinct (insert_by request_less r rs)
unfolding request_of insert_by
insert_by-Distinct r [] h d = (refl, tt)
insert_by-Distinct r (s ∷ rs) h d = ground (
  arith,
  insert_by-Distinct r rs,
  request_of-insert_by s.uid r rs,
  eq_iff r.uid s.uid,
  eq_iff s.uid r.uid,
)

request_of-sort_by :
    (u : String) (rs : List LinkPortRequest)
    → Distinct rs
    → request_of u (sort_by request_less rs) ≡ request_of u rs
unfolding request_of sort_by
request_of-sort_by u [] d = refl
request_of-sort_by u (r ∷ rs) d = ground (
  arith,
  request_of-insert_by u r (sort_by request_less rs),
  request_of-sort_by u rs,
  request_of-sort_by r.uid rs,
)

sort_by-Distinct : (rs : List LinkPortRequest) → Distinct rs → Distinct (sort_by request_less rs)
unfolding sort_by
sort_by-Distinct [] d = tt
sort_by-Distinct (r ∷ rs) d =
    insert_by-Distinct r (sort_by request_less rs) (ground (arith, request_of-sort_by r.uid rs))
      (sort_by-Distinct rs d.1)

pub requests_of-Distinct : (rs : List LinkPortRequest) → Distinct (requests_of rs)
unfolding requests_of
requests_of-Distinct rs = sort_by-Distinct (collect [] rs) (collect-Distinct [] rs)

pub request_of-requests_of :
    (u : String) (rs : List LinkPortRequest)
    → request_of u (requests_of rs) ≡ named (request_of u rs)
unfolding requests_of contains
request_of-requests_of u rs =
    request_of-sort_by u (collect [] rs) (collect-Distinct [] rs) ∙ request_of-collect u [] rs
