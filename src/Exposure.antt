-- ===== src/Exposure.antt =====
-- ExposureSpec.NormalizeLoadBalancers of api/v1alpha1/types_common.go
pub mod Clashes
mod Examples
pub mod Normal
use tiproxy_machine_operator.Api.{ExposureSpec, LoadBalancerExposureSpec, effective_scope}
use tiproxy_machine_operator.Prelude.{
  Bool, List, Option, Result, String, [], err, if◌then◌else◌, int_eq, nat_eq, none, ok, some,
  string_eq, ℕ, ◌+◌, ◌==◌, ◌>>=◌, ◌||◌, ◌∷◌,
}
use tiproxy_machine_operator.Prelude.Assoc.{Map, contains, get, put}
use tiproxy_machine_operator.Text.{concat, show_ℕ, to_lower, trim_space}

-- The errors of NormalizeLoadBalancers.
pub data ExposureError : Type 0 where
  duplicate_name : String → ExposureError
  unsupported_scope : ℕ → String → ExposureError

-- The error's text; `%q` is written with plain quotes.
unfoldable pub exposure_error_text : ExposureError → String
exposure_error_text (duplicate_name name) =
    concat ("duplicate exposure.loadBalancers name \"" ∷ name ∷ "\"" ∷ [])
exposure_error_text (unsupported_scope i scope) =
    concat ("unsupported exposure.loadBalancers[" ∷ show_ℕ i ∷ "].scope \"" ∷ scope ∷ "\"" ∷ [])

-- usedExplicit and usedNames
pub record Names : Type 0 where
  pub used_explicit : List String
  pub used_names : Map String ℕ

abbrev pub no_names : Names
no_names = record { used_explicit = []; used_names = [] }

-- A key that is not in the map reads as zero.
abbrev pub count_of : String → Names → ℕ
count_of name s = elim (get name s.used_names) [ none ↦ 0 | some n ↦ n ]

unfoldable pub base_of : String → String
base_of scope = let trimmed = trim_space scope in if trimmed == "" then "load-balancer" else trimmed

-- The name that the loop makes up: the scope, then `scope-2`, `scope-3` and so on.
unfoldable pub generated : String → Names → String × Names
generated scope s =
    let base = base_of scope in
    let n = count_of base s in
    if n == 0 then (base, record s { used_names = put base 1 s.used_names }) else (
      concat (base ∷ "-" ∷ show_ℕ (n + 1) ∷ []),
      record s { used_names = put base (n + 1) s.used_names },
    )

-- One round of the first loop.
unfoldable pub name_one :
    LoadBalancerExposureSpec → Names → Result ExposureError (LoadBalancerExposureSpec × Names)
name_one lb s =
    let out = record lb { scope = effective_scope lb } in
    let explicit = trim_space lb.name in
    if explicit == ""
    then (let (name, s') = generated out.scope s in ok (record out { name = name }, s'))
    else if contains s.used_explicit explicit
    then err (duplicate_name explicit)
    else ok (
      out,
      record {
        used_explicit = explicit ∷ s.used_explicit;
        used_names = put explicit (count_of explicit s + 1) s.used_names;
      },
    )

unfoldable pub name_all :
    List LoadBalancerExposureSpec → Names → Result ExposureError (List LoadBalancerExposureSpec)
name_all [] s = ok []
name_all (lb ∷ lbs) s = do named ← name_one lb s; rest ← name_all lbs named.1; ok (named.0 ∷ rest)

-- The switch of the second loop.
unfoldable pub is_supported : String → Bool
is_supported scope = let s = to_lower (trim_space scope) in s == "internal" || s == "external"

unfoldable pub check_scopes : ℕ → List LoadBalancerExposureSpec → Option ExposureError
check_scopes i [] = none
check_scopes i (lb ∷ lbs) =
    if is_supported lb.scope then check_scopes (i + 1) lbs else some (unsupported_scope i lb.scope)

unfoldable pub checked :
    List LoadBalancerExposureSpec → Result ExposureError (List LoadBalancerExposureSpec)
checked out = elim (check_scopes 0 out) [ none ↦ ok out | some e ↦ err e ]

abbrev pub default_load_balancer : LoadBalancerExposureSpec
default_load_balancer = record {
  name = "internal";
  scope = "internal";
  load_balancer_name = "";
  subnet_ids = [];
}

-- NormalizeLoadBalancers
unfoldable pub normalize_load_balancers :
    ExposureSpec → Result ExposureError (List LoadBalancerExposureSpec)
normalize_load_balancers s = elim s.load_balancers [
  | none ↦ ok (default_load_balancer ∷ [])
  | some lbs ↦ do out ← name_all lbs no_names; checked out
]
