-- ===== src/Exposure/Examples.antt =====
-- NormalizeLoadBalancers at concrete load balancers.
use text.Mathlib.TextEquality.{eq_iff}
use tiproxy_machine_operator.Api.{LoadBalancerExposureSpec, effective_scope}
use tiproxy_machine_operator.Exposure.{
  check_scopes, checked, is_supported, name_all, name_one, normalize_load_balancers,
}
use tiproxy_machine_operator.Exposure.Clashes.{
  normalize_load_balancers-Apart, normalize_load_balancers-clash, trimmed_names,
}
use tiproxy_machine_operator.Exposure.Normal.{IsNormal, normalize_load_balancers-IsNormal}
use tiproxy_machine_operator.Prelude.{
  All, List, String, [], arith, int_eq, ok, refl, some, string_eq, true, ◌∷◌, ◌≡◌, ◌≢◌,
}
use tiproxy_machine_operator.Prelude.Assoc.{contains, get, put}
use tiproxy_machine_operator.Prelude.Sets.{Apart}
use tiproxy_machine_operator.Text.{to_lower, trim_space}

abbrev named_one : String → String → LoadBalancerExposureSpec
named_one name scope = record {
  name = name;
  scope = scope;
  load_balancer_name = "";
  subnet_ids = [];
}

abbrev two_named : List LoadBalancerExposureSpec
two_named = named_one "front" "Internal" ∷ named_one "back" "external" ∷ []

normalizes : normalize_load_balancers (record { load_balancers = some two_named }) ≡ ok two_named
unfolding normalize_load_balancers name_all name_one checked check_scopes is_supported
    effective_scope trim_space to_lower contains get put
normalizes = refl

normalize_load_balancers-IsNormal_example : All IsNormal two_named
normalize_load_balancers-IsNormal_example =
    normalize_load_balancers-IsNormal (record { load_balancers = some two_named }) two_named
      normalizes

names_given : All (λ lb. trim_space lb.name ≢ "") two_named
unfolding trim_space
names_given = (ground (arith, eq_iff "front" ""), (ground (arith, eq_iff "back" ""), tt))

normalize_load_balancers-Apart_example : Apart (trimmed_names two_named)
normalize_load_balancers-Apart_example =
    normalize_load_balancers-Apart two_named two_named names_given normalizes

supported_scope : is_supported (effective_scope (named_one "internal" "external")) ≡ true
unfolding is_supported effective_scope trim_space to_lower
supported_scope = refl

normalize_load_balancers-clash_example :
    (c : LoadBalancerExposureSpec) × (d : LoadBalancerExposureSpec) × (normalize_load_balancers
        (record { load_balancers = some (named_one "" "" ∷ named_one "internal" "external" ∷ []) })
      ≡ ok (c ∷ d ∷ []))
    × (c.name ≡ d.name)
unfolding trim_space
normalize_load_balancers-clash_example =
    normalize_load_balancers-clash (named_one "" "") (named_one "internal" "external") refl refl
      refl supported_scope
