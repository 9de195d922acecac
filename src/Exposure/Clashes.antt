-- ===== src/Exposure/Clashes.antt =====
-- Whether the names that NormalizeLoadBalancers returns tell the load balancers apart.
use text.Mathlib.TextEquality.{eq_iff}
use tiproxy_machine_operator.Api.{LoadBalancerExposureSpec, effective_scope}
use tiproxy_machine_operator.Exposure.{
  Names, base_of, check_scopes, checked, count_of, generated, is_supported, name_all, name_one,
  no_names, normalize_load_balancers,
}
use tiproxy_machine_operator.Exposure.Normal.{checked_lem}
use tiproxy_machine_operator.Prelude.{
  >>=-eq-ok, All, List, String, [], ap, arith, false, int_eq, map, nat_eq, ok, refl, some,
  string_eq, subst, sym, true, ◌+◌, ◌==◌, ◌∙◌, ◌∷◌, ◌≡◌, ◌≢◌,
}
use tiproxy_machine_operator.Prelude.Assoc.{contains, get, put}
use tiproxy_machine_operator.Prelude.Sets.{Apart}
use tiproxy_machine_operator.Text.{to_lower, trim_space}

abbrev pub trimmed_names : List LoadBalancerExposureSpec → List String
trimmed_names = map (λ lb. trim_space lb.name)

-- A round at a load balancer that is given a name.
name_one-given :
    (lb lb' : LoadBalancerExposureSpec) (s s' : Names)
    → trim_space lb.name ≢ ""
    → name_one lb s ≡ ok (lb', s')
    → (lb'.name ≡ lb.name)
      × (contains s.used_explicit (trim_space lb.name) ≡ false)
      × (s'.used_explicit ≡ trim_space lb.name ∷ s.used_explicit)
unfolding name_one
name_one-given lb lb' s s' given h =
    let given' : (trim_space lb.name == "") ≡ false =
      ground (arith, eq_iff (trim_space lb.name) "") in
    (ground arith, ground arith, ground arith)

-- Names that the loop has met are not met again.
contains-trimmed :
    (x : String) (lbs out : List LoadBalancerExposureSpec) (s : Names)
    → All (λ lb. trim_space lb.name ≢ "") lbs
    → name_all lbs s ≡ ok out
    → contains s.used_explicit x ≡ true
    → contains (trimmed_names out) x ≡ false
unfolding name_all contains
contains-trimmed x [] out s given h met =
    ap (λ o. contains (trimmed_names o) x) {x = out} {y = []} (ground arith)
contains-trimmed x (lb ∷ lbs) out s given h met =
    let ((lb', s'), first, rest) = >>=-eq-ok (name_one lb s) _ h in
    let (lbs', tail, last) = >>=-eq-ok (name_all lbs s') _ rest in
    let (kept, fresh, grown) = name_one-given lb lb' s s' given.0 first in
    let later = contains-trimmed x lbs lbs' s' given.1 tail (rw grown (ground arith)) in
    ap (λ o. contains (trimmed_names o) x) {x = out} {y = lb' ∷ lbs'} (ground arith)
    ∙ rw kept (ground (arith, later, eq_iff (trim_space lb.name) x))

name_all-Apart :
    (lbs out : List LoadBalancerExposureSpec) (s : Names)
    → All (λ lb. trim_space lb.name ≢ "") lbs
    → name_all lbs s ≡ ok out
    → Apart (trimmed_names out)
unfolding name_all contains
name_all-Apart [] out s given h =
    subst (λ o. Apart (trimmed_names o)) {x = []} {y = out} (ground arith) tt
name_all-Apart (lb ∷ lbs) out s given h =
    let ((lb', s'), first, rest) = >>=-eq-ok (name_one lb s) _ h in
    let (lbs', tail, last) = >>=-eq-ok (name_all lbs s') _ rest in
    let (kept, fresh, grown) = name_one-given lb lb' s s' given.0 first in
    subst (λ o. Apart (trimmed_names o)) {x = lb' ∷ lbs'} {y = out} (ground arith)
      (
        contains-trimmed (trim_space lb'.name) lbs lbs' s' given.1 tail
            (rw (grown, kept) (ground (arith, eq_iff (trim_space lb.name) (trim_space lb.name)))),
        name_all-Apart lbs lbs' s' given.1 tail,
      )

-- Where every load balancer is given a name, NormalizeLoadBalancers returns names that differ,
-- also without the space around them.
pub normalize_load_balancers-Apart :
    (lbs out : List LoadBalancerExposureSpec)
    → All (λ lb. trim_space lb.name ≢ "") lbs
    → normalize_load_balancers (record { load_balancers = some lbs }) ≡ ok out
    → Apart (trimmed_names out)
unfolding normalize_load_balancers
normalize_load_balancers-Apart lbs out given h =
    let (named, first, rest) = >>=-eq-ok (name_all lbs no_names) checked h in
    subst (λ o. Apart (trimmed_names o)) (checked_lem named out rest).0
      (name_all-Apart lbs named no_names given first)

trim_space-internal : trim_space "internal" ≡ "internal"
unfolding trim_space
trim_space-internal = refl

is_supported-internal : is_supported "internal" ≡ true
unfolding is_supported trim_space to_lower
is_supported-internal = refl

-- What the loop knows after one made-up name "internal".
abbrev after_internal : Names
after_internal = record { used_explicit = []; used_names = put "internal" 1 [] }

name_one-blank :
    (a : LoadBalancerExposureSpec)
    → trim_space a.name ≡ ""
    → trim_space a.scope ≡ ""
    → name_one a no_names ≡ ok (record a { name = "internal"; scope = "internal" }, after_internal)
unfolding name_one generated base_of effective_scope get
name_one-blank a blank blank' = rw (blank, blank', trim_space-internal) refl

name_one-internal :
    (b : LoadBalancerExposureSpec) (s : Names)
    → b.name ≡ "internal"
    → s.used_explicit ≡ []
    → (t : Names) × (name_one b s ≡ ok (record b { scope = effective_scope b }, t))
unfolding name_one contains
name_one-internal b s named fresh = (
  record {
    used_explicit = "internal" ∷ s.used_explicit;
    used_names = put "internal" (count_of "internal" s + 1) s.used_names;
  },
  rw (named, trim_space-internal, fresh) refl,
)

-- A made-up name can be one that a later load balancer is given: an internal load balancer
-- without a name, before one that is named "internal", makes two of that name.
pub normalize_load_balancers-clash :
    (a b : LoadBalancerExposureSpec)
    → trim_space a.name ≡ ""
    → trim_space a.scope ≡ ""
    → b.name ≡ "internal"
    → is_supported (effective_scope b) ≡ true
    → (c : LoadBalancerExposureSpec) × (d : LoadBalancerExposureSpec) × (normalize_load_balancers
          (record { load_balancers = some (a ∷ b ∷ []) })
        ≡ ok (c ∷ d ∷ []))
      × (c.name ≡ d.name)
unfolding normalize_load_balancers name_all checked check_scopes
normalize_load_balancers-clash a b blank blank' named fine =
    let (t, second) = name_one-internal b after_internal named refl in
    (
      record a { name = "internal"; scope = "internal" },
      record b { scope = effective_scope b },
      ground (arith, name_one-blank a blank blank', second, is_supported-internal),
      sym named,
    )
