-- ===== src/Exposure/Normal.antt =====
-- What NormalizeLoadBalancers returns: every load balancer has a name and a supported scope.
use mathlib.Core.Path.{ap₂}
use text.Mathlib.TextEquality.{eq_iff}
use text.Mathlib.TextLemmas.{append-eq-nil_iff}
use tiproxy_machine_operator.Api.{ExposureSpec, LoadBalancerExposureSpec, effective_scope}
use tiproxy_machine_operator.Exposure.{
  Names, base_of, check_scopes, checked, count_of, default_load_balancer, generated, is_supported,
  name_all, name_one, no_names, normalize_load_balancers,
}
use tiproxy_machine_operator.Prelude.{
  >>=-eq-ok, All, Bool-cases, List, Option-cases, String, [], ap, arith, inl, inr, int_eq, map,
  nat_eq, none, ok, refl, some, string_eq, subst, sym, true, ℕ, ◌+◌, ◌==◌, ◌∙◌, ◌∷◌, ◌≡◌, ◌≢◌,
}
use tiproxy_machine_operator.Text.{concat, show_ℕ, to_lower, trim_space}

abbrev pub IsNormal : LoadBalancerExposureSpec → Type 0
IsNormal lb = (lb.name ≢ "") × (is_supported lb.scope ≡ true)

-- What the loop leaves alone.
abbrev pub anonymous : LoadBalancerExposureSpec → LoadBalancerExposureSpec
anonymous lb = record lb { name = ""; scope = "" }

concat-ne : (s : String) (rest : List String) → s ≢ "" → concat (s ∷ rest) ≢ ""
unfolding concat
concat-ne s rest ne e = ne (append-eq-nil_iff.0 e).0

base_of-ne : (scope : String) → base_of scope ≢ ""
unfolding base_of
base_of-ne scope e = ground (arith, eq_iff (trim_space scope) "", eq_iff "load-balancer" "")

generated-ne : (scope : String) (s : Names) → (generated scope s).0 ≢ ""
unfolding generated
generated-ne scope s e = elim (Bool-cases (count_of (base_of scope) s == 0)) [
  | inl first ↦ base_of-ne scope (ground arith)
  | inr later ↦
      concat-ne (base_of scope) ("-" ∷ show_ℕ (count_of (base_of scope) s + 1) ∷ [])
        (base_of-ne scope) (ground arith)
]

trim_space-ne : (s : String) → trim_space s ≢ "" → s ≢ ""
unfolding trim_space
trim_space-ne s h e = h (rw e refl)

module _ (lb out : LoadBalancerExposureSpec) (s t : Names) (h : name_one lb s ≡ ok (out, t)) where
  name_one-ne : out.name ≢ ""
  unfolding name_one
  name_one-ne e = elim (Bool-cases (trim_space lb.name == "")) [
    | inl blank ↦
        let made : out.name ≡ (generated (effective_scope lb) s).0 = ground arith in
        generated-ne (effective_scope lb) s (sym made ∙ e)
    | inr named ↦
        trim_space-ne lb.name (ground (arith, eq_iff (trim_space lb.name) "")) (ground arith)
  ]

  name_one-anonymous : anonymous out ≡ anonymous lb
  unfolding name_one
  name_one-anonymous = ground arith

name_all-ne :
    (lbs out : List LoadBalancerExposureSpec) (s : Names)
    → name_all lbs s ≡ ok out
    → All (λ lb. lb.name ≢ "") out
unfolding name_all
name_all-ne [] out s h = subst (All (λ lb. lb.name ≢ "")) {x = []} {y = out} (ground arith) tt
name_all-ne (lb ∷ lbs) out s h =
    let ((lb', s'), first, rest) = >>=-eq-ok (name_one lb s) _ h in
    let (lbs', tail, last) = >>=-eq-ok (name_all lbs s') _ rest in
    subst (All (λ lb. lb.name ≢ "")) {x = lb' ∷ lbs'} {y = out} (ground arith)
      (name_one-ne lb lb' s s' first, name_all-ne lbs lbs' s' tail)

name_all-anonymous :
    (lbs out : List LoadBalancerExposureSpec) (s : Names)
    → name_all lbs s ≡ ok out
    → map anonymous out ≡ map anonymous lbs
unfolding name_all
name_all-anonymous [] out s h = ap (map anonymous) {x = out} {y = []} (ground arith)
name_all-anonymous (lb ∷ lbs) out s h =
    let ((lb', s'), first, rest) = >>=-eq-ok (name_one lb s) _ h in
    let (lbs', tail, last) = >>=-eq-ok (name_all lbs s') _ rest in
    ap (map anonymous) {x = out} {y = lb' ∷ lbs'} (ground arith)
    ∙ ap₂ ◌∷◌ (name_one-anonymous lb lb' s s' first) (name_all-anonymous lbs lbs' s' tail)

check_scopes-All :
    (i : ℕ) (lbs : List LoadBalancerExposureSpec)
    → check_scopes i lbs ≡ none
    → All (λ lb. is_supported lb.scope ≡ true) lbs
unfolding check_scopes
check_scopes-All i [] h = tt
check_scopes-All i (lb ∷ lbs) h = ground (arith, check_scopes-All (i + 1) lbs)

pub checked_lem :
    (named out : List LoadBalancerExposureSpec)
    → checked named ≡ ok out
    → (named ≡ out) × (check_scopes 0 named ≡ none)
unfolding checked
checked_lem named out h = (ground arith, ground arith)

All-zip :
    (lbs : List LoadBalancerExposureSpec)
    → All (λ lb. lb.name ≢ "") lbs
    → All (λ lb. is_supported lb.scope ≡ true) lbs
    → All IsNormal lbs
All-zip [] a b = tt
All-zip (lb ∷ lbs) a b = ((a.0, b.0), All-zip lbs a.1 b.1)

-- Every load balancer that NormalizeLoadBalancers returns has a name, and a scope that is
-- "internal" or "external" but for case and space.
pub normalize_load_balancers-IsNormal :
    (s : ExposureSpec) (out : List LoadBalancerExposureSpec)
    → normalize_load_balancers s ≡ ok out
    → All IsNormal out
unfolding normalize_load_balancers is_supported to_lower trim_space
normalize_load_balancers-IsNormal s out h = elim (Option-cases s.load_balancers) [
  | inl e ↦
      subst (All IsNormal) {x = default_load_balancer ∷ []} {y = out} (ground arith)
        ((ground (arith, eq_iff "internal" ""), refl), tt)
  | inr (lbs, e) ↦
      let (named, first, rest) = >>=-eq-ok (name_all lbs no_names) checked (ground arith) in
      let (same, fine) = checked_lem named out rest in
      subst (All IsNormal) same
        (All-zip named (name_all-ne lbs named _ first) (check_scopes-All 0 named fine))
]

-- Given a list, NormalizeLoadBalancers returns its load balancers in their order, and changes
-- nothing of them but name and scope.
pub normalize_load_balancers-anonymous :
    (lbs out : List LoadBalancerExposureSpec)
    → normalize_load_balancers (record { load_balancers = some lbs }) ≡ ok out
    → map anonymous out ≡ map anonymous lbs
unfolding normalize_load_balancers
normalize_load_balancers-anonymous lbs out h =
    let (named, first, rest) = >>=-eq-ok (name_all lbs no_names) checked h in
    let (same, fine) = checked_lem named out rest in
    ap (map anonymous) (sym same) ∙ name_all-anonymous lbs named _ first
