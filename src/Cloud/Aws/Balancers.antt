-- ===== src/Cloud/Aws/Balancers.antt =====
-- The load balancers: ensureNetworkLoadBalancer and what describes them.
use tiproxy_machine_operator.Api.{LoadBalancerExposureSpec, MachineGroup, effective_scope}
use tiproxy_machine_operator.Cloud.Aws.Calls.{
  Aws, AwsExec, Listener, LoadBalancer, Scheme, TargetGroup, create_load_balancer,
  describe_listeners, describe_load_balancer, describe_target_groups, internal, internet_facing,
  or_absent, wrapped,
}
use tiproxy_machine_operator.Cloud.Aws.Errors.{AwsError, plain}
use tiproxy_machine_operator.Cloud.Aws.Names.{load_balancer_name}
use tiproxy_machine_operator.Cloud.Aws.Placement.{PlacementSelection}
use tiproxy_machine_operator.Cloud.Aws.Template.{build_elb_tags}
use tiproxy_machine_operator.Effects.{call, lift, pure, ◌>>=◌}
use tiproxy_machine_operator.Prelude.{
  Bool, List, Option, Result, String, [], err, false, if◌then◌else◌, int_eq, nat_eq, none, not, ok,
  some, string_eq, true, ◌==◌, ◌∷◌,
}
use tiproxy_machine_operator.Text.{concat, to_lower}

abbrev pub head_of {ℓ} : {A : Type ℓ} → String → List A → Result AwsError A
head_of text [] = err (plain text)
head_of text (x ∷ xs) = ok x

abbrev first_of {ℓ} : {A : Type ℓ} → List A → Option A
first_of [] = none
first_of (x ∷ xs) = some x

module _ (aws : Aws) where
  -- describeLoadBalancerByName
  unfoldable pub describe_load_balancer_by_name : String → AwsExec (Option LoadBalancer)
  describe_load_balancer_by_name name = do
    out ←
        call
          (λ h.
            or_absent ("describe load balancer " ∷ name ∷ [])
              (aws.answer_load_balancers h (describe_load_balancer name)))
          (describe_load_balancer name)
    pure (first_of out)

  -- describeListenersByLB
  unfoldable pub describe_listeners_by_lb : String → AwsExec (List Listener)
  describe_listeners_by_lb arn =
      if arn == ""
      then pure []
      else call
          (λ h.
            or_absent ("describe listeners for load balancer " ∷ arn ∷ [])
              (aws.answer_listeners h (describe_listeners arn)))
          (describe_listeners arn)

  -- describeTargetGroupsForLB
  unfoldable pub describe_target_groups_for_lb : String → AwsExec (List TargetGroup)
  describe_target_groups_for_lb arn =
      if arn == ""
      then pure []
      else call
          (λ h.
            or_absent ("describe target groups for load balancer " ∷ arn ∷ [])
              (aws.answer_target_groups h (describe_target_groups arn)))
          (describe_target_groups arn)

  -- The scheme that a load balancer is to have. strings.EqualFold with an ASCII word.
  unfoldable pub wanted_scheme : LoadBalancerExposureSpec → Scheme
  wanted_scheme lb =
      if to_lower (effective_scope lb) == "external" then internet_facing else internal

  abbrev same_scheme : Scheme → Scheme → Bool
  same_scheme internal internal = true
  same_scheme internal internet_facing = false
  same_scheme internet_facing internal = false
  same_scheme internet_facing internet_facing = true

  abbrev scheme_text : Scheme → String
  scheme_text internal = "internal"
  scheme_text internet_facing = "internet-facing"

  -- The tests on a load balancer that exists.
  unfoldable pub check_load_balancer : String → Scheme → LoadBalancer → Result AwsError LoadBalancer
  check_load_balancer name scheme existing =
      if not existing.is_network
      then err (plain (concat ("load balancer " ∷ name ∷ " exists but is not network type" ∷ [])))
      else if not (same_scheme existing.scheme scheme)
      then err (
          plain (
            concat (
              "load balancer "
              ∷ name
              ∷ " scheme mismatch: have "
              ∷ scheme_text existing.scheme
              ∷ " want "
              ∷ scheme_text scheme
              ∷ [])))
      else ok existing

  unfoldable pub create_network_load_balancer :
      MachineGroup → LoadBalancerExposureSpec → PlacementSelection → String → AwsExec LoadBalancer
  create_network_load_balancer mg lb placement name =
      let pieces = "create network load balancer " ∷ name ∷ [] in
      let input = create_load_balancer (record {
        name = name;
        scheme = wanted_scheme lb;
        subnets = placement.subnet_ids;
        tags = build_elb_tags mg lb;
      }) in
      do
        out ← call (λ h. wrapped pieces (aws.answer_load_balancers h input)) input
        lift (head_of (concat (concat pieces ∷ ": empty response" ∷ [])) out)

  unfoldable pub network_lb :
      MachineGroup
      → LoadBalancerExposureSpec
      → PlacementSelection
      → Option LoadBalancer
      → AwsExec LoadBalancer
  network_lb mg lb placement none =
      create_network_load_balancer mg lb placement
        (load_balancer_name aws.encoders.sha256_hex mg lb)
  network_lb mg lb placement (some existing) = lift (
      check_load_balancer (load_balancer_name aws.encoders.sha256_hex mg lb) (wanted_scheme lb)
        existing)

  -- ensureNetworkLoadBalancer
  unfoldable pub ensure_network_load_balancer :
      MachineGroup → LoadBalancerExposureSpec → PlacementSelection → AwsExec LoadBalancer
  ensure_network_load_balancer mg lb placement =
      let name = load_balancer_name aws.encoders.sha256_hex mg lb in
      do existing_lb ← describe_load_balancer_by_name name; network_lb mg lb placement existing_lb
