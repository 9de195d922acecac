-- ===== src/Cloud/Aws/Serving.antt =====
-- The calls of ensureLoadBalancerExposure, resolvePlacement and resolveLoadBalancerPlacement. The
-- verb %q is written with plain quotes.
pub mod Complete
pub mod Arns
pub mod Listeners
use tiproxy_machine_operator.Api.{
  LoadBalancerCloudStatus, LoadBalancerExposureSpec, MachineGroup, MachinePort,
  MachinePortCloudStatus,
}
use tiproxy_machine_operator.Cloud.Aws.Balancers.{
  describe_listeners_by_lb, describe_target_groups_for_lb, ensure_network_load_balancer,
}
use tiproxy_machine_operator.Cloud.Aws.Calls.{
  Aws, AwsExec, Listener, LoadBalancer, TargetGroup, describe_subnets, to_string, wrapped,
}
use tiproxy_machine_operator.Cloud.Aws.Deletion.{delete_listeners, delete_target_groups}
use tiproxy_machine_operator.Cloud.Aws.Errors.{AwsError, plain}
use tiproxy_machine_operator.Cloud.Aws.Exposing.{
  Exposed, finish_clouds, group_arn, groups_by_port, lb_less, listener_at, listeners_by_port,
  managed_arns, nothing_exposed, stale_groups, stale_listeners, status_of_lb, wanted_arns,
  wanted_ports, with_lb,
}
use tiproxy_machine_operator.Cloud.Aws.Placement.{
  PlacementSelection, Subnet, distribution_for_spread_policy, select_placement_subnets,
}
use tiproxy_machine_operator.Cloud.Aws.Targets.{
  create_target_group_for, dedupe_strings, ensure_listener, reconcile_asg_target_groups,
}
use tiproxy_machine_operator.Cloud.Contract.{cloud_at}
use tiproxy_machine_operator.Effects.{call, lift, pure, raise, ◌>>=◌, ◌>>◌}
use tiproxy_machine_operator.Prelude.{
  List, Result, String, [], err, if◌then◌else◌, int_eq, is_some, length, nat_eq, not, ok, sort_by,
  string_eq, text_ltb, ℤ, ◌&&◌, ◌++◌, ◌==◌, ◌∷◌,
}
use tiproxy_machine_operator.Prelude.Assoc.{Map, get, put}
use tiproxy_machine_operator.Text.{concat}

module _ (aws : Aws) where
  abbrev describe_subnets_of : List String → List String → AwsExec (List Subnet)
  describe_subnets_of pieces ids =
      call (λ h. wrapped pieces (aws.answer_subnets h ids)) (describe_subnets ids)

  -- resolvePlacement
  unfoldable pub resolve_placement : MachineGroup → AwsExec PlacementSelection
  resolve_placement mg =
      let ids = mg.spec.network.subnet_ids in
      if length ids == 0 then raise (plain "spec.network.subnetIDs is empty") else do
        subnets ← describe_subnets_of ("describe subnets" ∷ []) ids
        chosen ← lift (select_placement_subnets ids subnets mg.spec.placement.failure_domains)
        spread ← lift (distribution_for_spread_policy mg.spec.placement.spread_policy)
        pure (record chosen { distribution = spread })

  unfoldable pub check_vpc :
      LoadBalancerExposureSpec
      → PlacementSelection
      → PlacementSelection
      → Result AwsError PlacementSelection
  check_vpc lb fallback chosen =
      if not (fallback.vpc_id == "") && not (chosen.vpc_id == fallback.vpc_id)
      then err (
          plain (
            concat (
              "loadBalancer \"" ∷ lb.name ∷ "\" subnets must belong to the same vpc \""
              ∷ fallback.vpc_id ∷ "\" as machine placement, got \"" ∷ chosen.vpc_id ∷ "\"" ∷ [])))
      else ok (record chosen { distribution = fallback.distribution })

  -- resolveLoadBalancerPlacement
  unfoldable pub resolve_load_balancer_placement :
      MachineGroup → LoadBalancerExposureSpec → PlacementSelection → AwsExec PlacementSelection
  resolve_load_balancer_placement mg lb fallback =
      if length lb.subnet_ids == 0 then pure fallback else do
        subnets ← describe_subnets_of ("describe load balancer subnets" ∷ []) lb.subnet_ids
        chosen ←
            lift (select_placement_subnets lb.subnet_ids subnets mg.spec.placement.failure_domains)
        lift (check_vpc lb fallback chosen)

  -- The loop that creates the target groups that are missing, with the ARNs it created.
  unfoldable pub create_missing :
      MachineGroup
      → LoadBalancerExposureSpec
      → String
      → Map ℤ String
      → Map ℤ TargetGroup
      → AwsExec (Map ℤ TargetGroup × List String)
  create_missing mg lb vpc_id [] groups = pure (groups, [])
  create_missing mg lb vpc_id ((port, uid) ∷ wanted) groups =
      let skip = create_missing mg lb vpc_id wanted groups in
      if is_some (get port groups) then skip else do
        created ← create_target_group_for aws mg lb vpc_id port
        rest ← create_missing mg lb vpc_id wanted (put port created groups)
        pure (rest.0, to_string created.arn ∷ rest.1)

  -- The loop that ensures the listeners, with the statuses.
  unfoldable pub ensure_listeners :
      LoadBalancerExposureSpec
      → LoadBalancer
      → Map ℤ TargetGroup
      → Map ℤ Listener
      → Map ℤ String
      → Map String MachinePortCloudStatus
      → AwsExec (Map String MachinePortCloudStatus)
  ensure_listeners spec lb groups listeners [] clouds = pure clouds
  ensure_listeners spec lb groups listeners ((port, uid) ∷ wanted) clouds = do
    listener_arn ←
        ensure_listener aws (to_string lb.arn) port (group_arn port groups)
          (listener_at port listeners)
    ensure_listeners spec lb groups listeners wanted (
        put uid (with_lb spec lb listener_arn (group_arn port groups) (cloud_at uid clouds)) clouds)

  -- The body of the loop over the load balancers.
  unfoldable pub expose_one :
      MachineGroup
      → PlacementSelection
      → Map ℤ String
      → LoadBalancerExposureSpec
      → Exposed
      → AwsExec Exposed
  expose_one mg placement wanted spec acc = do
    lb_placement ← resolve_load_balancer_placement mg spec placement
    lb ← ensure_network_load_balancer aws mg spec lb_placement
    tgs ← describe_target_groups_for_lb aws (to_string lb.arn)
    groups ← create_missing mg spec lb_placement.vpc_id wanted (groups_by_port tgs [])
    listeners ← describe_listeners_by_lb aws (to_string lb.arn)
    clouds ← ensure_listeners spec lb groups.0 (listeners_by_port listeners []) wanted acc.clouds
    delete_listeners aws (stale_listeners wanted listeners)
    delete_target_groups aws (stale_groups wanted tgs)
    pure (record {
      managed = acc.managed ++ (managed_arns tgs ++ groups.1);
      desired = acc.desired ++ wanted_arns wanted groups.0;
      clouds = clouds;
      statuses = acc.statuses ++ status_of_lb spec lb ∷ [];
    })

  unfoldable pub expose_all :
      MachineGroup
      → PlacementSelection
      → Map ℤ String
      → List LoadBalancerExposureSpec
      → Exposed
      → AwsExec Exposed
  expose_all mg placement wanted [] acc = pure acc
  expose_all mg placement wanted (spec ∷ specs) acc = do
    next ← expose_one mg placement wanted spec acc
    expose_all mg placement wanted specs next

  -- ensureLoadBalancerExposure
  unfoldable pub ensure_load_balancer_exposure :
      MachineGroup
      → String
      → List MachinePort
      → Map String ℤ
      → PlacementSelection
      → List LoadBalancerExposureSpec
      → AwsExec (List LoadBalancerCloudStatus × Map String MachinePortCloudStatus)
  ensure_load_balancer_exposure mg asg_name machine_ports allocated placement specs =
      if length placement.subnet_ids == 0
      then raise (plain "spec.network.subnetIDs is required for loadBalancer exposure")
      else do
        wanted ← lift (wanted_ports machine_ports allocated [])
        exposed ← expose_all mg placement wanted specs nothing_exposed
        reconcile_asg_target_groups aws asg_name (sort_by text_ltb (dedupe_strings exposed.desired))
            exposed.managed
        pure (sort_by lb_less exposed.statuses, finish_clouds exposed.clouds)
