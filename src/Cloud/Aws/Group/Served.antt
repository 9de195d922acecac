-- ===== src/Cloud/Aws/Group/Served.antt =====
-- The calls of ensureLoadBalancerExposure.
use tiproxy_machine_operator.Api.{
  LoadBalancerExposureSpec, MachineGroup, MachinePort, MachinePortCloudStatus,
}
use tiproxy_machine_operator.Cloud.Aws.Balancers.{
  create_network_load_balancer, ensure_network_load_balancer, network_lb,
}
use tiproxy_machine_operator.Cloud.Aws.Calls.{
  Aws, AwsCall, Listener, LoadBalancer, TargetGroup, do_call,
}
use tiproxy_machine_operator.Cloud.Aws.Deletion.Removals.{
  delete_listeners-Keeps, delete_target_groups-Keeps, describe_listeners_by_lb-Keeps,
  describe_load_balancer_by_name-Keeps, describe_target_groups_for_lb-Keeps,
}
use tiproxy_machine_operator.Cloud.Aws.Exposing.{Exposed}
use tiproxy_machine_operator.Cloud.Aws.Group.Sized.{Sized, removal-Sized}
use tiproxy_machine_operator.Cloud.Aws.Placement.{PlacementSelection}
use tiproxy_machine_operator.Cloud.Aws.Serving.{
  create_missing, ensure_listeners, ensure_load_balancer_exposure, expose_all, expose_one,
  resolve_load_balancer_placement,
}
use tiproxy_machine_operator.Cloud.Aws.Targets.{
  adapt_listener, adjust_target_groups, attach_all, create_target_group_for, describe_asgs,
  detach_stale, ensure_listener, reconcile_asg_target_groups,
}
use tiproxy_machine_operator.Effects.Keeps.{Keeps, bind-Keeps, call-Keeps, lift-Keeps, then-Keeps}
use tiproxy_machine_operator.Prelude.{
  Bool, Bool-cases, List, Option, Option-cases, String, [], false, inl, inr, int_eq, is_some,
  length, nat_eq, none, some, string_eq, true, ℤ, ◌==◌, ◌∷◌,
}
use tiproxy_machine_operator.Prelude.Assoc.{Map, get}

-- What EnsureMachineGroup may call holds of all that the exposure calls.
module _ (aws : Aws) where
  do_call-Keeps :
      (pieces : List String) (c : AwsCall) → Sized c → Keeps Sized (do_call aws pieces c)
  unfolding do_call
  do_call-Keeps pieces c p = call-Keeps _ c p

  resolve_load_balancer_placement-Keeps :
      (mg : MachineGroup) (lb : LoadBalancerExposureSpec) (fallback : PlacementSelection)
      → Keeps Sized (resolve_load_balancer_placement aws mg lb fallback)
  unfolding resolve_load_balancer_placement
  resolve_load_balancer_placement-Keeps mg lb fallback =
      elim (Bool-cases (length lb.subnet_ids == 0)) [
        | inl none_given ↦ rw none_given (lift-Keeps _)
        | inr given ↦ rw given (
            bind-Keeps (call-Keeps _ _ tt)
              (λ subnets. bind-Keeps (lift-Keeps _) (λ chosen. lift-Keeps _)))
      ]

  network_lb-Keeps :
      (mg : MachineGroup) (lb : LoadBalancerExposureSpec) (placement : PlacementSelection)
      (existing : Option LoadBalancer)
      → Keeps Sized (network_lb aws mg lb placement existing)
  unfolding network_lb create_network_load_balancer
  network_lb-Keeps mg lb placement none = bind-Keeps (call-Keeps _ _ tt) (λ out. lift-Keeps _)
  network_lb-Keeps mg lb placement (some existing) = lift-Keeps _

  ensure_network_load_balancer-Keeps :
      (mg : MachineGroup) (lb : LoadBalancerExposureSpec) (placement : PlacementSelection)
      → Keeps Sized (ensure_network_load_balancer aws mg lb placement)
  unfolding ensure_network_load_balancer
  ensure_network_load_balancer-Keeps mg lb placement =
      bind-Keeps (describe_load_balancer_by_name-Keeps aws removal-Sized _)
        (network_lb-Keeps mg lb placement)

  create_missing-Keeps :
      (mg : MachineGroup) (lb : LoadBalancerExposureSpec) (vpc_id : String) (wanted : Map ℤ String)
      (groups : Map ℤ TargetGroup)
      → Keeps Sized (create_missing aws mg lb vpc_id wanted groups)
  unfolding create_missing create_target_group_for
  create_missing-Keeps mg lb vpc_id [] groups = lift-Keeps _
  create_missing-Keeps mg lb vpc_id ((port, uid) ∷ wanted) groups =
      elim (Bool-cases (is_some (get port groups))) [
        | inl present ↦ rw present (create_missing-Keeps mg lb vpc_id wanted groups)
        | inr missing ↦ rw missing (
            bind-Keeps (bind-Keeps (call-Keeps _ _ tt) (λ out. lift-Keeps _)) (λ created.
              bind-Keeps (create_missing-Keeps mg lb vpc_id wanted _) (λ rest. lift-Keeps _)))
      ]

  adapt_listener-Keeps :
      (arn : String) (port : ℤ) (tg_arn : String) (need_modify : Bool)
      → Keeps Sized (adapt_listener aws arn port tg_arn need_modify)
  unfolding adapt_listener
  adapt_listener-Keeps arn port tg_arn true = then-Keeps (do_call-Keeps _ _ tt) (lift-Keeps _)
  adapt_listener-Keeps arn port tg_arn false = lift-Keeps _

  ensure_listener-Keeps :
      (lb_arn : String) (port : ℤ) (tg_arn : String) (existing : Listener)
      → Keeps Sized (ensure_listener aws lb_arn port tg_arn existing)
  unfolding ensure_listener
  ensure_listener-Keeps lb_arn port tg_arn existing = elim (Option-cases existing.arn) [
    | inl absent ↦
        rw absent
          (bind-Keeps (call-Keeps _ _ tt) (λ out. bind-Keeps (lift-Keeps _) (λ made. lift-Keeps _)))
    | inr (arn, present) ↦ rw present (adapt_listener-Keeps arn port tg_arn _)
  ]

  ensure_listeners-Keeps :
      (spec : LoadBalancerExposureSpec) (lb : LoadBalancer) (groups : Map ℤ TargetGroup)
      (listeners : Map ℤ Listener) (wanted : Map ℤ String)
      (clouds : Map String MachinePortCloudStatus)
      → Keeps Sized (ensure_listeners aws spec lb groups listeners wanted clouds)
  unfolding ensure_listeners
  ensure_listeners-Keeps spec lb groups listeners [] clouds = lift-Keeps _
  ensure_listeners-Keeps spec lb groups listeners ((port, uid) ∷ wanted) clouds =
      bind-Keeps (ensure_listener-Keeps _ port _ _)
        (λ arn. ensure_listeners-Keeps spec lb groups listeners wanted _)

  expose_all-Keeps :
      (mg : MachineGroup) (placement : PlacementSelection) (wanted : Map ℤ String)
      (specs : List LoadBalancerExposureSpec) (acc : Exposed)
      → Keeps Sized (expose_all aws mg placement wanted specs acc)
  unfolding expose_all expose_one
  expose_all-Keeps mg placement wanted [] acc = lift-Keeps _
  expose_all-Keeps mg placement wanted (spec ∷ specs) acc =
      bind-Keeps
        (bind-Keeps (resolve_load_balancer_placement-Keeps mg spec placement) (λ place.
          bind-Keeps (ensure_network_load_balancer-Keeps mg spec place) (λ lb.
            bind-Keeps (describe_target_groups_for_lb-Keeps aws removal-Sized _) (λ tgs.
              bind-Keeps (create_missing-Keeps mg spec _ wanted _) (λ groups.
                bind-Keeps (describe_listeners_by_lb-Keeps aws removal-Sized _) (λ listeners.
                  bind-Keeps (ensure_listeners-Keeps spec lb _ _ wanted _) (λ clouds.
                    then-Keeps (delete_listeners-Keeps aws removal-Sized _) (
                      then-Keeps (delete_target_groups-Keeps aws removal-Sized _)
                        (lift-Keeps _)))))))))
        (expose_all-Keeps mg placement wanted specs)

  attach_all-Keeps : (name : String) (arns : List String) → Keeps Sized (attach_all aws name arns)
  unfolding attach_all
  attach_all-Keeps name [] = lift-Keeps _
  attach_all-Keeps name (arn ∷ arns) = do_call-Keeps _ _ tt

  detach_stale-Keeps :
      (name : String) (arns : List String) → Keeps Sized (detach_stale aws name arns)
  unfolding detach_stale
  detach_stale-Keeps name [] = lift-Keeps _
  detach_stale-Keeps name (arn ∷ arns) = do_call-Keeps _ _ tt

  reconcile_asg_target_groups-Keeps :
      (name : String) (desired managed : List String)
      → Keeps Sized (reconcile_asg_target_groups aws name desired managed)
  unfolding reconcile_asg_target_groups adjust_target_groups describe_asgs
  reconcile_asg_target_groups-Keeps name desired managed = bind-Keeps (call-Keeps _ _ tt) (λ asgs.
      bind-Keeps (lift-Keeps _)
        (λ asg. then-Keeps (attach_all-Keeps name _) (detach_stale-Keeps name _)))

  pub ensure_load_balancer_exposure-Keeps :
      (mg : MachineGroup) (name : String) (machine_ports : List MachinePort)
      (allocated : Map String ℤ) (placement : PlacementSelection)
      (specs : List LoadBalancerExposureSpec)
      → Keeps Sized
          (ensure_load_balancer_exposure aws mg name machine_ports allocated placement specs)
  unfolding ensure_load_balancer_exposure
  ensure_load_balancer_exposure-Keeps mg name machine_ports allocated placement specs =
      elim (Bool-cases (length placement.subnet_ids == 0)) [
        | inl none_given ↦ rw none_given (lift-Keeps _)
        | inr given ↦ rw given (
            bind-Keeps (lift-Keeps _) (λ wanted.
              bind-Keeps (expose_all-Keeps mg placement wanted specs _) (λ exposed.
                then-Keeps (reconcile_asg_target_groups-Keeps name _ _) (lift-Keeps _))))
      ]
