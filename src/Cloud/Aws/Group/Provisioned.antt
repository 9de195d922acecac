-- ===== src/Cloud/Aws/Group/Provisioned.antt =====
-- All calls of EnsureMachineGroup.
use tiproxy_machine_operator.Api.{
  CloudStatus, LoadBalancerCloudStatus, LoadBalancerExposureSpec, MachineGroup, MachinePort,
  MachinePortCloudStatus,
}
use tiproxy_machine_operator.Cloud.Aws.Calls.{Aws, AwsHistory}
use tiproxy_machine_operator.Cloud.Aws.Deletion.Removals.{
  ensure_load_balancers_deleted-Keeps, ensure_stale_load_balancers_deleted-Keeps,
}
use tiproxy_machine_operator.Cloud.Aws.Errors.{AwsError}
use tiproxy_machine_operator.Cloud.Aws.Group.{
  after_exposure, after_group, after_normalize, ensure_exposure, ensure_machine_group,
}
use tiproxy_machine_operator.Cloud.Aws.Group.Served.{ensure_load_balancer_exposure-Keeps}
use tiproxy_machine_operator.Cloud.Aws.Group.Sized.{Sized, removal-Sized, settle_machines-Keeps}
use tiproxy_machine_operator.Cloud.Aws.Placement.{PlacementSelection}
use tiproxy_machine_operator.Prelude.{All, List, Result, String, [], err, ok, ℤ, ◌∷◌}
use tiproxy_machine_operator.Prelude.Assoc.{Map}

module _ (aws : Aws) (mg : MachineGroup) (machine_ports : List MachinePort)
    (allocated : Map String ℤ) where
  after_exposure-Sized :
      (lbs : List LoadBalancerExposureSpec) (status : CloudStatus)
      (r : Result AwsError (List LoadBalancerCloudStatus × Map String MachinePortCloudStatus))
      (h : AwsHistory)
      → All Sized h
      → All Sized ((after_exposure aws mg lbs status r h).1)
  unfolding after_exposure
  after_exposure-Sized lbs status (err e) h before = before
  after_exposure-Sized lbs status (ok exposed) h before =
      (ensure_stale_load_balancers_deleted-Keeps aws removal-Sized mg lbs).kept h before

  ensure_exposure-Sized :
      (lbs : List LoadBalancerExposureSpec) (placement : PlacementSelection) (status : CloudStatus)
      (h : AwsHistory)
      → All Sized h
      → All Sized ((ensure_exposure aws mg machine_ports allocated lbs placement status h).1)
  unfolding ensure_exposure
  ensure_exposure-Sized [] placement status h before =
      (ensure_load_balancers_deleted-Keeps aws removal-Sized mg).kept h before
  ensure_exposure-Sized (lb ∷ lbs) placement status h before =
      after_exposure-Sized (lb ∷ lbs) status _ _ (
        (ensure_load_balancer_exposure-Keeps aws mg _ machine_ports allocated placement
            (lb ∷ lbs)).kept
          h before)

  after_group-Sized :
      (lbs : List LoadBalancerExposureSpec)
      (r : Result AwsError (PlacementSelection × (String × String))) (h : AwsHistory)
      → All Sized h
      → All Sized ((after_group aws mg machine_ports allocated lbs r h).1)
  unfolding after_group
  after_group-Sized lbs (err e) h before = before
  after_group-Sized lbs (ok (placement, template)) h before =
      ensure_exposure-Sized lbs placement _ h before

  after_normalize-Sized :
      (r : Result AwsError (List LoadBalancerExposureSpec)) (h : AwsHistory)
      → All Sized h
      → All Sized ((after_normalize aws mg machine_ports allocated r h).1)
  unfolding after_normalize
  after_normalize-Sized (err e) h before = before
  after_normalize-Sized (ok lbs) h before =
      after_group-Sized lbs _ _ ((settle_machines-Keeps aws mg).kept h before)

  -- Whatever AWS answers, every auto scaling group that EnsureMachineGroup creates or updates has
  -- its minimal size at most its desired capacity, the desired capacity at most its maximal size,
  -- and a subnet to be placed in; and EnsureMachineGroup deletes no auto scaling group and no launch
  -- template.
  pub ensure_machine_group-Sized :
      All Sized ((ensure_machine_group aws mg machine_ports allocated []).1)
  unfolding ensure_machine_group
  ensure_machine_group-Sized = after_normalize-Sized _ [] tt
