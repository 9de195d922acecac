-- ===== src/Cloud/Aws/Group.antt =====
-- The two operations of the AWS manager, EnsureMachineGroup and DeleteMachineGroup.
pub mod Removed
pub mod Sized
pub mod Served
pub mod Provisioned
pub mod Answers
use tiproxy_machine_operator.Api.{
  CloudStatus, LoadBalancerCloudStatus, LoadBalancerExposureSpec, MachineGroup, MachinePort,
  MachinePortCloudStatus, empty_cloud, set_primary_compat,
}
use tiproxy_machine_operator.Cloud.{Ensured, Manager, resolve_names}
use tiproxy_machine_operator.Cloud.Aws.Calls.{
  Aws, AwsExec, AwsHistory, delete_asg, delete_call, delete_launch_template,
}
use tiproxy_machine_operator.Cloud.Aws.Deletion.{
  ensure_load_balancers_deleted, ensure_stale_load_balancers_deleted, in_aws,
}
use tiproxy_machine_operator.Cloud.Aws.Errors.{AwsError}
use tiproxy_machine_operator.Cloud.Aws.Placement.{PlacementSelection}
use tiproxy_machine_operator.Cloud.Aws.Scaling.{ensure_auto_scaling_group, ensure_launch_template}
use tiproxy_machine_operator.Cloud.Aws.Serving.{ensure_load_balancer_exposure, resolve_placement}
use tiproxy_machine_operator.Cloud.Aws.Template.{tiproxy_image_spec_hash}
use tiproxy_machine_operator.Effects.{pure, ◌>>=◌, ◌>>◌}
use tiproxy_machine_operator.Exposure.{normalize_load_balancers}
use tiproxy_machine_operator.Kube.{ApiError, api_failure}
use tiproxy_machine_operator.Prelude.{List, Option, Result, String, [], err, none, ok, some, ℤ, ◌∷◌}
use tiproxy_machine_operator.Prelude.Assoc.{Map}

module _ (aws : Aws) where
  -- The status that EnsureMachineGroup has once the auto scaling group is there.
  unfoldable pub group_status : MachineGroup → String × String → CloudStatus
  group_status mg template =
      let (lt_name, asg_name) = resolve_names mg in
      record empty_cloud {
        machine_group_name = asg_name;
        machine_template_id = template.0;
        machine_template_name = lt_name;
        machine_template_ver = template.1;
      }

  -- The part of EnsureMachineGroup whose errors come with an empty status: the launch template and
  -- the auto scaling group.
  unfoldable pub settle_machines : MachineGroup → AwsExec (PlacementSelection × (String × String))
  settle_machines mg =
      let (lt_name, asg_name) = resolve_names mg in
      let hash = tiproxy_image_spec_hash aws.encoders mg.spec.tiproxy in
      do
        placement ← resolve_placement aws mg
        template ← ensure_launch_template aws mg lt_name
        ensure_auto_scaling_group aws mg asg_name lt_name template.1 hash placement
        pure (placement, template)

  -- How EnsureMachineGroup returns: its status, and a step's error if there is one.
  abbrev pub stop : CloudStatus → AwsError → Ensured
  stop status e = record { status = status; by_uid = []; error = some (api_failure e.text) }

  abbrev pub done_with :
      CloudStatus → Map String MachinePortCloudStatus → Result AwsError (Unit {0}) → Ensured
  done_with status clouds (ok u) = record { status = status; by_uid = clouds; error = none }
  done_with status clouds (err e) = stop status e

  abbrev pub with_load_balancers : CloudStatus → List LoadBalancerCloudStatus → CloudStatus
  with_load_balancers status lbs = set_primary_compat (record status { load_balancers = lbs })

  unfoldable pub after_exposure :
      MachineGroup
      → List LoadBalancerExposureSpec
      → CloudStatus
      → Result AwsError (List LoadBalancerCloudStatus × Map String MachinePortCloudStatus)
      → AwsHistory
      → Ensured × AwsHistory
  after_exposure mg lbs status (err e) h = (stop status e, h)
  after_exposure mg lbs status (ok exposed) h =
      let (r, h') = ensure_stale_load_balancers_deleted aws mg lbs h in
      (done_with (with_load_balancers status exposed.0) exposed.1 r, h')

  -- The part of EnsureMachineGroup after the auto scaling group.
  unfoldable pub ensure_exposure :
      MachineGroup
      → List MachinePort
      → Map String ℤ
      → List LoadBalancerExposureSpec
      → PlacementSelection
      → CloudStatus
      → AwsHistory
      → Ensured × AwsHistory
  ensure_exposure mg machine_ports allocated [] placement status h =
      let (r, h') = ensure_load_balancers_deleted aws mg h in (done_with status [] r, h')
  ensure_exposure mg machine_ports allocated (lb ∷ lbs) placement status h =
      let (_, asg_name) = resolve_names mg in
      let (r, h') =
        ensure_load_balancer_exposure aws mg asg_name machine_ports allocated placement (lb ∷ lbs)
          h in
      after_exposure mg (lb ∷ lbs) status r h'

  unfoldable pub after_group :
      MachineGroup
      → List MachinePort
      → Map String ℤ
      → List LoadBalancerExposureSpec
      → Result AwsError (PlacementSelection × (String × String))
      → AwsHistory
      → Ensured × AwsHistory
  after_group mg machine_ports allocated lbs (err e) h = (stop empty_cloud e, h)
  after_group mg machine_ports allocated lbs (ok (placement, template)) h =
      ensure_exposure mg machine_ports allocated lbs placement (group_status mg template) h

  unfoldable pub after_normalize :
      MachineGroup
      → List MachinePort
      → Map String ℤ
      → Result AwsError (List LoadBalancerExposureSpec)
      → AwsHistory
      → Ensured × AwsHistory
  after_normalize mg machine_ports allocated (err e) h = (stop empty_cloud e, h)
  after_normalize mg machine_ports allocated (ok lbs) h =
      let (r, h') = settle_machines mg h in after_group mg machine_ports allocated lbs r h'

  -- EnsureMachineGroup
  unfoldable pub ensure_machine_group :
      MachineGroup → List MachinePort → Map String ℤ → AwsHistory → Ensured × AwsHistory
  ensure_machine_group mg machine_ports allocated h =
      after_normalize mg machine_ports allocated
        (in_aws (normalize_load_balancers mg.spec.exposure)) h

  -- DeleteMachineGroup
  unfoldable pub delete_machine_group : MachineGroup → AwsExec (Unit {0})
  delete_machine_group mg =
      let (lt_name, asg_name) = resolve_names mg in
      ensure_load_balancers_deleted aws mg
      >> delete_call aws ("delete asg " ∷ asg_name ∷ []) (delete_asg asg_name)
      >> delete_call aws ("delete launch template " ∷ lt_name ∷ []) (delete_launch_template lt_name)

abbrev error_of : Result AwsError (Unit {0}) → Option ApiError
error_of (ok u) = none
error_of (err e) = some (api_failure e.text)

-- The AWS manager as a cloud manager: what AWS answers depends on what was done before.
unfoldable pub aws_manager : {C : Type 0} → (List C → Aws) → Manager C
aws_manager world = record {
  ensure_machine_group = λ h mg machine_ports allocated.
      (ensure_machine_group (world h) mg machine_ports allocated []).0;
  delete_machine_group = λ h mg. error_of ((delete_machine_group (world h) mg []).0);
}
