-- ===== src/Cloud/Aws/Scaling.antt =====
-- The launch template and the auto scaling group: ensureLaunchTemplate, ensureAutoScalingGroup,
-- ensureImageRollingRefresh, hasActiveInstanceRefresh, setASGTag.
pub mod Refresh
use tiproxy_machine_operator.Api.{MachineGroup, MachineGroupSpec, desired_replicas}
use tiproxy_machine_operator.Cloud.Aws.Calls.{
  AsgSettings, AutoScalingGroup, Aws, AwsExec, LaunchTemplate, RefreshStatus, cancelling,
  create_asg, create_launch_template, create_launch_template_version, describe_launch_template,
  describe_refreshes, do_call, in_progress, modify_launch_template, or_absent, other_status,
  pending, start_refresh, tag_asg, update_asg, wrapped,
}
use tiproxy_machine_operator.Cloud.Aws.Errors.{
  AwsError, is_instance_refresh_in_progress, plain, wrap,
}
use tiproxy_machine_operator.Cloud.Aws.Placement.{PlacementSelection}
use tiproxy_machine_operator.Cloud.Aws.Targets.{describe_asgs}
use tiproxy_machine_operator.Cloud.Aws.Template.{
  asg_tag_value, build_launch_template_data, build_tags, version_description,
}
use tiproxy_machine_operator.Effects.{call, pure, raise, ◌>>=◌, ◌>>◌}
use tiproxy_machine_operator.Prelude.{
  Bool, List, Option, Result, String, [], err, false, if◌then◌else◌, int_eq, length, ltz, nat_eq,
  none, ok, some, string_eq, true, ℤ, ◌==◌, ◌||◌, ◌∷◌,
}
use tiproxy_machine_operator.Text.{show_int}

-- asgTagTiProxyImageHash
abbrev pub image_hash_tag : String
image_hash_tag = "tiproxy.pingcap.com/tiproxy-image-hash"

-- The sizes of the group.
pub record Sizes : Type 0 where
  pub min_size : ℤ
  pub max_size : ℤ
  pub desired : ℤ

abbrev pub size_or : Option ℤ → ℤ → ℤ
size_or none d = d
size_or (some n) d = n

-- The part of ensureAutoScalingGroup that computes the sizes.
unfoldable pub sizes_of : MachineGroupSpec → Sizes
sizes_of spec =
    let wanted = desired_replicas spec in
    let min_size = size_or spec.scaling.min_replicas wanted in
    let max_size = size_or spec.scaling.max_replicas wanted in
    let desired = if ltz wanted min_size then min_size else wanted in
    record {
      min_size = min_size;
      max_size = if ltz max_size desired then desired else max_size;
      desired = desired;
    }

unfoldable pub asg_settings :
    MachineGroupSpec → String → String → String → PlacementSelection → AsgSettings
asg_settings spec asg_name lt_name lt_version placement =
    let sizes = sizes_of spec in
    record {
      name = asg_name;
      min_size = sizes.min_size;
      max_size = sizes.max_size;
      desired_capacity = sizes.desired;
      placement = placement;
      template_name = lt_name;
      template_version = if lt_version == "" then "$Latest" else lt_version;
    }

abbrev pub is_active : RefreshStatus → Bool
is_active pending = true
is_active in_progress = true
is_active cancelling = true
is_active other_status = false

unfoldable pub any_active : List RefreshStatus → Bool
any_active [] = false
any_active (s ∷ ss) = is_active s || any_active ss

module _ (aws : Aws) where
  unfoldable pub new_launch_template : MachineGroup → String → AwsExec (String × String)
  new_launch_template mg lt_name =
      let input =
        create_launch_template lt_name (build_launch_template_data aws.encoders mg)
          (version_description aws.encoders mg) in
      do
        lt ←
            call
              (λ h.
                wrapped ("create launch template " ∷ lt_name ∷ [])
                  (aws.answer_created_template h input))
              input
        pure (lt.id, show_int lt.latest_version)

  -- The error of ModifyLaunchTemplate is dropped.
  unfoldable pub new_version : MachineGroup → String → LaunchTemplate → AwsExec (String × String)
  new_version mg lt_name lt =
      let input =
        create_launch_template_version lt.id (build_launch_template_data aws.encoders mg)
          (version_description aws.encoders mg) in
      do
        made ←
            call
              (λ h.
                wrapped ("create launch template version " ∷ lt_name ∷ [])
                  (aws.answer_created_template h input))
              input
        call (λ h. ok tt) (modify_launch_template lt.id (show_int made.latest_version))
        pure (lt.id, show_int made.latest_version)

  unfoldable pub template_of :
      MachineGroup → String → List LaunchTemplate → AwsExec (String × String)
  template_of mg lt_name [] = new_launch_template mg lt_name
  template_of mg lt_name (lt ∷ _) = new_version mg lt_name lt

  -- ensureLaunchTemplate
  unfoldable pub ensure_launch_template : MachineGroup → String → AwsExec (String × String)
  ensure_launch_template mg lt_name =
      if mg.spec.machine.image == ""
      then raise (plain "spec.machine.image is required")
      else if mg.spec.machine.class == ""
      then raise (plain "spec.machine.class is required")
      else do
        templates ←
            call
              (λ h.
                or_absent ("describe launch template " ∷ lt_name ∷ [])
                  (aws.answer_launch_templates h lt_name))
              (describe_launch_template lt_name)
        template_of mg lt_name templates

  -- setASGTag
  unfoldable pub set_asg_tag : String → String → String → AwsExec (Unit {0})
  set_asg_tag asg_name key value =
      do_call aws ("set asg tag " ∷ key ∷ "=" ∷ value ∷ " for " ∷ asg_name ∷ [])
        (tag_asg asg_name key value)

  -- hasActiveInstanceRefresh
  unfoldable pub has_active_instance_refresh : String → AwsExec Bool
  has_active_instance_refresh asg_name = do
    refreshes ←
        call
          (λ h.
            wrapped ("describe instance refreshes for asg " ∷ asg_name ∷ [])
              (aws.answer_refreshes h asg_name))
          (describe_refreshes asg_name)
    pure (any_active refreshes)

  -- The answer of StartInstanceRefresh: whether it started, false when another one is in progress.
  abbrev pub started : String → Option AwsError → Result AwsError Bool
  started asg_name none = ok true
  started asg_name (some e) =
      if is_instance_refresh_in_progress e
      then ok false
      else err (wrap ("start instance refresh for asg " ∷ asg_name ∷ []) e)

  unfoldable pub start_rolling : String → String → Bool → AwsExec (Unit {0})
  start_rolling asg_name hash in_flight = if in_flight then pure tt else do
    fresh ←
        call (λ h. started asg_name (aws.answer_done h (start_refresh asg_name)))
          (start_refresh asg_name)
    if fresh then set_asg_tag asg_name image_hash_tag hash else pure tt

  -- ensureImageRollingRefresh
  unfoldable pub ensure_image_rolling_refresh :
      String → AutoScalingGroup → String → AwsExec (Unit {0})
  ensure_image_rolling_refresh asg_name asg hash =
      let existing = asg_tag_value asg.tags image_hash_tag in
      if hash == ""
      then pure tt
      else if existing == ""
      then set_asg_tag asg_name image_hash_tag hash
      else if existing == hash
      then pure tt
      else if asg.instances == 0
      then set_asg_tag asg_name image_hash_tag hash
      else has_active_instance_refresh asg_name >>= start_rolling asg_name hash

  unfoldable pub create_group : MachineGroup → AsgSettings → String → AwsExec (Unit {0})
  create_group mg settings hash =
      do_call aws ("create asg " ∷ settings.name ∷ []) (create_asg settings (build_tags mg))
      >> (if hash == "" then pure tt else set_asg_tag settings.name image_hash_tag hash)

  unfoldable pub update_group : AsgSettings → AutoScalingGroup → String → AwsExec (Unit {0})
  update_group settings existing hash =
      do_call aws ("update asg " ∷ settings.name ∷ []) (update_asg settings)
      >> ensure_image_rolling_refresh settings.name existing hash

  unfoldable pub settle_group :
      MachineGroup → AsgSettings → String → List AutoScalingGroup → AwsExec (Unit {0})
  settle_group mg settings hash [] = create_group mg settings hash
  settle_group mg settings hash (existing ∷ _) = update_group settings existing hash

  -- ensureAutoScalingGroup
  unfoldable pub ensure_auto_scaling_group :
      MachineGroup → String → String → String → String → PlacementSelection → AwsExec (Unit {0})
  ensure_auto_scaling_group mg asg_name lt_name lt_version hash placement =
      let settings = asg_settings mg.spec asg_name lt_name lt_version placement in
      if length placement.subnet_ids == 0
      then raise (plain "spec.network.subnetIDs is required")
      else do asgs ← describe_asgs aws asg_name; settle_group mg settings hash asgs
