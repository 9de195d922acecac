-- ===== src/Cloud/Aws/Group/Sized.antt =====
-- The calls of EnsureMachineGroup.
use tiproxy_machine_operator.Agent.Settings.Images.{tagged}
use tiproxy_machine_operator.Api.{MachineGroup, MachineGroupSpec}
use tiproxy_machine_operator.Cloud.Aws.Calls.{
  AsgSettings, AutoScalingGroup, Aws, AwsCall, LaunchTemplate, create_asg, delete_asg,
  delete_launch_template, do_call, update_asg,
}
use tiproxy_machine_operator.Cloud.Aws.Deletion.Removals.{is_removal}
use tiproxy_machine_operator.Cloud.Aws.Group.{settle_machines}
use tiproxy_machine_operator.Cloud.Aws.Placement.{PlacementSelection}
use tiproxy_machine_operator.Cloud.Aws.Scaling.{
  asg_settings, create_group, ensure_auto_scaling_group, ensure_image_rolling_refresh,
  ensure_launch_template, has_active_instance_refresh, image_hash_tag, new_launch_template,
  new_version, set_asg_tag, settle_group, start_rolling, template_of, update_group,
}
use tiproxy_machine_operator.Cloud.Aws.Scaling.Refresh.{sizes_of-bounds}
use tiproxy_machine_operator.Cloud.Aws.Serving.{resolve_placement}
use tiproxy_machine_operator.Cloud.Aws.Targets.{describe_asgs}
use tiproxy_machine_operator.Cloud.Aws.Template.{asg_tag_value}
use tiproxy_machine_operator.Effects.{pure}
use tiproxy_machine_operator.Effects.Keeps.{Keeps, bind-Keeps, call-Keeps, lift-Keeps, then-Keeps}
use tiproxy_machine_operator.Prelude.{
  Bool, Bool-cases, List, String, [], arith, false, if◌then◌else◌, inl, inr, int_eq, length, nat_eq,
  string_eq, true, ◌==◌, ◌∷◌, ◌≡◌, ◌≢◌, ◌≤ℤ◌,
}

-- What holds of each call: the sizes of the auto scaling group are in order, its subnets are some,
-- and neither an auto scaling group nor a launch template is deleted.
abbrev pub InOrder : AsgSettings → Type 0
InOrder s =
    (s.min_size ≤ℤ s.desired_capacity)
    × ((s.desired_capacity ≤ℤ s.max_size) × (s.placement.subnet_ids ≢ []))

abbrev pub Sized : AwsCall → Type 0
Sized (create_asg s tags) = InOrder s
Sized (update_asg s) = InOrder s
Sized (delete_asg name) = ⊥
Sized (delete_launch_template name) = ⊥
Sized _ = Unit {0}

pub removal-Sized : (c : AwsCall) → is_removal c ≡ true → Sized c
removal-Sized (create_asg s tags) removes = ground (arith, removes)
removal-Sized (update_asg s) removes = ground (arith, removes)
removal-Sized (delete_asg name) removes = ground (arith, removes)
removal-Sized (delete_launch_template name) removes = ground (arith, removes)
removal-Sized _ removes = tt

some-ne-nil : (ids : List String) → length ids == 0 ≡ false → ids ≢ []
some-ne-nil [] empty e = ground (arith, empty)
some-ne-nil (id ∷ ids) given e = ground (arith, e)

sizes_of-InOrder :
    (spec : MachineGroupSpec) (asg_name lt_name lt_version : String)
    (placement : PlacementSelection)
    → length placement.subnet_ids == 0 ≡ false
    → InOrder (asg_settings spec asg_name lt_name lt_version placement)
unfolding asg_settings
sizes_of-InOrder spec asg_name lt_name lt_version placement some_subnet =
    let (low, high) = sizes_of-bounds spec in
    (low, (high, some-ne-nil placement.subnet_ids some_subnet))

module _ (aws : Aws) where
  do_call-Keeps :
      (pieces : List String) (c : AwsCall) → Sized c → Keeps Sized (do_call aws pieces c)
  unfolding do_call
  do_call-Keeps pieces c p = call-Keeps _ c p

  template_of-Keeps :
      (mg : MachineGroup) (name : String) (ts : List LaunchTemplate)
      → Keeps Sized (template_of aws mg name ts)
  unfolding template_of new_launch_template new_version
  template_of-Keeps mg name [] = bind-Keeps (call-Keeps _ _ tt) (λ lt. lift-Keeps _)
  template_of-Keeps mg name (lt ∷ ts) =
      bind-Keeps (call-Keeps _ _ tt) (λ made. then-Keeps (call-Keeps _ _ tt) (lift-Keeps _))

  ensure_launch_template-Keeps :
      (mg : MachineGroup) (name : String) → Keeps Sized (ensure_launch_template aws mg name)
  unfolding ensure_launch_template
  ensure_launch_template-Keeps mg name = elim (Bool-cases (mg.spec.machine.image == "")) [
    | inl no_image ↦ rw no_image (lift-Keeps _)
    | inr image ↦ elim (Bool-cases (mg.spec.machine.class == "")) [
      | inl no_class ↦ rw (image, no_class) (lift-Keeps _)
      | inr class ↦ rw (image, class) (bind-Keeps (call-Keeps _ _ tt) (template_of-Keeps mg name))
    ]
  ]

  set_asg_tag-Keeps : (name key value : String) → Keeps Sized (set_asg_tag aws name key value)
  unfolding set_asg_tag
  set_asg_tag-Keeps name key value = do_call-Keeps _ _ tt

  start_rolling-Keeps :
      (name hash : String) (in_flight : Bool) → Keeps Sized (start_rolling aws name hash in_flight)
  unfolding start_rolling
  start_rolling-Keeps name hash true = lift-Keeps _
  start_rolling-Keeps name hash false = bind-Keeps (call-Keeps _ _ tt) next
    where
      next :
          (fresh : Bool)
          → Keeps Sized (if fresh then set_asg_tag aws name image_hash_tag hash else pure tt)
      next true = set_asg_tag-Keeps _ _ _
      next false = lift-Keeps _

  ensure_image_rolling_refresh-Keeps :
      (name : String) (asg : AutoScalingGroup) (hash : String)
      → Keeps Sized (ensure_image_rolling_refresh aws name asg hash)
  unfolding ensure_image_rolling_refresh has_active_instance_refresh
  ensure_image_rolling_refresh-Keeps name asg hash = elim (Bool-cases (hash == "")) [
    | inl no_hash ↦ rw no_hash (lift-Keeps _)
    | inr some_hash ↦ elim (Bool-cases (asg_tag_value asg.tags image_hash_tag == "")) [
      | inl untagged ↦ rw (some_hash, untagged) (set_asg_tag-Keeps _ _ _)
      | inr tagged ↦ elim (Bool-cases (asg_tag_value asg.tags image_hash_tag == hash)) [
        | inl same ↦ rw (some_hash, tagged, same) (lift-Keeps _)
        | inr differs ↦ elim (Bool-cases (asg.instances == 0)) [
          | inl idle ↦ rw (some_hash, tagged, differs, idle) (set_asg_tag-Keeps _ _ _)
          | inr running ↦
              rw (some_hash, tagged, differs, running)
                (bind-Keeps (bind-Keeps (call-Keeps _ _ tt) (λ ss. lift-Keeps _))
                  (start_rolling-Keeps name hash))
        ]
      ]
    ]
  ]

  settle_group-Keeps :
      (mg : MachineGroup) (s : AsgSettings) (hash : String) (asgs : List AutoScalingGroup)
      → InOrder s
      → Keeps Sized (settle_group aws mg s hash asgs)
  unfolding settle_group create_group update_group
  settle_group-Keeps mg s hash [] sized =
      then-Keeps (do_call-Keeps _ _ sized) (elim (Bool-cases (hash == "")) [
        | inl no_hash ↦ rw no_hash (lift-Keeps _)
        | inr some_hash ↦ rw some_hash (set_asg_tag-Keeps _ _ _)
      ])
  settle_group-Keeps mg s hash (asg ∷ asgs) sized =
      then-Keeps (do_call-Keeps _ _ sized) (ensure_image_rolling_refresh-Keeps s.name asg hash)

  describe_asgs-Keeps : (name : String) → Keeps Sized (describe_asgs aws name)
  unfolding describe_asgs
  describe_asgs-Keeps name = call-Keeps _ _ tt

  ensure_auto_scaling_group-Keeps :
      (mg : MachineGroup) (asg_name lt_name lt_version hash : String)
      (placement : PlacementSelection)
      → Keeps Sized (ensure_auto_scaling_group aws mg asg_name lt_name lt_version hash placement)
  unfolding ensure_auto_scaling_group
  ensure_auto_scaling_group-Keeps mg asg_name lt_name lt_version hash placement =
      elim (Bool-cases (length placement.subnet_ids == 0)) [
        | inl none_given ↦ rw none_given (lift-Keeps _)
        | inr given ↦ rw given (
            bind-Keeps (describe_asgs-Keeps _) (λ asgs.
              settle_group-Keeps mg _ hash asgs
                (sizes_of-InOrder mg.spec asg_name lt_name lt_version placement given)))
      ]

  resolve_placement-Keeps : (mg : MachineGroup) → Keeps Sized (resolve_placement aws mg)
  unfolding resolve_placement
  resolve_placement-Keeps mg = elim (Bool-cases (length mg.spec.network.subnet_ids == 0)) [
    | inl none_given ↦ rw none_given (lift-Keeps _)
    | inr given ↦ rw given (
        bind-Keeps (call-Keeps _ _ tt) (λ subnets.
          bind-Keeps (lift-Keeps _) (λ chosen. bind-Keeps (lift-Keeps _) (λ spread. lift-Keeps _))))
  ]

  pub settle_machines-Keeps : (mg : MachineGroup) → Keeps Sized (settle_machines aws mg)
  unfolding settle_machines
  settle_machines-Keeps mg = bind-Keeps (resolve_placement-Keeps mg) (λ placement.
      bind-Keeps (ensure_launch_template-Keeps mg _) (λ template.
        then-Keeps (ensure_auto_scaling_group-Keeps mg _ _ _ _ placement) (lift-Keeps _)))
