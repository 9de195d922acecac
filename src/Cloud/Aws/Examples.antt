-- ===== src/Cloud/Aws/Examples.antt =====
-- The AWS manager at concrete inputs.
use tiproxy_machine_operator.Prelude.{
  All, Bool, List, Option, Result, String, [], ap, arith, err, false, insert_by, int_eq, nat_eq,
  none, not, ok, pos, refl, some, sort_by, string_eq, subst, sym, true, ◌&&◌, ◌==◌, ◌||◌, ◌∙◌, ◌∷◌,
  ◌≡◌,
}
use tiproxy_machine_operator.Cloud.Aws.Serving.Arns.{HasArn, NamesListeners}
use tiproxy_machine_operator.Api.{MachineGroup, desired_replicas, effective_scope}
use tiproxy_machine_operator.Cloud.{resolve_names}
use tiproxy_machine_operator.Cloud.Aws.Balancers.{
  check_load_balancer, describe_listeners_by_lb, describe_load_balancer_by_name,
  describe_target_groups_for_lb, ensure_network_load_balancer, network_lb, wanted_scheme,
}
use tiproxy_machine_operator.Cloud.Aws.Calls.{
  AutoScalingGroup, Aws, AwsCall, AwsHistory, LaunchTemplate, Listener, LoadBalancer,
  create_listener, delete_asg, delete_launch_template, describe_refreshes, do_call, internal,
  start_refresh, tag_asg,
}
use tiproxy_machine_operator.Cloud.Aws.Deletion.{
  delete_frontend, delete_listed, delete_listeners, delete_target_groups,
  ensure_stale_load_balancers_deleted,
}
use tiproxy_machine_operator.Cloud.Aws.Deletion.Absent.{OnlyAbsent}
use tiproxy_machine_operator.Cloud.Aws.Errors.{AwsError, contains_text, is_not_found, plain}
use tiproxy_machine_operator.Cloud.Aws.Exposing.{
  groups_by_port, listeners_by_port, managed_arns, protocol_of, stale_groups, stale_listeners,
  to_upper, want_if, want_port, wanted_arns, wanted_ports,
}
use tiproxy_machine_operator.Cloud.Aws.Group.{
  after_exposure, after_group, after_normalize, delete_machine_group, ensure_exposure,
  ensure_machine_group, settle_machines,
}
use tiproxy_machine_operator.Cloud.Aws.Group.Answers.{ensure_machine_group-Listed}
use tiproxy_machine_operator.Cloud.Aws.Group.Provisioned.{ensure_machine_group-Sized}
use tiproxy_machine_operator.Cloud.Aws.Group.Removed.{
  Removes, delete_machine_group-Removes, delete_machine_group-done,
}
use tiproxy_machine_operator.Cloud.Aws.Group.Sized.{Sized}
use tiproxy_machine_operator.Cloud.Aws.Names.{
  aws_resource_name, clean, clean_char, collapse, has_double, long_name, replace_double, shorten,
  trim_dash, trim_left_dash, trim_right_dash,
}
use tiproxy_machine_operator.Cloud.Aws.Names.Bounds.{
  IsName, aws_resource_name-IsName, long_name-done,
}
use tiproxy_machine_operator.Cloud.Aws.Names.Shape.{Allowed}
use tiproxy_machine_operator.Cloud.Aws.Placement.{
  Subnet, by_id, choose, conclude, consider, consider_all, consider_found,
  distribution_for_spread_policy, drop_zone, normalize_spread_policy, one_of,
  select_placement_subnets, underscores_to_dashes, zone_set,
}
use tiproxy_machine_operator.Cloud.Aws.Placement.Subnets.{Selects, select_placement_subnets-Selects}
use tiproxy_machine_operator.Cloud.Aws.Scaling.{
  any_active, ensure_auto_scaling_group, ensure_image_rolling_refresh, ensure_launch_template,
  has_active_instance_refresh, image_hash_tag, new_version, set_asg_tag, settle_group, sizes_of,
  start_rolling, template_of, update_group,
}
use tiproxy_machine_operator.Cloud.Aws.Scaling.Refresh.{Rolled, ensure_image_rolling_refresh-Rolled}
use tiproxy_machine_operator.Cloud.Aws.Serving.{
  create_missing, ensure_listeners, ensure_load_balancer_exposure, expose_all, expose_one,
  resolve_load_balancer_placement, resolve_placement,
}
use tiproxy_machine_operator.Cloud.Aws.Targets.{
  adjust_target_groups, attach_all, create_target_group_for, dedupe_from, dedupe_strings,
  describe_asgs, detach_stale, ensure_listener, reconcile_asg_target_groups, to_attach, to_detach,
}
use tiproxy_machine_operator.Cloud.Aws.Targets.Attached.{
  attached, reconcile_asg_target_groups-attached,
}
use tiproxy_machine_operator.Cloud.Aws.Template.{Encoders, asg_tag_value, tiproxy_image_spec_hash}
use tiproxy_machine_operator.Cloud.Contract.{Listed, names_of_lbs}
use tiproxy_machine_operator.Cloud.Noop.{ensure}
use tiproxy_machine_operator.Cloud.Noop.Listeners.{ensure-Listed}
use tiproxy_machine_operator.Controller.Examples.{allocated_example, live_group, two_ports}
use tiproxy_machine_operator.Effects.{call, continue, lift, ◌>>=◌, ◌>>◌}
use tiproxy_machine_operator.Effects.Keeps.{Keeps}
use tiproxy_machine_operator.Exposure.{default_load_balancer, normalize_load_balancers}
use tiproxy_machine_operator.Prelude.Assoc.{contains, get, put}
use tiproxy_machine_operator.Text.{concat, to_lower, trim_space}

abbrev encoders_example : Encoders
encoders_example = record {
  sha256_hex = λ s. "0123abcd";
  base64 = λ s. s;
  quote = λ s. s;
  json = λ s. "{}";
}

abbrev subnet_a : Subnet
subnet_a = record { subnet_id = "subnet-a"; vpc_id = "vpc-1"; availability_zone = "us-east-1a" }

abbrev subnet_b : Subnet
subnet_b = record { subnet_id = "subnet-b"; vpc_id = "vpc-1"; availability_zone = "us-east-1b" }

abbrev old_asg : AutoScalingGroup
old_asg = record {
  target_group_arns = "tg-old" ∷ "tg-foreign" ∷ [];
  tags = (image_hash_tag, "old-hash") ∷ [];
  instances = 2;
}

abbrev template_example : LaunchTemplate
template_example = record { id = "lt-1"; latest_version = pos 4 }

abbrev lb_example : LoadBalancer
lb_example = record {
  arn = some "arn:lb";
  dns_name = "lb.example.com";
  is_network = true;
  scheme = internal;
}

-- The listener that was created; there is none before.
abbrev listeners_of : AwsCall → List Listener
listeners_of (create_listener lb_arn port tg_arn) =
    record { arn = some "listener"; port = some port; is_tcp = true; default_actions = [] } ∷ []
listeners_of _ = []

-- AWS that has two subnets and the group, and that carries out every call.
abbrev aws_up : Aws
aws_up = record {
  encoders = encoders_example;
  answer_subnets = λ h ids. ok (subnet_a ∷ subnet_b ∷ []);
  answer_launch_templates = λ h name. ok (template_example ∷ []);
  answer_created_template = λ h c. ok template_example;
  answer_asgs = λ h name. ok (old_asg ∷ []);
  answer_refreshes = λ h name. ok [];
  answer_load_balancers = λ h c. ok (lb_example ∷ []);
  answer_listeners = λ h c. ok (listeners_of c);
  answer_target_groups = λ h c. ok (record { arn = some "tg-new"; port = some (pos 4007) } ∷ []);
  answer_done = λ h c. none;
}

abbrev missing : AwsError
missing = plain "the resource does not exist"

-- AWS in which nothing exists.
abbrev aws_gone : Aws
aws_gone = record {
  encoders = encoders_example;
  answer_subnets = λ h ids. err missing;
  answer_launch_templates = λ h name. err missing;
  answer_created_template = λ h c. err missing;
  answer_asgs = λ h name. err missing;
  answer_refreshes = λ h name. err missing;
  answer_load_balancers = λ h c. err missing;
  answer_listeners = λ h c. err missing;
  answer_target_groups = λ h c. err missing;
  answer_done = λ h c. some missing;
}

abbrev sized_group : MachineGroup
sized_group = record live_group {
  spec = record live_group.spec {
    replicas = some (pos 2);
    scaling = record { min_replicas = some (pos 3); max_replicas = some (pos 1) };
    machine = record { image = "ami-1"; class = "m5.large"; identity_ref = ""; ssh_key_name = "" };
    network = record { subnet_ids = "subnet-a" ∷ []; security_group_ids = [] };
  };
}

hex_example : (s : String) → Allowed (encoders_example.sha256_hex s)
hex_example s = (refl, (refl, (refl, (refl, (refl, (refl, (refl, (refl, tt))))))))

aws_resource_name-IsName_example : IsName 32 (
    aws_resource_name encoders_example.sha256_hex "ns-group-with-a-very-long-name-internal-4007" 32)
aws_resource_name-IsName_example =
    aws_resource_name-IsName encoders_example.sha256_hex hex_example
      "ns-group-with-a-very-long-name-internal-4007" 32 (omega arith)

long_name-done_example : has_double (long_name "ns--group__Name") ≡ false
long_name-done_example = long_name-done "ns--group__Name"

delete_machine_group-Removes_example :
    Keeps (Removes sized_group) (delete_machine_group aws_up sized_group)
delete_machine_group-Removes_example = delete_machine_group-Removes aws_up sized_group

ensure_machine_group-Sized_example :
    All Sized ((ensure_machine_group aws_up sized_group two_ports allocated_example []).1)
ensure_machine_group-Sized_example =
    ensure_machine_group-Sized aws_up sized_group two_ports allocated_example

selects_zone :
    select_placement_subnets
      ("subnet-b" ∷ "subnet-a" ∷ [])
      (subnet_a ∷ subnet_b ∷ [])
      ("us-east-1b" ∷ [])
    ≡ ok (record {
      subnet_ids = "subnet-b" ∷ [];
      availability_zones = "us-east-1b" ∷ [];
      vpc_id = "vpc-1";
      distribution = none;
    })
unfolding select_placement_subnets consider_all consider consider_found choose conclude by_id
    zone_set drop_zone trim_space get put contains
selects_zone = refl

nothing_called : old_asg.target_group_arns ≡ attached "asg" ("tg-old" ∷ "tg-foreign" ∷ []) []
unfolding attached
nothing_called = refl

old_is_tagged : asg_tag_value old_asg.tags image_hash_tag == "" ≡ false
unfolding asg_tag_value
old_is_tagged = refl

old_differs : asg_tag_value old_asg.tags image_hash_tag == "new-hash" ≡ false
unfolding asg_tag_value
old_differs = refl

missing_is_absent : is_not_found missing ≡ true
unfolding is_not_found contains_text to_lower concat
missing_is_absent = refl

abbrev absent_of : Option AwsError → Bool
absent_of none = true
absent_of (some e) = is_not_found e

abbrev absent_answer {ℓ} : {A : Type ℓ} → Result AwsError A → Bool
absent_answer (ok a) = true
absent_answer (err e) = is_not_found e

aws_gone-OnlyAbsent : OnlyAbsent aws_gone
aws_gone-OnlyAbsent = record {
  done_absent = λ h c e fails. sym (ap absent_of fails) ∙ missing_is_absent;
  load_balancers_absent = λ h c e fails. sym (ap absent_answer fails) ∙ missing_is_absent;
  listeners_absent = λ h c e fails. sym (ap absent_answer fails) ∙ missing_is_absent;
  target_groups_absent = λ h c e fails. sym (ap absent_answer fails) ∙ missing_is_absent;
}

one_internal : normalize_load_balancers sized_group.spec.exposure ≡ ok (default_load_balancer ∷ [])
unfolding normalize_load_balancers
one_internal = refl

select_placement_subnets-Selects_example :
    Selects ("subnet-b" ∷ "subnet-a" ∷ []) (subnet_a ∷ subnet_b ∷ []) ("us-east-1b" ∷ []) (record {
      subnet_ids = "subnet-b" ∷ [];
      availability_zones = "us-east-1b" ∷ [];
      vpc_id = "vpc-1";
      distribution = none;
    })
select_placement_subnets-Selects_example =
    select_placement_subnets-Selects ("subnet-b" ∷ "subnet-a" ∷ []) (subnet_a ∷ subnet_b ∷ [])
      ("us-east-1b" ∷ []) _ selects_zone

reconcile_asg_target_groups-attached_example :
    (h' : AwsHistory) × (reconcile_asg_target_groups aws_up "asg"
        ("tg-new" ∷ [])
        ("tg-old" ∷ "tg-new" ∷ [])
        []
      ≡ (ok tt, h'))
    × ((x : String)
        → contains (attached "asg" ("tg-old" ∷ "tg-foreign" ∷ []) h') x ≡ (
            contains ("tg-new" ∷ []) x
            || (contains (attached "asg" ("tg-old" ∷ "tg-foreign" ∷ []) []) x
                && not (contains ("tg-old" ∷ "tg-new" ∷ []) x))))
reconcile_asg_target_groups-attached_example =
    reconcile_asg_target_groups-attached aws_up "asg" ("tg-old" ∷ "tg-foreign" ∷ []) (λ h c. refl)
      old_asg ("tg-new" ∷ []) ("tg-old" ∷ "tg-new" ∷ []) [] refl nothing_called

ensure_image_rolling_refresh-Rolled_example :
    Rolled aws_up "asg" "new-hash" []
      ((ensure_image_rolling_refresh aws_up "asg" old_asg "new-hash" []).1)
ensure_image_rolling_refresh-Rolled_example =
    ensure_image_rolling_refresh-Rolled aws_up "asg" "new-hash" old_asg [] refl old_is_tagged
      old_differs refl

delete_machine_group-done_example :
    (h' : AwsHistory) × (delete_machine_group aws_gone sized_group [] ≡ (
      ok tt,
      delete_launch_template ((resolve_names sized_group).0)
          ∷ delete_asg ((resolve_names sized_group).1)
          ∷ h',
    ))
delete_machine_group-done_example =
    delete_machine_group-done aws_gone aws_gone-OnlyAbsent sized_group _ one_internal []

no_error : (ensure_machine_group aws_up sized_group two_ports allocated_example []).0.error ≡ none
unfolding ensure_machine_group after_normalize normalize_load_balancers after_group ensure_exposure
    after_exposure settle_machines resolve_placement select_placement_subnets consider_all
    consider_found consider choose conclude by_id zone_set drop_zone distribution_for_spread_policy
    normalize_spread_policy underscores_to_dashes one_of ensure_launch_template template_of
    new_version ensure_auto_scaling_group settle_group update_group ensure_image_rolling_refresh
    tiproxy_image_spec_hash ensure_stale_load_balancers_deleted delete_listed delete_frontend
    ensure_load_balancer_exposure ◌>>=◌ ◌>>◌ continue lift call wanted_ports want_if want_port
    protocol_of to_upper trim_space get put expose_all expose_one resolve_load_balancer_placement
    ensure_network_load_balancer describe_load_balancer_by_name network_lb check_load_balancer
    wanted_scheme effective_scope to_lower describe_target_groups_for_lb describe_listeners_by_lb
    create_missing groups_by_port create_target_group_for ensure_listeners ensure_listener
    listeners_by_port delete_listeners stale_listeners delete_target_groups stale_groups
    reconcile_asg_target_groups describe_asgs adjust_target_groups to_attach to_detach attach_all
    detach_stale do_call sort_by insert_by dedupe_strings dedupe_from wanted_arns managed_arns
    contains
no_error = refl

-- The listeners that are answered with have the ARN `listener`.
listeners_of-HasArn : (c : AwsCall) → All HasArn (listeners_of c)
unfolding trim_space
listeners_of-HasArn (create_listener lb_arn port tg_arn) = (refl, tt)
listeners_of-HasArn _ = tt

names_listeners : NamesListeners aws_up
names_listeners h c ls answered =
    let same : listeners_of c ≡ ls = cc in subst (λ xs. All HasArn xs) same (listeners_of-HasArn c)

ensure_machine_group-Listed_example :
    All
      (Listed allocated_example
        (names_of_lbs (default_load_balancer ∷ []))
        (ensure_machine_group aws_up sized_group two_ports allocated_example []).0.by_uid)
      two_ports
ensure_machine_group-Listed_example =
    ensure_machine_group-Listed aws_up names_listeners sized_group two_ports allocated_example
      (default_load_balancer ∷ []) one_internal no_error

-- Without image fields the hash is empty, and a group with another hash is left as it is.
no_image_no_refresh :
    ensure_image_rolling_refresh aws_up "asg" old_asg
      (tiproxy_image_spec_hash encoders_example sized_group.spec.tiproxy)
      []
    ≡ (ok tt, [])
unfolding ensure_image_rolling_refresh tiproxy_image_spec_hash trim_space lift
no_image_no_refresh = refl

-- A refresh that is started, and then the tag.
refresh_test : ensure_image_rolling_refresh aws_up "asg" old_asg "new-hash" [] ≡ (
  ok tt,
  tag_asg "asg" image_hash_tag "new-hash" ∷ start_refresh "asg" ∷ describe_refreshes "asg" ∷ [],
)
unfolding ensure_image_rolling_refresh has_active_instance_refresh start_rolling set_asg_tag do_call
    asg_tag_value any_active ◌>>=◌ continue call lift
refresh_test = refl

-- The sizes, with the desired capacity raised to the minimum and the maximum to it.
sizes_test :
    sizes_of sized_group.spec ≡ record { min_size = pos 3; max_size = pos 3; desired = pos 3 }
unfolding sizes_of desired_replicas
sizes_test = refl

names_test : aws_resource_name encoders_example.sha256_hex " My__Group-- " 32 ≡ "my-group"
unfolding aws_resource_name shorten long_name collapse replace_double has_double clean clean_char
    trim_dash trim_left_dash trim_right_dash trim_space to_lower concat
names_test = refl

ensure-Listed_example :
    All
      (Listed allocated_example
        (names_of_lbs (default_load_balancer ∷ []))
        (ensure sized_group two_ports allocated_example).by_uid)
      two_ports
ensure-Listed_example =
    ensure-Listed sized_group two_ports allocated_example (default_load_balancer ∷ []) one_internal
