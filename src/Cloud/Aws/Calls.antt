-- ===== src/Cloud/Aws/Calls.antt =====
-- The calls of the AWS manager, and what it reads of their answers.
use tiproxy_machine_operator.Cloud.Aws.Errors.{AwsError, is_not_found, wrap}
use tiproxy_machine_operator.Cloud.Aws.Placement.{PlacementSelection, Subnet}
use tiproxy_machine_operator.Cloud.Aws.Template.{Encoders, LaunchTemplateData}
use tiproxy_machine_operator.Effects.{Effect, call, to_result}
use tiproxy_machine_operator.Prelude.{
  Bool, List, Option, Result, String, [], err, if◌then◌else◌, none, ok, some, ℕ, ℤ,
}

-- The schemes of a load balancer.
pub data Scheme : Type 0 where
  internal internet_facing : Scheme

-- elbv2types.LoadBalancer; a nil DNS name reads as "".
pub record LoadBalancer : Type 0 where
  pub arn : Option String
  pub dns_name : String
  pub is_network : Bool
  pub scheme : Scheme

-- elbv2types.Action: whether it forwards, its target group, and the ones of its ForwardConfig.
pub record Action : Type 0 where
  pub is_forward : Bool
  pub target_group : String
  pub forward_config : List String

-- elbv2types.Listener. The zero value stands for no listener.
pub record Listener : Type 0 where
  pub arn : Option String
  pub port : Option ℤ
  pub is_tcp : Bool
  pub default_actions : List Action

-- elbv2types.TargetGroup
pub record TargetGroup : Type 0 where
  pub arn : Option String
  pub port : Option ℤ

-- autoscalingtypes.AutoScalingGroup; of the instances their number.
pub record AutoScalingGroup : Type 0 where
  pub target_group_arns : List String
  pub tags : List (String × String)
  pub instances : ℕ

-- The statuses of an instance refresh that the manager tells apart.
pub data RefreshStatus : Type 0 where
  pending in_progress cancelling other_status : RefreshStatus

-- A launch template: its id and the number of its latest version.
pub record LaunchTemplate : Type 0 where
  pub id : String
  pub latest_version : ℤ

-- The fields that CreateAutoScalingGroup and UpdateAutoScalingGroup have in common.
pub record AsgSettings : Type 0 where
  pub name : String
  pub min_size : ℤ
  pub max_size : ℤ
  pub desired_capacity : ℤ
  pub placement : PlacementSelection
  pub template_name : String
  pub template_version : String

-- The fields of CreateLoadBalancer that vary.
pub record LoadBalancerInput : Type 0 where
  pub name : String
  pub scheme : Scheme
  pub subnets : List String
  pub tags : List (String × String)

-- The fields of CreateTargetGroup that vary.
pub record TargetGroupInput : Type 0 where
  pub name : String
  pub port : ℤ
  pub vpc_id : String
  pub tags : List (String × String)

pub data AwsCall : Type 0 where
  describe_subnets : List String → AwsCall
  describe_launch_template : String → AwsCall
  create_launch_template : String → LaunchTemplateData → String → AwsCall
  create_launch_template_version : String → LaunchTemplateData → String → AwsCall
  modify_launch_template : String → String → AwsCall
  delete_launch_template : String → AwsCall
  describe_asg : String → AwsCall
  create_asg : AsgSettings → List (String × String) → AwsCall
  update_asg : AsgSettings → AwsCall
  delete_asg : String → AwsCall
  tag_asg : String → String → String → AwsCall
  describe_refreshes : String → AwsCall
  start_refresh : String → AwsCall
  attach_target_groups : String → List String → AwsCall
  detach_target_groups : String → List String → AwsCall
  describe_load_balancer : String → AwsCall
  create_load_balancer : LoadBalancerInput → AwsCall
  delete_load_balancer : String → AwsCall
  describe_listeners : String → AwsCall
  create_listener : String → ℤ → String → AwsCall
  modify_listener : String → ℤ → String → AwsCall
  delete_listener : String → AwsCall
  describe_target_groups : String → AwsCall
  create_target_group : TargetGroupInput → AwsCall
  delete_target_group : String → AwsCall

abbrev pub AwsHistory : Type 0
AwsHistory = List AwsCall

abbrev pub AwsExec {ℓ} : Type ℓ → Type ℓ
AwsExec A = Effect AwsCall AwsError A

-- The clients of a Manager: what AWS answers, which may depend on the history. `answer_done` is for
-- the calls whose answer is not read.
pub record Aws : Type 0 where
  pub encoders : Encoders
  pub answer_subnets : AwsHistory → List String → Result AwsError (List Subnet)
  pub answer_launch_templates : AwsHistory → String → Result AwsError (List LaunchTemplate)
  pub answer_created_template : AwsHistory → AwsCall → Result AwsError LaunchTemplate
  pub answer_asgs : AwsHistory → String → Result AwsError (List AutoScalingGroup)
  pub answer_refreshes : AwsHistory → String → Result AwsError (List RefreshStatus)
  pub answer_load_balancers : AwsHistory → AwsCall → Result AwsError (List LoadBalancer)
  pub answer_listeners : AwsHistory → AwsCall → Result AwsError (List Listener)
  pub answer_target_groups : AwsHistory → AwsCall → Result AwsError (List TargetGroup)
  pub answer_done : AwsHistory → AwsCall → Option AwsError

-- `if err != nil { return fmt.Errorf("…: %w", err) }`
abbrev pub wrapped {ℓ} : {A : Type ℓ} → List String → Result AwsError A → Result AwsError A
wrapped pieces (ok a) = ok a
wrapped pieces (err e) = err (wrap pieces e)

-- `if err != nil && !isNotFound(err) { return fmt.Errorf("…: %w", err) }`
abbrev pub unless_absent : List String → Option AwsError → Result AwsError (Unit {0})
unless_absent pieces none = ok tt
unless_absent pieces (some e) = if is_not_found e then ok tt else err (wrap pieces e)

-- The answer of a describe call: an error that says "not found" is an empty answer.
abbrev pub or_absent {ℓ} :
    {A : Type ℓ} → List String → Result AwsError (List A) → Result AwsError (List A)
or_absent pieces (ok xs) = ok xs
or_absent pieces (err e) = if is_not_found e then ok [] else err (wrap pieces e)

-- aws.ToString
abbrev pub to_string : Option String → String
to_string none = ""
to_string (some s) = s

-- A call whose answer is not read, and a deletion of what may be gone.
unfoldable pub do_call : Aws → List String → AwsCall → AwsExec (Unit {0})
do_call aws pieces c = call (λ h. wrapped pieces (to_result (aws.answer_done h c))) c

unfoldable pub delete_call : Aws → List String → AwsCall → AwsExec (Unit {0})
delete_call aws pieces c = call (λ h. unless_absent pieces (aws.answer_done h c)) c
