-- ===== src/Cloud/Aws/Targets.antt =====
-- The target groups and the listeners of a port, and the target groups of the auto scaling group:
-- createTargetGroup, ensureListener, listenerForwardsTo, dedupeStrings, reconcileASGTargetGroups.
pub mod Attached
use tiproxy_machine_operator.Api.{LoadBalancerExposureSpec, MachineGroup}
use tiproxy_machine_operator.Cloud.Aws.Balancers.{head_of}
use tiproxy_machine_operator.Cloud.Aws.Calls.{
  Action, AutoScalingGroup, Aws, AwsExec, Listener, TargetGroup, attach_target_groups,
  create_listener, create_target_group, describe_asg, detach_target_groups, do_call,
  modify_listener, to_string, wrapped,
}
use tiproxy_machine_operator.Cloud.Aws.Errors.{AwsError, plain}
use tiproxy_machine_operator.Cloud.Aws.Names.{target_group_name}
use tiproxy_machine_operator.Cloud.Aws.Template.{build_elb_tags}
use tiproxy_machine_operator.Effects.{call, lift, pure, ◌>>=◌, ◌>>◌}
use tiproxy_machine_operator.Prelude.{
  Bool, List, Result, String, [], err, false, if◌then◌else◌, int_eq, nat_eq, none, not, ok, some,
  string_eq, ℤ, ◌&&◌, ◌==◌, ◌||◌, ◌∷◌,
}
use tiproxy_machine_operator.Prelude.Assoc.{contains}
use tiproxy_machine_operator.Text.{concat, show_int}

-- The inner loop of listenerForwardsTo.
unfoldable pub action_forwards_to : String → Action → Bool
action_forwards_to tg_arn action =
    if action.is_forward
    then action.target_group == tg_arn || contains action.forward_config tg_arn
    else false

unfoldable pub actions_forward_to : String → List Action → Bool
actions_forward_to tg_arn [] = false
actions_forward_to tg_arn (a ∷ actions) =
    action_forwards_to tg_arn a || actions_forward_to tg_arn actions

unfoldable pub listener_forwards_to : Listener → String → Bool
listener_forwards_to listener tg_arn = actions_forward_to tg_arn listener.default_actions

-- The loop of dedupeStrings over the values, with what it has seen.
unfoldable pub dedupe_from : List String → List String → List String
dedupe_from seen [] = []
dedupe_from seen (value ∷ values) =
    let rest = dedupe_from seen values in
    let fresh = dedupe_from (value ∷ seen) values in
    if contains seen value then rest else value ∷ fresh

-- dedupeStrings
unfoldable pub dedupe_strings : List String → List String
dedupe_strings values = dedupe_from [] values

-- toAttach
unfoldable pub to_attach : List String → List String → List String
to_attach current [] = []
to_attach current (arn ∷ desired) =
    let rest = to_attach current desired in if contains current arn then rest else arn ∷ rest

-- toDetach; the loop is over the set of the current ARNs.
unfoldable pub to_detach : List String → List String → List String → List String
to_detach managed desired [] = []
to_detach managed desired (arn ∷ current) =
    let rest = to_detach managed desired current in
    if contains managed arn && not (contains desired arn) then arn ∷ rest else rest

abbrev pub first_asg : String → List AutoScalingGroup → Result AwsError AutoScalingGroup
first_asg name [] =
    err (plain (concat ("asg " ∷ name ∷ " not found while reconciling target groups" ∷ [])))
first_asg name (asg ∷ asgs) = ok asg

module _ (aws : Aws) where
  -- createTargetGroup
  unfoldable pub create_target_group_for :
      MachineGroup → LoadBalancerExposureSpec → String → ℤ → AwsExec TargetGroup
  create_target_group_for mg lb vpc_id port =
      let pieces = "create target group for port " ∷ show_int port ∷ [] in
      let input = create_target_group (record {
        name = target_group_name aws.encoders.sha256_hex mg lb port;
        port = port;
        vpc_id = vpc_id;
        tags = build_elb_tags mg lb;
      }) in
      do
        out ← call (λ h. wrapped pieces (aws.answer_target_groups h input)) input
        lift (head_of (concat (concat pieces ∷ ": empty response" ∷ [])) out)

  abbrev pub new_listener : String → ℤ → String → AwsExec String
  new_listener lb_arn port tg_arn =
      let pieces = "create listener for port " ∷ show_int port ∷ [] in
      let input = create_listener lb_arn port tg_arn in
      do
        out ← call (λ h. wrapped pieces (aws.answer_listeners h input)) input
        made ← lift (head_of (concat (concat pieces ∷ ": empty response" ∷ [])) out)
        pure (to_string made.arn)

  unfoldable pub adapt_listener : String → ℤ → String → Bool → AwsExec String
  adapt_listener arn port tg_arn need_modify =
      if need_modify
      then do_call aws ("modify listener " ∷ arn ∷ " for port " ∷ show_int port ∷ [])
          (modify_listener arn port tg_arn)
        >> pure arn
      else pure arn

  -- ensureListener
  unfoldable pub ensure_listener : String → ℤ → String → Listener → AwsExec String
  ensure_listener lb_arn port tg_arn existing = elim existing.arn [
    | none ↦ new_listener lb_arn port tg_arn
    | some arn ↦
        adapt_listener arn port tg_arn
          (not existing.is_tcp || not (listener_forwards_to existing tg_arn))
  ]

  unfoldable pub attach_all : String → List String → AwsExec (Unit {0})
  attach_all asg_name [] = pure tt
  attach_all asg_name (arn ∷ arns) =
      do_call aws ("attach target groups to asg " ∷ asg_name ∷ [])
        (attach_target_groups asg_name (arn ∷ arns))

  unfoldable pub detach_stale : String → List String → AwsExec (Unit {0})
  detach_stale asg_name [] = pure tt
  detach_stale asg_name (arn ∷ arns) =
      do_call aws ("detach target groups from asg " ∷ asg_name ∷ [])
        (detach_target_groups asg_name (arn ∷ arns))

  unfoldable pub describe_asgs : String → AwsExec (List AutoScalingGroup)
  describe_asgs name =
      call (λ h. wrapped ("describe asg " ∷ name ∷ []) (aws.answer_asgs h name)) (describe_asg name)

  -- What is attached and what is detached, of the current target groups.
  unfoldable pub adjust_target_groups :
      String → List String → List String → List String → AwsExec (Unit {0})
  adjust_target_groups asg_name desired managed current =
      attach_all asg_name (to_attach current desired)
      >> detach_stale asg_name (to_detach managed desired (dedupe_strings current))

  -- reconcileASGTargetGroups
  unfoldable pub reconcile_asg_target_groups :
      String → List String → List String → AwsExec (Unit {0})
  reconcile_asg_target_groups asg_name desired managed = do
    asgs ← describe_asgs asg_name
    asg ← lift (first_asg asg_name asgs)
    adjust_target_groups asg_name desired managed asg.target_group_arns
