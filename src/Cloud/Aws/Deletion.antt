-- ===== src/Cloud/Aws/Deletion.antt =====
-- The deletion of load balancers: ensureLoadBalancersDeleted, ensureStaleLoadBalancersDeleted.
pub mod Removals
pub mod Absent
use tiproxy_machine_operator.Api.{LoadBalancerCloudStatus, LoadBalancerExposureSpec, MachineGroup}
use tiproxy_machine_operator.Cloud.{resolve_names}
use tiproxy_machine_operator.Cloud.Aws.Balancers.{
  describe_listeners_by_lb, describe_load_balancer_by_name, describe_target_groups_for_lb,
}
use tiproxy_machine_operator.Cloud.Aws.Calls.{
  Aws, AwsExec, Listener, LoadBalancer, TargetGroup, delete_call, delete_listener,
  delete_load_balancer, delete_target_group, detach_target_groups,
}
use tiproxy_machine_operator.Cloud.Aws.Errors.{AwsError, contains_text, plain}
use tiproxy_machine_operator.Cloud.Aws.Names.{load_balancer_name}
use tiproxy_machine_operator.Cloud.Contract.{names_of_lbs}
use tiproxy_machine_operator.Effects.{lift, pure, ◌>>=◌, ◌>>◌}
use tiproxy_machine_operator.Exposure.{ExposureError, exposure_error_text, normalize_load_balancers}
use tiproxy_machine_operator.Prelude.{
  Bool, List, Option, Result, String, [], err, if◌then◌else◌, int_eq, length, nat_eq, none, not, ok,
  some, string_eq, true, ◌&&◌, ◌==◌, ◌||◌, ◌∷◌,
}
use tiproxy_machine_operator.Prelude.Assoc.{contains}
use tiproxy_machine_operator.Text.{concat, trim_space}

-- The error of NormalizeLoadBalancers, returned as it is.
abbrev pub in_aws {ℓ} : {A : Type ℓ} → Result ExposureError A → Result AwsError A
in_aws (ok a) = ok a
in_aws (err e) = err (plain (exposure_error_text e))

-- The ARNs that are not nil.
unfoldable pub tg_arns : List TargetGroup → List String
tg_arns [] = []
tg_arns (tg ∷ tgs) = elim tg.arn [ none ↦ tg_arns tgs | some arn ↦ arn ∷ tg_arns tgs ]

unfoldable pub listener_arns : List Listener → List String
listener_arns [] = []
listener_arns (l ∷ ls) = elim l.arn [ none ↦ listener_arns ls | some arn ↦ arn ∷ listener_arns ls ]

module _ (aws : Aws) where
  -- The loops that delete listeners and target groups, over the ARNs that are not nil.
  unfoldable pub delete_listeners : List String → AwsExec (Unit {0})
  delete_listeners [] = pure tt
  delete_listeners (arn ∷ arns) =
      delete_call aws ("delete listener " ∷ arn ∷ []) (delete_listener arn) >> delete_listeners arns

  unfoldable pub delete_target_groups : List String → AwsExec (Unit {0})
  delete_target_groups [] = pure tt
  delete_target_groups (arn ∷ arns) =
      delete_call aws ("delete target group " ∷ arn ∷ []) (delete_target_group arn)
      >> delete_target_groups arns

  unfoldable pub detach_all : MachineGroup → List String → AwsExec (Unit {0})
  detach_all mg [] = pure tt
  detach_all mg (arn ∷ arns) =
      let (_, asg) = resolve_names mg in
      delete_call aws ("detach target groups from asg " ∷ asg ∷ [])
        (detach_target_groups asg (arn ∷ arns))

  -- ensureLoadBalancerDeletedByARN
  unfoldable pub delete_by_arn : MachineGroup → String → AwsExec (Unit {0})
  delete_by_arn mg lb_arn = if trim_space lb_arn == "" then pure tt else do
    listeners ← describe_listeners_by_lb aws lb_arn
    delete_listeners (listener_arns listeners)
    tgs ← describe_target_groups_for_lb aws lb_arn
    detach_all mg (tg_arns tgs)
    delete_target_groups (tg_arns tgs)
    delete_call aws ("delete load balancer " ∷ lb_arn ∷ []) (delete_load_balancer lb_arn)

  -- ensureLoadBalancerDeletedByName
  unfoldable pub delete_found : MachineGroup → Option LoadBalancer → AwsExec (Unit {0})
  delete_found mg none = pure tt
  delete_found mg (some lb) = elim lb.arn [ none ↦ pure tt | some arn ↦ delete_by_arn mg arn ]

  unfoldable pub delete_by_name : MachineGroup → LoadBalancerExposureSpec → AwsExec (Unit {0})
  delete_by_name mg lb = do
    existing_lb ←
        describe_load_balancer_by_name aws (load_balancer_name aws.encoders.sha256_hex mg lb)
    delete_found mg existing_lb

  unfoldable pub delete_all_by_name :
      MachineGroup → List LoadBalancerExposureSpec → AwsExec (Unit {0})
  delete_all_by_name mg [] = pure tt
  delete_all_by_name mg (lb ∷ lbs) = delete_by_name mg lb >> delete_all_by_name mg lbs

  -- The loops over status.cloud.loadBalancers: `kept` are the names that stay.
  unfoldable pub delete_listed :
      MachineGroup → List String → List LoadBalancerCloudStatus → AwsExec (Unit {0})
  delete_listed mg kept [] = pure tt
  delete_listed mg kept (lb ∷ lbs) =
      let rest = delete_listed mg kept lbs in
      if contains kept lb.name || trim_space lb.load_balancer_id == ""
      then rest
      else delete_by_arn mg lb.load_balancer_id >> rest

  unfoldable pub delete_frontend : MachineGroup → Bool → AwsExec (Unit {0})
  delete_frontend mg unwanted =
      if length mg.status.cloud.load_balancers == 0
        && (not (trim_space mg.status.cloud.frontend_id == "") && unwanted)
      then delete_by_arn mg mg.status.cloud.frontend_id
      else pure tt

  -- ensureLoadBalancersDeleted
  unfoldable pub ensure_load_balancers_deleted : MachineGroup → AwsExec (Unit {0})
  ensure_load_balancers_deleted mg = do
    lbs ← lift (in_aws (normalize_load_balancers mg.spec.exposure))
    delete_all_by_name mg lbs
    delete_listed mg [] mg.status.cloud.load_balancers
    delete_frontend mg true

  abbrev primary_id : MachineGroup → List LoadBalancerExposureSpec → String
  primary_id mg [] = ""
  primary_id mg (lb ∷ lbs) = load_balancer_name aws.encoders.sha256_hex mg lb

  -- ensureStaleLoadBalancersDeleted
  unfoldable pub ensure_stale_load_balancers_deleted :
      MachineGroup → List LoadBalancerExposureSpec → AwsExec (Unit {0})
  ensure_stale_load_balancers_deleted mg desired = do
    delete_listed mg (names_of_lbs desired) mg.status.cloud.load_balancers
    delete_frontend mg (
        not (
          contains_text mg.status.cloud.frontend_id
            (concat ("/" ∷ primary_id mg desired ∷ "/" ∷ []))))
