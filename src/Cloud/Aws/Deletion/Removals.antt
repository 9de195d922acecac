-- ===== src/Cloud/Aws/Deletion/Removals.antt =====
-- The calls that deleting load balancers makes.
use tiproxy_machine_operator.Api.{LoadBalancerCloudStatus, LoadBalancerExposureSpec, MachineGroup}
use tiproxy_machine_operator.Cloud.Aws.Balancers.{
  describe_listeners_by_lb, describe_load_balancer_by_name, describe_target_groups_for_lb,
}
use tiproxy_machine_operator.Cloud.Aws.Calls.{
  Aws, AwsCall, LoadBalancer, delete_call, delete_listener, delete_load_balancer,
  delete_target_group, describe_listeners, describe_load_balancer, describe_target_groups,
  detach_target_groups,
}
use tiproxy_machine_operator.Cloud.Aws.Deletion.{
  delete_all_by_name, delete_by_arn, delete_by_name, delete_found, delete_frontend, delete_listed,
  delete_listeners, delete_target_groups, detach_all, ensure_load_balancers_deleted,
  ensure_stale_load_balancers_deleted,
}
use tiproxy_machine_operator.Effects.Keeps.{Keeps, bind-Keeps, call-Keeps, lift-Keeps, then-Keeps}
use tiproxy_machine_operator.Prelude.{
  Bool, Bool-cases, List, Option, Option-cases, String, [], false, inl, inr, int_eq, length, nat_eq,
  none, not, refl, some, string_eq, true, ◌&&◌, ◌==◌, ◌||◌, ◌∷◌, ◌≡◌,
}
use tiproxy_machine_operator.Prelude.Assoc.{contains}
use tiproxy_machine_operator.Text.{trim_space}

-- The calls that describe or remove something of a load balancer.
abbrev pub is_removal : AwsCall → Bool
is_removal (describe_load_balancer _) = true
is_removal (describe_listeners _) = true
is_removal (describe_target_groups _) = true
is_removal (detach_target_groups _ _) = true
is_removal (delete_listener _) = true
is_removal (delete_target_group _) = true
is_removal (delete_load_balancer _) = true
is_removal _ = false

-- What holds of those calls holds of all that the deletion of load balancers calls.
module _ (aws : Aws) {P : AwsCall → Type 0}
    (removal : (c : AwsCall) → is_removal c ≡ true → P c) where
  pub delete_call-Keeps :
      (pieces : List String) (c : AwsCall) → P c → Keeps P (delete_call aws pieces c)
  unfolding delete_call
  delete_call-Keeps pieces c p = call-Keeps _ c p

  pub describe_load_balancer_by_name-Keeps :
      (name : String) → Keeps P (describe_load_balancer_by_name aws name)
  unfolding describe_load_balancer_by_name
  describe_load_balancer_by_name-Keeps name =
      bind-Keeps (call-Keeps _ _ (removal (describe_load_balancer name) refl)) (λ out. lift-Keeps _)

  pub describe_listeners_by_lb-Keeps : (arn : String) → Keeps P (describe_listeners_by_lb aws arn)
  unfolding describe_listeners_by_lb
  describe_listeners_by_lb-Keeps arn = elim (Bool-cases (arn == "")) [
    | inl empty ↦ rw empty (lift-Keeps _)
    | inr given ↦ rw given (call-Keeps _ _ (removal (describe_listeners arn) refl))
  ]

  pub describe_target_groups_for_lb-Keeps :
      (arn : String) → Keeps P (describe_target_groups_for_lb aws arn)
  unfolding describe_target_groups_for_lb
  describe_target_groups_for_lb-Keeps arn = elim (Bool-cases (arn == "")) [
    | inl empty ↦ rw empty (lift-Keeps _)
    | inr given ↦ rw given (call-Keeps _ _ (removal (describe_target_groups arn) refl))
  ]

  pub delete_listeners-Keeps : (arns : List String) → Keeps P (delete_listeners aws arns)
  unfolding delete_listeners
  delete_listeners-Keeps [] = lift-Keeps _
  delete_listeners-Keeps (arn ∷ arns) =
      then-Keeps (delete_call-Keeps _ _ (removal (delete_listener arn) refl))
        (delete_listeners-Keeps arns)

  pub delete_target_groups-Keeps : (arns : List String) → Keeps P (delete_target_groups aws arns)
  unfolding delete_target_groups
  delete_target_groups-Keeps [] = lift-Keeps _
  delete_target_groups-Keeps (arn ∷ arns) =
      then-Keeps (delete_call-Keeps _ _ (removal (delete_target_group arn) refl))
        (delete_target_groups-Keeps arns)

  detach_all-Keeps : (mg : MachineGroup) (arns : List String) → Keeps P (detach_all aws mg arns)
  unfolding detach_all
  detach_all-Keeps mg [] = lift-Keeps _
  detach_all-Keeps mg (arn ∷ arns) = delete_call-Keeps _ _ (removal _ refl)

  delete_by_arn-Keeps : (mg : MachineGroup) (arn : String) → Keeps P (delete_by_arn aws mg arn)
  unfolding delete_by_arn
  delete_by_arn-Keeps mg arn = elim (Bool-cases (trim_space arn == "")) [
    | inl empty ↦ rw empty (lift-Keeps _)
    | inr given ↦ rw given (
        bind-Keeps (describe_listeners_by_lb-Keeps arn) (λ ls.
          then-Keeps (delete_listeners-Keeps _) (
            bind-Keeps (describe_target_groups_for_lb-Keeps arn) (λ tgs.
              then-Keeps (detach_all-Keeps mg _) (
                then-Keeps (delete_target_groups-Keeps _)
                  (delete_call-Keeps _ _ (removal (delete_load_balancer arn) refl)))))))
  ]

  delete_found-Keeps :
      (mg : MachineGroup) (found_lb : Option LoadBalancer) → Keeps P (delete_found aws mg found_lb)
  unfolding delete_found
  delete_found-Keeps mg none = lift-Keeps _
  delete_found-Keeps mg (some lb) = elim (Option-cases lb.arn) [
    | inl absent ↦ rw absent (lift-Keeps _)
    | inr (arn, present) ↦ rw present (delete_by_arn-Keeps mg arn)
  ]

  delete_all_by_name-Keeps :
      (mg : MachineGroup) (lbs : List LoadBalancerExposureSpec)
      → Keeps P (delete_all_by_name aws mg lbs)
  unfolding delete_all_by_name delete_by_name
  delete_all_by_name-Keeps mg [] = lift-Keeps _
  delete_all_by_name-Keeps mg (lb ∷ lbs) =
      then-Keeps (bind-Keeps (describe_load_balancer_by_name-Keeps _) (delete_found-Keeps mg))
        (delete_all_by_name-Keeps mg lbs)

  delete_listed-Keeps :
      (mg : MachineGroup) (kept : List String) (lbs : List LoadBalancerCloudStatus)
      → Keeps P (delete_listed aws mg kept lbs)
  unfolding delete_listed
  delete_listed-Keeps mg kept [] = lift-Keeps _
  delete_listed-Keeps mg kept (lb ∷ lbs) =
      elim (Bool-cases (contains kept lb.name || trim_space lb.load_balancer_id == "")) [
        | inl skip ↦ rw skip (delete_listed-Keeps mg kept lbs)
        | inr go ↦ rw go (then-Keeps (delete_by_arn-Keeps mg _) (delete_listed-Keeps mg kept lbs))
      ]

  delete_frontend-Keeps :
      (mg : MachineGroup) (unwanted : Bool) → Keeps P (delete_frontend aws mg unwanted)
  unfolding delete_frontend
  delete_frontend-Keeps mg unwanted =
      elim (Bool-cases (
        length mg.status.cloud.load_balancers == 0
        && (not (trim_space mg.status.cloud.frontend_id == "") && unwanted))) [
          | inl go ↦ rw go (delete_by_arn-Keeps mg _)
          | inr stay ↦ rw stay (lift-Keeps _)
        ]

  pub ensure_load_balancers_deleted-Keeps :
      (mg : MachineGroup) → Keeps P (ensure_load_balancers_deleted aws mg)
  unfolding ensure_load_balancers_deleted
  ensure_load_balancers_deleted-Keeps mg = bind-Keeps (lift-Keeps _) (λ lbs.
      then-Keeps (delete_all_by_name-Keeps mg lbs)
        (then-Keeps (delete_listed-Keeps mg [] _) (delete_frontend-Keeps mg true)))

  pub ensure_stale_load_balancers_deleted-Keeps :
      (mg : MachineGroup) (lbs : List LoadBalancerExposureSpec)
      → Keeps P (ensure_stale_load_balancers_deleted aws mg lbs)
  unfolding ensure_stale_load_balancers_deleted
  ensure_stale_load_balancers_deleted-Keeps mg lbs =
      then-Keeps (delete_listed-Keeps mg _ _) (delete_frontend-Keeps mg _)
