-- ===== src/Cloud/Aws/Group/Removed.antt =====
-- DeleteMachineGroup.
use tiproxy_machine_operator.Api.{LoadBalancerExposureSpec, MachineGroup}
use tiproxy_machine_operator.Cloud.{resolve_names}
use tiproxy_machine_operator.Cloud.Aws.Calls.{
  Aws, AwsCall, AwsHistory, delete_asg, delete_launch_template,
}
use tiproxy_machine_operator.Cloud.Aws.Deletion.{ensure_load_balancers_deleted}
use tiproxy_machine_operator.Cloud.Aws.Deletion.Absent.{
  OnlyAbsent, deleted-runs, ensure_load_balancers_deleted-Succeeds, returned,
}
use tiproxy_machine_operator.Cloud.Aws.Deletion.Removals.{
  delete_call-Keeps, ensure_load_balancers_deleted-Keeps, is_removal,
}
use tiproxy_machine_operator.Cloud.Aws.Group.{delete_machine_group}
use tiproxy_machine_operator.Effects.{continue, ◌>>=◌, ◌>>◌}
use tiproxy_machine_operator.Effects.Keeps.{Keeps, then-Keeps}
use tiproxy_machine_operator.Exposure.{normalize_load_balancers}
use tiproxy_machine_operator.Prelude.{List, inl, inr, ok, refl, true, ◌∷◌, ◌≡◌, ◌⊎◌}

-- The calls that DeleteMachineGroup may make: removals, and the deletion of the group's own auto
-- scaling group and launch template.
abbrev pub Removes : MachineGroup → AwsCall → Type 0
Removes mg c =
    (is_removal c ≡ true)
    ⊎ ((c ≡ delete_asg ((resolve_names mg).1))
        ⊎ (c ≡ delete_launch_template ((resolve_names mg).0)))

-- Whatever AWS answers, DeleteMachineGroup makes no call that creates or changes a resource: it
-- describes and removes what belongs to load balancers, and deletes no auto scaling group and no
-- launch template but the two that have the group's resolved names.
pub delete_machine_group-Removes :
    (aws : Aws) (mg : MachineGroup) → Keeps (Removes mg) (delete_machine_group aws mg)
unfolding delete_machine_group
delete_machine_group-Removes aws mg =
    then-Keeps
      (then-Keeps (ensure_load_balancers_deleted-Keeps aws (λ c removes. inl removes) mg)
        (delete_call-Keeps aws (λ c removes. inl removes) _ _ (inr (inl refl))))
      (delete_call-Keeps aws (λ c removes. inl removes) _ _ (inr (inr refl)))

-- If the exposure is valid and AWS fails only by saying that something does not exist,
-- DeleteMachineGroup succeeds, and its last two calls delete the auto scaling group and then the
-- launch template: a deletion that is tried again after it was interrupted is not stuck.
pub delete_machine_group-done :
    (aws : Aws)
    → OnlyAbsent aws
    → (mg : MachineGroup) (lbs : List LoadBalancerExposureSpec)
    → normalize_load_balancers mg.spec.exposure ≡ ok lbs
    → (h : AwsHistory)
    → (h' : AwsHistory) × (delete_machine_group aws mg h ≡ (
      ok tt,
      delete_launch_template ((resolve_names mg).0) ∷ delete_asg ((resolve_names mg).1) ∷ h',
    ))
unfolding delete_machine_group ◌>>◌ ◌>>=◌ continue
delete_machine_group-done aws only mg lbs normal h =
    let (h', first) =
      returned (ensure_load_balancers_deleted aws mg h)
        ((ensure_load_balancers_deleted-Succeeds aws only mg lbs normal).runs h tt) in
    (h', rw (first, deleted-runs aws only _ _ h', deleted-runs aws only _ _ _) refl)
