-- ===== src/Cloud/Aws/Deletion/Absent.antt =====
-- Deleting load balancers again: what is gone already does not make a deletion fail.
use tiproxy_machine_operator.Api.{LoadBalancerCloudStatus, LoadBalancerExposureSpec, MachineGroup}
use tiproxy_machine_operator.Cloud.Aws.Balancers.{
  describe_listeners_by_lb, describe_load_balancer_by_name, describe_target_groups_for_lb,
}
use tiproxy_machine_operator.Cloud.Aws.Calls.{
  Aws, AwsCall, AwsExec, AwsHistory, LoadBalancer, delete_call, or_absent, unless_absent,
}
use tiproxy_machine_operator.Cloud.Aws.Deletion.{
  delete_all_by_name, delete_by_arn, delete_by_name, delete_found, delete_frontend, delete_listed,
  delete_listeners, delete_target_groups, detach_all, ensure_load_balancers_deleted,
}
use tiproxy_machine_operator.Cloud.Aws.Errors.{AwsError, is_not_found}
use tiproxy_machine_operator.Effects.{call, pure, ◌>>◌}
use tiproxy_machine_operator.Effects.Hoare.{
  Anything, Post, Runs, bind-Runs, call-Runs, lift-Runs, then-Runs,
}
use tiproxy_machine_operator.Exposure.{normalize_load_balancers}
use tiproxy_machine_operator.Prelude.{
  Bool, Bool-cases, List, Option, Option-cases, Result, String, [], err, inl, inr, int_eq, length,
  nat_eq, none, not, ok, refl, some, string_eq, true, ◌&&◌, ◌==◌, ◌||◌, ◌∷◌, ◌≡◌,
}
use tiproxy_machine_operator.Prelude.Assoc.{contains}
use tiproxy_machine_operator.Text.{trim_space}

abbrev pub Never : AwsError → AwsHistory → Type 0
Never e h = ⊥

-- The function returns without an error whatever was called before.
abbrev pub Succeeds {ℓ} : {A : Type ℓ} → AwsExec A → Type 0
Succeeds m = Runs (λ h. Unit {0}) m Anything Never

-- The only errors of AWS are that something does not exist.
pub record OnlyAbsent (aws : Aws) : Type 0 where
  pub done_absent :
      (h : AwsHistory) (c : AwsCall) (e : AwsError)
      → aws.answer_done h c ≡ some e
      → is_not_found e ≡ true
  pub load_balancers_absent :
      (h : AwsHistory) (c : AwsCall) (e : AwsError)
      → aws.answer_load_balancers h c ≡ err e
      → is_not_found e ≡ true
  pub listeners_absent :
      (h : AwsHistory) (c : AwsCall) (e : AwsError)
      → aws.answer_listeners h c ≡ err e
      → is_not_found e ≡ true
  pub target_groups_absent :
      (h : AwsHistory) (c : AwsCall) (e : AwsError)
      → aws.answer_target_groups h c ≡ err e
      → is_not_found e ≡ true

unless_absent-ok :
    (pieces : List String) (o : Option AwsError) (c : AwsCall) (h : AwsHistory)
    → ((e : AwsError) → o ≡ some e → is_not_found e ≡ true)
    → Post Anything Never (unless_absent pieces o, c ∷ h)
unless_absent-ok pieces none c h absent = tt
unless_absent-ok pieces (some e) c h absent = rw (absent e refl) tt

or_absent-ok {ℓ} :
    {A : Type ℓ} (pieces : List String) (r : Result AwsError (List A)) (c : AwsCall)
    (h : AwsHistory)
    → ((e : AwsError) → r ≡ err e → is_not_found e ≡ true)
    → Post Anything Never (or_absent pieces r, c ∷ h)
or_absent-ok pieces (ok xs) c h absent = tt
or_absent-ok pieces (err e) c h absent = rw (absent e refl) tt

pure-Succeeds {ℓ} : {A : Type ℓ} (a : A) → Succeeds (pure a)
pure-Succeeds a = lift-Runs (ok a) (λ h p. tt)

module _ (aws : Aws) (only : OnlyAbsent aws) where
  pub delete_call-Succeeds :
      (pieces : List String) (c : AwsCall) → Succeeds (delete_call aws pieces c)
  unfolding delete_call
  delete_call-Succeeds pieces c =
      call-Runs _ c
        (λ h p. unless_absent-ok pieces (aws.answer_done h c) c h (only.done_absent h c))

  describe_load_balancer_by_name-Succeeds :
      (name : String) → Succeeds (describe_load_balancer_by_name aws name)
  unfolding describe_load_balancer_by_name
  describe_load_balancer_by_name-Succeeds name =
      bind-Runs Anything
        (call-Runs _ _ (λ h p. or_absent-ok _ _ _ h (only.load_balancers_absent h _)))
        (λ out. pure-Succeeds _)

  describe_listeners_by_lb-Succeeds : (arn : String) → Succeeds (describe_listeners_by_lb aws arn)
  unfolding describe_listeners_by_lb
  describe_listeners_by_lb-Succeeds arn = elim (Bool-cases (arn == "")) [
    | inl is_empty ↦ rw is_empty (pure-Succeeds _)
    | inr given ↦ rw given (call-Runs _ _ (λ h p. or_absent-ok _ _ _ h (only.listeners_absent h _)))
  ]

  describe_target_groups_for_lb-Succeeds :
      (arn : String) → Succeeds (describe_target_groups_for_lb aws arn)
  unfolding describe_target_groups_for_lb
  describe_target_groups_for_lb-Succeeds arn = elim (Bool-cases (arn == "")) [
    | inl is_empty ↦ rw is_empty (pure-Succeeds _)
    | inr given ↦
        rw given (call-Runs _ _ (λ h p. or_absent-ok _ _ _ h (only.target_groups_absent h _)))
  ]

  then-Succeeds : {m k : AwsExec (Unit {0})} → Succeeds m → Succeeds k → Succeeds (m >> k)
  then-Succeeds first next = then-Runs (λ h. Unit {0}) first next

  delete_listeners-Succeeds : (arns : List String) → Succeeds (delete_listeners aws arns)
  unfolding delete_listeners
  delete_listeners-Succeeds [] = pure-Succeeds _
  delete_listeners-Succeeds (arn ∷ arns) =
      then-Succeeds (delete_call-Succeeds _ _) (delete_listeners-Succeeds arns)

  delete_target_groups-Succeeds : (arns : List String) → Succeeds (delete_target_groups aws arns)
  unfolding delete_target_groups
  delete_target_groups-Succeeds [] = pure-Succeeds _
  delete_target_groups-Succeeds (arn ∷ arns) =
      then-Succeeds (delete_call-Succeeds _ _) (delete_target_groups-Succeeds arns)

  detach_all-Succeeds : (mg : MachineGroup) (arns : List String) → Succeeds (detach_all aws mg arns)
  unfolding detach_all
  detach_all-Succeeds mg [] = pure-Succeeds _
  detach_all-Succeeds mg (arn ∷ arns) = delete_call-Succeeds _ _

  delete_by_arn-Succeeds : (mg : MachineGroup) (arn : String) → Succeeds (delete_by_arn aws mg arn)
  unfolding delete_by_arn
  delete_by_arn-Succeeds mg arn = elim (Bool-cases (trim_space arn == "")) [
    | inl is_empty ↦ rw is_empty (pure-Succeeds _)
    | inr given ↦ rw given (
        bind-Runs Anything (describe_listeners_by_lb-Succeeds arn) (λ ls.
          then-Succeeds (delete_listeners-Succeeds _) (
            bind-Runs Anything (describe_target_groups_for_lb-Succeeds arn) (λ tgs.
              then-Succeeds (detach_all-Succeeds mg _)
                (then-Succeeds (delete_target_groups-Succeeds _) (delete_call-Succeeds _ _))))))
  ]

  delete_found-Succeeds :
      (mg : MachineGroup) (found_lb : Option LoadBalancer) → Succeeds (delete_found aws mg found_lb)
  unfolding delete_found
  delete_found-Succeeds mg none = pure-Succeeds _
  delete_found-Succeeds mg (some lb) = elim (Option-cases lb.arn) [
    | inl absent ↦ rw absent (pure-Succeeds _)
    | inr (arn, present) ↦ rw present (delete_by_arn-Succeeds mg arn)
  ]

  delete_all_by_name-Succeeds :
      (mg : MachineGroup) (lbs : List LoadBalancerExposureSpec)
      → Succeeds (delete_all_by_name aws mg lbs)
  unfolding delete_all_by_name delete_by_name
  delete_all_by_name-Succeeds mg [] = pure-Succeeds _
  delete_all_by_name-Succeeds mg (lb ∷ lbs) =
      then-Succeeds
        (bind-Runs Anything (describe_load_balancer_by_name-Succeeds _) (delete_found-Succeeds mg))
        (delete_all_by_name-Succeeds mg lbs)

  delete_listed-Succeeds :
      (mg : MachineGroup) (kept : List String) (lbs : List LoadBalancerCloudStatus)
      → Succeeds (delete_listed aws mg kept lbs)
  unfolding delete_listed
  delete_listed-Succeeds mg kept [] = pure-Succeeds _
  delete_listed-Succeeds mg kept (lb ∷ lbs) =
      elim (Bool-cases (contains kept lb.name || trim_space lb.load_balancer_id == "")) [
        | inl skip ↦ rw skip (delete_listed-Succeeds mg kept lbs)
        | inr go ↦
            rw go (then-Succeeds (delete_by_arn-Succeeds mg _) (delete_listed-Succeeds mg kept lbs))
      ]

  delete_frontend-Succeeds :
      (mg : MachineGroup) (unwanted : Bool) → Succeeds (delete_frontend aws mg unwanted)
  unfolding delete_frontend
  delete_frontend-Succeeds mg unwanted =
      elim (Bool-cases (
        length mg.status.cloud.load_balancers == 0
        && (not (trim_space mg.status.cloud.frontend_id == "") && unwanted))) [
          | inl go ↦ rw go (delete_by_arn-Succeeds mg _)
          | inr stay ↦ rw stay (pure-Succeeds _)
        ]

  pub ensure_load_balancers_deleted-Succeeds :
      (mg : MachineGroup) (lbs : List LoadBalancerExposureSpec)
      → normalize_load_balancers mg.spec.exposure ≡ ok lbs
      → Succeeds (ensure_load_balancers_deleted aws mg)
  unfolding ensure_load_balancers_deleted
  ensure_load_balancers_deleted-Succeeds mg lbs normal =
      bind-Runs Anything (lift-Runs _ (λ h p. rw normal tt)) (λ all.
        then-Succeeds (delete_all_by_name-Succeeds mg all)
          (then-Succeeds (delete_listed-Succeeds mg [] _) (delete_frontend-Succeeds mg true)))

pub returned :
    (out : Result AwsError (Unit {0}) × AwsHistory)
    → Post Anything Never out
    → (h : AwsHistory) × (out ≡ (ok tt, h))
returned (ok u, h) post = (h, refl)
returned (err e, h) post = elim post [ ]

pub deleted-runs :
    (aws : Aws)
    → OnlyAbsent aws
    → (pieces : List String) (c : AwsCall) (h : AwsHistory)
    → delete_call aws pieces c h ≡ (ok tt, c ∷ h)
unfolding delete_call call
deleted-runs aws only pieces c h = elim (Option-cases (aws.answer_done h c)) [
  | inl fine ↦ rw fine refl
  | inr (e, gone) ↦ rw (gone, only.done_absent h c e gone) refl
]
