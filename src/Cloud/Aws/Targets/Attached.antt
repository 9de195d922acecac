-- ===== src/Cloud/Aws/Targets/Attached.antt =====
-- reconcileASGTargetGroups against the set of target groups that AWS keeps for the group.
use tiproxy_machine_operator.Cloud.Aws.Calls.{
  AutoScalingGroup, Aws, AwsCall, AwsHistory, attach_target_groups, describe_asg,
  detach_target_groups, do_call,
}
use tiproxy_machine_operator.Cloud.Aws.Targets.{
  adjust_target_groups, attach_all, dedupe_from, dedupe_strings, describe_asgs, detach_stale,
  reconcile_asg_target_groups, to_attach, to_detach,
}
use tiproxy_machine_operator.Effects.{call, continue, lift, ◌>>=◌, ◌>>◌}
use tiproxy_machine_operator.Prelude.{
  Bool-cases, List, String, [], arith, beq_refl, if◌then◌else◌, inl, inr, int_eq, nat_eq, none, not,
  ok, refl, string_eq, ◌&&◌, ◌++◌, ◌==◌, ◌||◌, ◌∷◌, ◌≡◌,
}
use tiproxy_machine_operator.Prelude.Assoc.{contains}

-- What a call does to the target groups of the auto scaling group `name`, as AWS documents it.
unfoldable pub without : List String → List String → List String
without gone [] = []
without gone (arn ∷ arns) =
    let rest = without gone arns in if contains gone arn then rest else arn ∷ rest

unfoldable pub attached : String → List String → AwsHistory → List String
attached name first [] = first
attached name first (attach_target_groups n arns ∷ h) =
    let rest = attached name first h in if n == name then arns ++ rest else rest
attached name first (detach_target_groups n arns ∷ h) =
    let rest = attached name first h in if n == name then without arns rest else rest
attached name first (_ ∷ h) = attached name first h

contains-append :
    (x : String) (xs ys : List String) → contains (xs ++ ys) x ≡ (contains xs x || contains ys x)
unfolding contains
contains-append x [] ys = refl
contains-append x (y ∷ xs) ys = ground (arith, contains-append x xs ys)

contains-without :
    (x : String) (gone arns : List String)
    → contains (without gone arns) x ≡ (contains arns x && not (contains gone x))
unfolding contains without
contains-without x gone [] = refl
contains-without x gone (arn ∷ arns) = elim (Bool-cases (arn == x)) [
  | inl same ↦
      let equal : arn ≡ x = (string_eq.beq_iff arn x).0 same in
      rw equal (ground (arith, beq_refl x, contains-without x gone arns))
  | inr other ↦ ground (arith, contains-without x gone arns)
]

contains-to_attach :
    (x : String) (current desired : List String)
    → contains (to_attach current desired) x ≡ (contains desired x && not (contains current x))
unfolding contains to_attach
contains-to_attach x current [] = refl
contains-to_attach x current (arn ∷ desired) = elim (Bool-cases (arn == x)) [
  | inl same ↦
      let equal : arn ≡ x = (string_eq.beq_iff arn x).0 same in
      rw equal (ground (arith, beq_refl x, contains-to_attach x current desired))
  | inr other ↦ ground (arith, contains-to_attach x current desired)
]

contains-to_detach :
    (x : String) (managed desired current : List String)
    → contains (to_detach managed desired current) x
      ≡ (contains current x && (contains managed x && not (contains desired x)))
unfolding contains to_detach
contains-to_detach x managed desired [] = refl
contains-to_detach x managed desired (arn ∷ current) = elim (Bool-cases (arn == x)) [
  | inl same ↦
      let equal : arn ≡ x = (string_eq.beq_iff arn x).0 same in
      rw equal (ground (arith, beq_refl x, contains-to_detach x managed desired current))
  | inr other ↦ ground (arith, contains-to_detach x managed desired current)
]

contains-dedupe_from :
    (x : String) (seen values : List String)
    → contains (dedupe_from seen values) x ≡ (contains values x && not (contains seen x))
unfolding contains dedupe_from
contains-dedupe_from x seen [] = refl
contains-dedupe_from x seen (v ∷ values) = elim (Bool-cases (v == x)) [
  | inl same ↦
      let equal : v ≡ x = (string_eq.beq_iff v x).0 same in
      rw equal (
        ground (
          arith,
          beq_refl x,
          contains-dedupe_from x seen values,
          contains-dedupe_from x (x ∷ seen) values,
        ))
  | inr other ↦
      ground (arith, contains-dedupe_from x seen values, contains-dedupe_from x (v ∷ seen) values)
]

pub contains-dedupe_strings :
    (x : String) (values : List String) → contains (dedupe_strings values) x ≡ contains values x
unfolding dedupe_strings contains
contains-dedupe_strings x values = ground (arith, contains-dedupe_from x [] values)

-- The calls answer without an error, and a description of the group shows what is attached.
module _ (aws : Aws) (name : String) (first : List String)
    (answers : (h : AwsHistory) (c : AwsCall) → aws.answer_done h c ≡ none) where
  do_call-runs :
      (pieces : List String) (c : AwsCall) (h : AwsHistory)
      → do_call aws pieces c h ≡ (ok tt, c ∷ h)
  unfolding do_call call
  do_call-runs pieces c h = rw (answers h c) refl

  attach_all-runs :
      (arns : List String) (h : AwsHistory)
      → (h' : AwsHistory) × (attach_all aws name arns h ≡ (ok tt, h'))
        × ((x : String)
            → contains (attached name first h') x
              ≡ (contains arns x || contains (attached name first h) x))
  unfolding attach_all attached contains lift
  attach_all-runs [] h = (h, refl, λ x. refl)
  attach_all-runs (arn ∷ arns) h = (
    attach_target_groups name (arn ∷ arns) ∷ h,
    do_call-runs _ _ h,
    λ x. rw (beq_refl name) (contains-append x (arn ∷ arns) (attached name first h)),
  )

  detach_stale-runs :
      (arns : List String) (h : AwsHistory)
      → (h' : AwsHistory) × (detach_stale aws name arns h ≡ (ok tt, h'))
        × ((x : String)
            → contains (attached name first h') x
              ≡ (contains (attached name first h) x && not (contains arns x)))
  unfolding detach_stale attached contains lift
  detach_stale-runs [] h = (h, refl, λ x. ground arith)
  detach_stale-runs (arn ∷ arns) h = (
    detach_target_groups name (arn ∷ arns) ∷ h,
    do_call-runs _ _ h,
    λ x. rw (beq_refl name) (contains-without x (arn ∷ arns) (attached name first h)),
  )

  -- The current set is what a description shows, in AWS's order.
  adjust-runs :
      (desired managed current : List String) (h : AwsHistory)
      → ((x : String) → contains (attached name first h) x ≡ contains current x)
      → (h' : AwsHistory) × (adjust_target_groups aws name desired managed current h ≡ (ok tt, h'))
        × ((x : String)
            → contains (attached name first h') x
              ≡ (contains desired x || (contains current x && not (contains managed x))))
  unfolding adjust_target_groups ◌>>◌ ◌>>=◌ continue
  adjust-runs desired managed current h shown =
      let add = to_attach current desired in
      let (h1, ran1, in1) = attach_all-runs add h in
      let drop = to_detach managed desired (dedupe_strings current) in
      let (h2, ran2, in2) = detach_stale-runs drop h1 in
      (
        h2,
        rw ran1 ran2,
        λ x.
            rw
              (
                in2 x,
                in1 x,
                shown x,
                contains-to_attach x current desired,
                contains-to_detach x managed desired (dedupe_strings current),
                contains-dedupe_strings x current,
              )
              (ground arith),
      )

  -- When the calls succeed and a description of the group shows what AWS keeps, the target groups
  -- of the group after reconcileASGTargetGroups are the desired ones and those of before that the
  -- operator does not manage.
  pub reconcile_asg_target_groups-attached :
      (asg : AutoScalingGroup) (desired managed : List String) (h : AwsHistory)
      → aws.answer_asgs h name ≡ ok (asg ∷ [])
      → asg.target_group_arns ≡ attached name first h
      → (h' : AwsHistory) × (reconcile_asg_target_groups aws name desired managed h ≡ (ok tt, h'))
        × ((x : String)
            → contains (attached name first h') x ≡ (
                contains desired x
                || (contains (attached name first h) x && not (contains managed x))))
  unfolding reconcile_asg_target_groups describe_asgs call lift ◌>>=◌ continue attached
  reconcile_asg_target_groups-attached asg desired managed h lists shows =
      rw (lists, shows)
        (adjust-runs desired managed (attached name first h) (describe_asg name ∷ h) (λ x. refl))
