-- ===== src/Cloud/Aws/Group/Answers.antt =====
-- What EnsureMachineGroup returns for the machine ports.
use tiproxy_machine_operator.Cloud.Aws.Serving.Arns.{NamesListeners}
use tiproxy_machine_operator.Api.{
  CloudStatus, LoadBalancerCloudStatus, LoadBalancerExposureSpec, MachineGroup, MachinePort,
  MachinePortCloudStatus,
}
use tiproxy_machine_operator.Cloud.{Ensured, resolve_names}
use tiproxy_machine_operator.Cloud.Aws.Calls.{Aws, AwsHistory}
use tiproxy_machine_operator.Cloud.Aws.Deletion.{
  ensure_load_balancers_deleted, ensure_stale_load_balancers_deleted,
}
use tiproxy_machine_operator.Cloud.Aws.Errors.{AwsError}
use tiproxy_machine_operator.Cloud.Aws.Group.{
  after_exposure, after_group, after_normalize, aws_manager, done_with, ensure_exposure,
  ensure_machine_group, group_status, settle_machines,
}
use tiproxy_machine_operator.Cloud.Aws.Placement.{PlacementSelection}
use tiproxy_machine_operator.Cloud.Aws.Serving.Listeners.{ensure_load_balancer_exposure-Listed}
use tiproxy_machine_operator.Cloud.Contract.{Fulfils, Listed, names_of_lbs, nothing-Listed}
use tiproxy_machine_operator.Effects.Hoare.{Anything, Post}
use tiproxy_machine_operator.Exposure.{normalize_load_balancers}
use tiproxy_machine_operator.Prelude.{
  All, List, Result, String, [], arith, err, none, ok, ℤ, ◌∷◌, ◌≡◌,
}
use tiproxy_machine_operator.Prelude.Assoc.{Map}

module _ (aws : Aws) (mg : MachineGroup) (ps : List MachinePort) (allocated : Map String ℤ)
    (lbs : List LoadBalancerExposureSpec) where
  -- A return without an error has all listeners.
  abbrev Answers : Ensured × AwsHistory → Type 0
  Answers out = out.0.error ≡ none → All (Listed allocated (names_of_lbs lbs) out.0.by_uid) ps

  done_with-Answers :
      (status : CloudStatus) (clouds : Map String MachinePortCloudStatus)
      (r : Result AwsError (Unit {0})) (h : AwsHistory)
      → All (Listed allocated (names_of_lbs lbs) clouds) ps
      → Answers (done_with aws status clouds r, h)
  done_with-Answers status clouds (ok u) h listed fine = listed
  done_with-Answers status clouds (err e) h listed fine = ground (arith, fine)

  after_exposure-Answers :
      (status : CloudStatus)
      (r : Result AwsError (List LoadBalancerCloudStatus × Map String MachinePortCloudStatus))
      (h : AwsHistory)
      → Post (λ out h'. All (Listed allocated (names_of_lbs lbs) out.1) ps) Anything (r, h)
      → Answers (after_exposure aws mg lbs status r h)
  unfolding after_exposure
  after_exposure-Answers status (err e) h post fine = ground (arith, fine)
  after_exposure-Answers status (ok exposed) h post fine =
      done_with-Answers _ (exposed.1) ((ensure_stale_load_balancers_deleted aws mg lbs h).0) h post
        fine

ensure_exposure-Answers :
    (aws : Aws) (names : NamesListeners aws) (mg : MachineGroup) (ps : List MachinePort)
    (allocated : Map String ℤ) (lbs : List LoadBalancerExposureSpec)
    (placement : PlacementSelection) (status : CloudStatus) (h : AwsHistory)
    → Answers aws mg ps allocated lbs (ensure_exposure aws mg ps allocated lbs placement status h)
unfolding ensure_exposure
ensure_exposure-Answers aws names mg ps allocated [] placement status h =
    done_with-Answers aws mg ps allocated [] status [] ((ensure_load_balancers_deleted aws mg h).0)
      h (nothing-Listed allocated [] ps)
ensure_exposure-Answers aws names mg ps allocated (lb ∷ lbs) placement status h =
    after_exposure-Answers aws mg ps allocated (lb ∷ lbs) status _ _ (
      (ensure_load_balancer_exposure-Listed aws names mg ((resolve_names mg).1) ps allocated
          placement (lb ∷ lbs)).runs
        h tt)

after_group-Answers :
    (aws : Aws) (names : NamesListeners aws) (mg : MachineGroup) (ps : List MachinePort)
    (allocated : Map String ℤ) (lbs : List LoadBalancerExposureSpec)
    (r : Result AwsError (PlacementSelection × (String × String))) (h : AwsHistory)
    → Answers aws mg ps allocated lbs (after_group aws mg ps allocated lbs r h)
unfolding after_group
after_group-Answers aws names mg ps allocated lbs (err e) h fine = ground (arith, fine)
after_group-Answers aws names mg ps allocated lbs (ok (placement, template)) h fine =
    ensure_exposure-Answers aws names mg ps allocated lbs placement (group_status aws mg template) h
      fine

-- If EnsureMachineGroup returns no error, and every listener that AWS answers with has an ARN that is
-- not blank, the returned statuses have for every machine port that has a positive allocated port an
-- entry for each of the normalized load balancers, with a listener id that is not blank.
pub ensure_machine_group-Listed :
    (aws : Aws) (names : NamesListeners aws) (mg : MachineGroup) (ps : List MachinePort)
    (allocated : Map String ℤ) (lbs : List LoadBalancerExposureSpec)
    → normalize_load_balancers mg.spec.exposure ≡ ok lbs
    → (ensure_machine_group aws mg ps allocated []).0.error ≡ none
    → All
        (Listed allocated (names_of_lbs lbs) (ensure_machine_group aws mg ps allocated []).0.by_uid)
        ps
unfolding ensure_machine_group after_normalize
ensure_machine_group-Listed aws names mg ps allocated lbs normal = rw normal (
    after_group-Answers aws names mg ps allocated lbs ((settle_machines aws mg []).0)
      ((settle_machines aws mg []).1))

-- The AWS manager fulfils what is asked of a cloud manager, if AWS names the listeners it answers
-- with.
pub aws_manager-Fulfils :
    {C : Type 0} (world : List C → Aws)
    → ((h : List C) → NamesListeners (world h))
    → Fulfils (aws_manager world)
unfolding aws_manager
aws_manager-Fulfils world names = record {
  every_listener =
      λ h mg ps allocated lbs. ensure_machine_group-Listed (world h) (names h) mg ps allocated lbs;
}
