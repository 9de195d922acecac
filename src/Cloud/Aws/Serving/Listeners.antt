-- ===== src/Cloud/Aws/Serving/Listeners.antt =====
-- The listeners that ensureLoadBalancerExposure ensures.
use tiproxy_machine_operator.Api.{
  LoadBalancerExposureSpec, MachineGroup, MachinePort, MachinePortCloudStatus,
}
use tiproxy_machine_operator.Cloud.Aws.Calls.{Aws, Listener, LoadBalancer, TargetGroup}
use tiproxy_machine_operator.Cloud.Aws.Exposing.{
  Exposed, finish_clouds, group_arn, listeners_by_port, nothing_exposed, wanted_ports,
}
use tiproxy_machine_operator.Cloud.Aws.Exposing.Wanted.{Listens, wanted_ports-Listens}
use tiproxy_machine_operator.Cloud.Aws.Placement.{PlacementSelection}
use tiproxy_machine_operator.Cloud.Aws.Serving.{
  ensure_listeners, ensure_load_balancer_exposure, expose_all, expose_one,
}
use tiproxy_machine_operator.Cloud.Aws.Serving.Arns.{
  AllNamed, HasArn, NamesListeners, describe_listeners_by_lb-HasArn, ensure_listener-HasArn,
  listeners_by_port-AllNamed,
}
use tiproxy_machine_operator.Cloud.Aws.Serving.Complete.{
  Kept, added, added-Kept, added-Shown, finish_clouds-Shown, wanted_uids,
}
use tiproxy_machine_operator.Cloud.Contract.{Listed, Shown, names_of_lbs}
use tiproxy_machine_operator.Effects.Hoare.{
  Anything, Runs, bind-Runs, frame-Runs, lift-Runs, lift-known, then-Runs, weaken-Runs,
}
use tiproxy_machine_operator.Prelude.{
  All, Bool-cases, List, String, [], arith, false, inl, inr, int_eq, length, nat_eq, ok, some,
  string_eq, subst, true, ℤ, ◌==◌, ◌∷◌, ◌≡◌,
}
use tiproxy_machine_operator.Prelude.Assoc.{Map, contains, get}
use tiproxy_machine_operator.Text.{trim_space}

-- What the loops have done for a load balancer: what was shown stays, and it is shown for all ports.
abbrev Serves :
    Map ℤ String
    → String
    → Map String MachinePortCloudStatus
    → Map String MachinePortCloudStatus
    → Type 0
Serves wanted name before after =
    Kept before after
    × ((uid : String) → contains (wanted_uids wanted) uid ≡ true → Shown after uid name)

Serves-cons :
    (port : ℤ) (uid name : String) (wanted : Map ℤ String)
    (before middle after : Map String MachinePortCloudStatus)
    → Kept before middle
    → Shown middle uid name
    → Serves wanted name middle after
    → Serves ((port, uid) ∷ wanted) name before after
unfolding contains
Serves-cons port uid name wanted before middle after kept shown rest = (
  λ other n there. (rest.0) other n (kept other n there),
  λ other member. elim (Bool-cases (uid == other)) [
    | inl same ↦
        subst (λ u. Shown after u name) ((string_eq.beq_iff uid other).0 same)
          ((rest.0) uid name shown)
    | inr differs ↦ (rest.1) other (ground (arith, differs, member))
  ],
)

-- All load balancers are shown for all ports.
abbrev pub ServesAll : Map ℤ String → List String → Map String MachinePortCloudStatus → Type 0
ServesAll wanted names clouds =
    (name uid : String)
    → contains names name ≡ true
    → contains (wanted_uids wanted) uid ≡ true
    → Shown clouds uid name

module _ (aws : Aws) (names : NamesListeners aws) where
  ensure_listeners-Serves :
      (spec : LoadBalancerExposureSpec) (lb : LoadBalancer) (groups : Map ℤ TargetGroup)
      (listeners : Map ℤ Listener) (wanted : Map ℤ String)
      (clouds : Map String MachinePortCloudStatus)
      → AllNamed listeners
      → Runs
          (λ h. Unit {0})
          (ensure_listeners aws spec lb groups listeners wanted clouds)
          (λ after h. Serves wanted spec.name clouds after)
          Anything
  unfolding ensure_listeners contains
  ensure_listeners-Serves spec lb groups listeners [] clouds named =
      lift-Runs _ (λ h p. (λ uid name shown. shown, λ uid member. ground (arith, member)))
  ensure_listeners-Serves spec lb groups listeners ((port, uid) ∷ wanted) clouds named =
      bind-Runs (λ arn h. (trim_space arn == "") ≡ false)
        (ensure_listener-HasArn aws names _ port (group_arn port groups) listeners named)
        (λ arn. record {
          runs = λ h given.
              let tg = group_arn port groups in
              (weaken-Runs _
                  (ensure_listeners-Serves spec lb groups listeners wanted
                    (added spec lb arn tg uid clouds) named)
                  (λ after h' rest.
                    Serves-cons port uid spec.name wanted clouds (added spec lb arn tg uid clouds)
                      after (added-Kept spec lb arn tg uid clouds)
                      (added-Shown spec lb arn tg uid clouds given) rest)).runs
                h tt;
        })

  expose_one-Serves :
      (mg : MachineGroup) (placement : PlacementSelection) (wanted : Map ℤ String)
      (spec : LoadBalancerExposureSpec) (acc : Exposed)
      → Runs
          (λ h. Unit {0})
          (expose_one aws mg placement wanted spec acc)
          (λ out h. Serves wanted spec.name acc.clouds out.clouds)
          Anything
  unfolding expose_one get
  expose_one-Serves mg placement wanted spec acc =
      bind-Runs (λ x h. Unit {0}) (frame-Runs (Unit {0}) _)
        (λ place.
          bind-Runs (λ x h. Unit {0}) (frame-Runs (Unit {0}) _)
            (λ lb.
              bind-Runs (λ x h. Unit {0}) (frame-Runs (Unit {0}) _)
                (λ tgs.
                  bind-Runs (λ x h. Unit {0}) (frame-Runs (Unit {0}) _)
                    (λ groups.
                      bind-Runs (λ listeners h. All HasArn listeners)
                        (describe_listeners_by_lb-HasArn aws names _)
                        (λ listeners.
                          bind-Runs (λ after h. Serves wanted spec.name acc.clouds after)
                            (served_by spec lb groups.0 listeners acc.clouds)
                            (λ after.
                              then-Runs (λ h. Serves wanted spec.name acc.clouds after)
                                (frame-Runs _ _)
                                (then-Runs (λ h. Serves wanted spec.name acc.clouds after)
                                  (frame-Runs _ _) (lift-Runs _ (λ h p. p)))))))))
    where
      served_by :
          (spec : LoadBalancerExposureSpec) (lb : LoadBalancer) (groups : Map ℤ TargetGroup)
          (listeners : List Listener) (clouds : Map String MachinePortCloudStatus)
          → Runs
              (λ h. All HasArn listeners)
              (ensure_listeners aws spec lb groups (listeners_by_port listeners []) wanted clouds)
              (λ after h. Serves wanted spec.name clouds after)
              Anything
      served_by spec lb groups listeners clouds = record {
        runs = λ h named.
            (ensure_listeners-Serves spec lb groups (listeners_by_port listeners []) wanted clouds
                (listeners_by_port-AllNamed listeners [] named (λ p l found. cc))).runs
              h tt;
      }

  expose_all-Serves :
      (mg : MachineGroup) (placement : PlacementSelection) (wanted : Map ℤ String)
      (specs : List LoadBalancerExposureSpec) (acc : Exposed)
      → Runs
          (λ h. Unit {0})
          (expose_all aws mg placement wanted specs acc)
          (λ out h. Kept acc.clouds out.clouds × ServesAll wanted (names_of_lbs specs) out.clouds)
          Anything
  unfolding expose_all contains
  expose_all-Serves mg placement wanted [] acc =
      lift-Runs _
        (λ h p. (λ uid name shown. shown, λ name uid member served. ground (arith, member)))
  expose_all-Serves mg placement wanted (spec ∷ specs) acc =
      bind-Runs (λ next h. Serves wanted spec.name acc.clouds next.clouds)
        (expose_one-Serves mg placement wanted spec acc)
        (λ next. record {
          runs = λ h served.
              (weaken-Runs _ (expose_all-Serves mg placement wanted specs next) (λ out h' rest.
                  all_of wanted spec specs acc.clouds next.clouds out.clouds served rest)).runs
                h tt;
        })
    where
      all_of :
          (wanted : Map ℤ String) (spec : LoadBalancerExposureSpec)
          (specs : List LoadBalancerExposureSpec)
          (before middle after : Map String MachinePortCloudStatus)
          → Serves wanted spec.name before middle
          → Kept middle after × ServesAll wanted (names_of_lbs specs) after
          → Kept before after × ServesAll wanted (names_of_lbs (spec ∷ specs)) after
      all_of wanted spec specs before middle after served rest = (
        λ uid name shown. (rest.0) uid name ((served.0) uid name shown),
        λ name uid member wants. elim (Bool-cases (spec.name == name)) [
          | inl same ↦
              subst (λ n. Shown after uid n) ((string_eq.beq_iff spec.name name).0 same)
                ((rest.0) uid spec.name ((served.1) uid wants))
          | inr differs ↦ (rest.1) name uid (ground (arith, differs, member)) wants
        ],
      )

get-wanted_uids :
    (wanted : Map ℤ String) (port : ℤ) (uid : String)
    → get port wanted ≡ some uid
    → contains (wanted_uids wanted) uid ≡ true
unfolding get contains
get-wanted_uids [] port uid there = ground (arith, there)
get-wanted_uids ((p, u) ∷ wanted) port uid there = elim (Bool-cases (p == port)) [
  | inl same ↦
      let equal : u ≡ uid = ground (arith, same, there) in
      ground (arith, (string_eq.beq_iff u uid).1 equal)
  | inr other ↦ ground (arith, get-wanted_uids wanted port uid (rw other at there))
]

Listens-Listed :
    (allocated : Map String ℤ) (wanted : Map ℤ String) (names : List String)
    (clouds : Map String MachinePortCloudStatus) (ps : List MachinePort)
    → ServesAll wanted names clouds
    → All (Listens allocated wanted) ps
    → All (Listed allocated names (finish_clouds clouds)) ps
Listens-Listed allocated wanted names clouds [] serves listens = tt
Listens-Listed allocated wanted names clouds (p ∷ ps) serves listens = (
  λ port given positive name member. finish_clouds-Shown clouds p.meta.uid name (
      serves name p.meta.uid member
        (get-wanted_uids wanted port p.meta.uid ((listens.0) port given positive))),
  Listens-Listed allocated wanted names clouds ps serves (listens.1),
)

-- If ensureLoadBalancerExposure succeeds, and AWS names the listeners it answers with, every machine
-- port that has a positive allocated port has a listener in the returned status for every load
-- balancer.
pub ensure_load_balancer_exposure-Listed :
    (aws : Aws) (names : NamesListeners aws) (mg : MachineGroup) (asg_name : String)
    (ps : List MachinePort) (allocated : Map String ℤ) (placement : PlacementSelection)
    (specs : List LoadBalancerExposureSpec)
    → Runs
        (λ h. Unit {0})
        (ensure_load_balancer_exposure aws mg asg_name ps allocated placement specs)
        (λ out h. All (Listed allocated (names_of_lbs specs) out.1) ps)
        Anything
unfolding ensure_load_balancer_exposure
ensure_load_balancer_exposure-Listed aws names mg asg_name ps allocated placement specs =
    elim (Bool-cases (length placement.subnet_ids == 0)) [
      | inl none_given ↦ rw none_given (lift-Runs _ (λ h p. tt))
      | inr given ↦ rw given (
          bind-Runs (λ wanted h. wanted_ports ps allocated [] ≡ ok wanted) (lift-known _)
            (λ wanted. record {
              runs = λ h wants.
                  (bind-Runs
                      (λ exposed h'.
                        All (Listed allocated (names_of_lbs specs) (finish_clouds exposed.clouds))
                          ps)
                      (weaken-Runs _
                        (expose_all-Serves aws names mg placement wanted specs nothing_exposed)
                        (λ exposed h' served.
                          Listens-Listed allocated wanted (names_of_lbs specs) exposed.clouds ps
                            (served.1) (wanted_ports-Listens ps allocated wanted wants)))
                      (λ exposed.
                        then-Runs
                          (λ h'.
                            All
                              (Listed allocated (names_of_lbs specs) (finish_clouds exposed.clouds))
                              ps)
                          (frame-Runs _ _) (lift-Runs _ (λ h' p. p)))).runs
                    h tt;
            }))
    ]
