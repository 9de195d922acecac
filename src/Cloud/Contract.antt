-- ===== src/Cloud/Contract.antt =====
-- What the controller may rely on in a cloud manager.
use tiproxy_machine_operator.Api.{
  LoadBalancerExposureSpec, MachineGroup, MachinePort, MachinePortCloudStatus,
  MachinePortLoadBalancerCloudStatus, empty_port_cloud, set_port_primary_compat,
}
use tiproxy_machine_operator.Cloud.{Manager}
use tiproxy_machine_operator.Exposure.{normalize_load_balancers}
use tiproxy_machine_operator.Prelude.{
  All, List, Option, String, [], arith, false, if◌then◌else◌, int_eq, lez, none, ok, pos, some,
  string_eq, true, ℤ, ◌==◌, ◌∷◌, ◌≡◌,
}
use tiproxy_machine_operator.Prelude.Assoc.{Map, contains, get}
use tiproxy_machine_operator.Text.{trim_space}

-- A map of statuses, read without the key as the empty status, and the names of load balancers.
abbrev pub or_empty : Option MachinePortCloudStatus → MachinePortCloudStatus
or_empty none = empty_port_cloud
or_empty (some s) = s

abbrev pub cloud_at : String → Map String MachinePortCloudStatus → MachinePortCloudStatus
cloud_at uid m = or_empty (get uid m)

abbrev pub names_of_lbs : List LoadBalancerExposureSpec → List String
names_of_lbs [] = []
names_of_lbs (lb ∷ lbs) = lb.name ∷ names_of_lbs lbs

-- The load balancers that a machine port's status gives a listener id that is not blank.
abbrev pub listening : List MachinePortLoadBalancerCloudStatus → List String
listening [] = []
listening (lb ∷ lbs) =
    let rest = listening lbs in if trim_space lb.listener_id == "" then rest else lb.name ∷ rest

-- The status of the machine port has an entry with that load balancer's name and a listener id that
-- is not blank.
abbrev pub Shown : Map String MachinePortCloudStatus → String → String → Type 0
Shown clouds uid name = contains (listening (cloud_at uid clouds).load_balancers) name ≡ true

pub primary-same :
    (s : MachinePortCloudStatus) → (set_port_primary_compat s).load_balancers ≡ s.load_balancers
unfolding set_port_primary_compat
primary-same s = ground arith

-- A machine port with a positive allocated port has a listener in every load balancer.
abbrev pub Listed :
    Map String ℤ → List String → Map String MachinePortCloudStatus → MachinePort → Type 0
Listed allocated names clouds p =
    (port : ℤ)
    → get p.meta.uid allocated ≡ some port
    → lez port (pos 0) ≡ false
    → (name : String) → contains names name ≡ true
    → Shown clouds p.meta.uid name

-- Without load balancers there is nothing to be listed in.
pub nothing-Listed :
    (allocated : Map String ℤ) (clouds : Map String MachinePortCloudStatus) (ps : List MachinePort)
    → All (Listed allocated [] clouds) ps
unfolding contains
nothing-Listed allocated clouds [] = tt
nothing-Listed allocated clouds (p ∷ ps) =
    (λ port given positive name member. ground (arith, member), nothing-Listed allocated clouds ps)

-- A manager that returns no error has a listener for every machine port that has a positive
-- allocated port, in every normalized load balancer.
pub record Fulfils {C : Type 0} (m : Manager C) : Type 0 where
  pub every_listener :
      (h : List C) (mg : MachineGroup) (ps : List MachinePort) (allocated : Map String ℤ)
      (lbs : List LoadBalancerExposureSpec)
      → normalize_load_balancers mg.spec.exposure ≡ ok lbs
      → (m.ensure_machine_group h mg ps allocated).error ≡ none
      → All
          (Listed allocated (names_of_lbs lbs) (m.ensure_machine_group h mg ps allocated).by_uid)
          ps
