-- ===== src/Cloud/Noop/Listeners.antt =====
-- What the noop manager returns for the machine ports.
use Prim.Native.String
use Prim.Native.String.{char_at}
use tiproxy_machine_operator.Text.{
  append-cons, concat, is_space, show_int, trim_space, trim_space-cons,
}
use tiproxy_machine_operator.Api.{
  LoadBalancerCloudStatus, LoadBalancerExposureSpec, MachineGroup, MachinePort,
  MachinePortCloudStatus, empty_port_cloud, set_port_primary_compat,
}
use tiproxy_machine_operator.Cloud.Contract.{
  Fulfils, Listed, Shown, listening, names_of_lbs, nothing-Listed, primary-same,
}
use tiproxy_machine_operator.Cloud.Noop.{
  ensure, ensure_normalized, ensure_with, expose_port, expose_ports, load_balancer_status,
  noop_manager, port_load_balancer_status,
}
use tiproxy_machine_operator.Exposure.{normalize_load_balancers}
use tiproxy_machine_operator.Prelude.{
  All, Bool-cases, List, Option, String, [], arith, beq_refl, inl, inr, int_eq, lez, map, nat_eq,
  none, ok, pos, refl, some, string_eq, subst, sym, false, true, ℤ, ◌==◌, ◌∷◌, ◌≡◌,
}
use tiproxy_machine_operator.Prelude.Assoc.{Map, contains, get, get-put, put}

listener_id-solid :
    (name : String) (port : ℤ)
    → (trim_space (concat ("noop-listener://" ∷ name ∷ "/" ∷ show_int port ∷ [])) == "") ≡ false
unfolding concat is_space
listener_id-solid name port =
    let rest = concat (name ∷ "/" ∷ show_int port ∷ []) in
    subst (λ t. (trim_space t == "") ≡ false)
      (sym (append-cons (char_at "n" 0) "oop-listener://" rest))
      (trim_space-cons (char_at "n" 0) (String.◌++◌ "oop-listener://" rest) refl)

names-map :
    (name group : String) (port : ℤ) (specs : List LoadBalancerExposureSpec)
    → contains
        (listening (map (port_load_balancer_status port) (map (load_balancer_status group) specs)))
        name
      ≡ contains (names_of_lbs specs) name
unfolding contains
names-map name group port [] = refl
names-map name group port (s ∷ specs) =
    rw (listener_id-solid s.name port) (ground (arith, names-map name group port specs))

module _ (group : String) (specs : List LoadBalancerExposureSpec) where
  abbrev lbs : List LoadBalancerCloudStatus
  lbs = map (load_balancer_status group) specs

  -- The machine port has all load balancers.
  abbrev Full : Map String MachinePortCloudStatus → String → Type 0
  Full clouds uid =
      (name : String) → contains (names_of_lbs specs) name ≡ true → Shown clouds uid name

  abbrev exposed_at : ℤ → MachinePortCloudStatus
  exposed_at port =
      set_port_primary_compat
        (record empty_port_cloud { load_balancers = map (port_load_balancer_status port) lbs })

  put-Full :
      (uid : String) (port : ℤ) (m : Map String MachinePortCloudStatus)
      → Full (put uid (exposed_at port) m) uid
  put-Full uid port m name member =
      rw
        (
          get-put uid uid (exposed_at port) m,
          beq_refl uid,
          primary-same (record empty_port_cloud {
            load_balancers = map (port_load_balancer_status port) lbs;
          }),
          names-map name group port specs,
        )
        member

  expose_port-Full :
      (uid other : String) (allocation : Option ℤ) (m : Map String MachinePortCloudStatus)
      → Full m other
      → Full (expose_port lbs uid allocation m) other
  unfolding expose_port
  expose_port-Full uid other none m full = full
  expose_port-Full uid other (some port) m full = elim (Bool-cases (lez port (pos 0))) [
    | inl skip ↦ rw skip full
    | inr go ↦ rw go (elim (Bool-cases (uid == other)) [
      | inl same ↦
          subst (λ u. Full (put uid (exposed_at port) m) u) ((string_eq.beq_iff uid other).0 same)
            (put-Full uid port m)
      | inr differs ↦
          λ name member. rw (get-put uid other (exposed_at port) m, differs) (full name member)
    ])
  ]

  expose_ports-Full :
      (ps : List MachinePort) (allocated : Map String ℤ) (m : Map String MachinePortCloudStatus)
      (uid : String)
      → Full m uid
      → Full (expose_ports lbs ps allocated m) uid
  unfolding expose_ports
  expose_ports-Full [] allocated m uid full = full
  expose_ports-Full (p ∷ ps) allocated m uid full =
      expose_ports-Full ps allocated _ uid
        (expose_port-Full p.meta.uid uid (get p.meta.uid allocated) m full)

  expose_ports-Listed :
      (ps : List MachinePort) (allocated : Map String ℤ) (m : Map String MachinePortCloudStatus)
      → All (Listed allocated (names_of_lbs specs) (expose_ports lbs ps allocated m)) ps
  unfolding expose_ports expose_port
  expose_ports-Listed [] allocated m = tt
  expose_ports-Listed (p ∷ ps) allocated m = (
    λ port given positive.
        expose_ports-Full ps allocated _ p.meta.uid
          (rw (given, positive) (put-Full p.meta.uid port m)),
    expose_ports-Listed ps allocated _,
  )

ensure_with-Listed :
    (mg : MachineGroup) (ps : List MachinePort) (allocated : Map String ℤ)
    (lbs : List LoadBalancerExposureSpec)
    → All (Listed allocated (names_of_lbs lbs) (ensure_with mg ps allocated lbs).by_uid) ps
unfolding ensure_with
ensure_with-Listed mg ps allocated [] = nothing-Listed allocated [] ps
ensure_with-Listed mg ps allocated (lb ∷ rest) =
    expose_ports-Listed mg.meta.name (lb ∷ rest) ps allocated []

-- The statuses that the noop manager's EnsureMachineGroup returns for a valid exposure have for every
-- machine port that has a positive allocated port an entry for each of the normalized load
-- balancers, with a listener id that is not blank.
pub ensure-Listed :
    (mg : MachineGroup) (ps : List MachinePort) (allocated : Map String ℤ)
    (lbs : List LoadBalancerExposureSpec)
    → normalize_load_balancers mg.spec.exposure ≡ ok lbs
    → All (Listed allocated (names_of_lbs lbs) (ensure mg ps allocated).by_uid) ps
unfolding ensure ensure_normalized
ensure-Listed mg ps allocated lbs normal = rw normal (ensure_with-Listed mg ps allocated lbs)

-- The noop manager fulfils what is asked of a cloud manager.
pub noop_manager-Fulfils : (C : Type 0) → Fulfils (noop_manager C)
unfolding noop_manager
noop_manager-Fulfils C = record {
  every_listener = λ h mg ps allocated lbs normal fine. ensure-Listed mg ps allocated lbs normal;
}
