-- ===== src/Controller/PortStatus/Ready.antt =====
-- When a machine port is Ready.
use tiproxy_machine_operator.Api.{
  LoadBalancerExposureSpec, MachinePort, MachinePortCloudStatus, MachinePortLoadBalancerCloudStatus,
  port_phase_ready, set_port_primary_compat,
}
use tiproxy_machine_operator.Controller.PortStatus.{
  count_ready, count_required, exposure_by, exposure_of, has_name, next_port, or_empty, port_with,
  ready_names,
}
use tiproxy_machine_operator.Kube.{ApiError, Helpers}
use tiproxy_machine_operator.Prelude.{
  All, Bool, List, Option, String, [], arith, eqb_iff, false, inl, inr, int_eq, is_some, length,
  none, refl, some, string_eq, true, ℤ, ◌∷◌, ◌≡◌, ◌≤◌, ◌⊎◌,
}
use tiproxy_machine_operator.Prelude.Assoc.{Map, get}

-- That every load balancer has a listener among the statuses.
abbrev pub AllListen :
    List LoadBalancerExposureSpec → List MachinePortLoadBalancerCloudStatus → Type 0
AllListen lbs statuses = All (λ lb. has_name lb.name (ready_names statuses) ≡ true) lbs

count_ready-bound :
    (lbs : List LoadBalancerExposureSpec) (statuses : List MachinePortLoadBalancerCloudStatus)
    → count_ready lbs statuses ≤ length lbs
unfolding count_ready
count_ready-bound [] statuses = omega arith
count_ready-bound (lb ∷ lbs) statuses = ground (arith, count_ready-bound lbs statuses)

count_ready_complete :
    (lbs : List LoadBalancerExposureSpec) (statuses : List MachinePortLoadBalancerCloudStatus)
    → count_ready lbs statuses ≡ length lbs
    → AllListen lbs statuses
unfolding count_ready
count_ready_complete [] statuses h = tt
count_ready_complete (lb ∷ lbs) statuses h = (
  ground (arith, count_ready-bound lbs statuses),
  count_ready_complete lbs statuses (ground (arith, count_ready-bound lbs statuses)),
)

AllListen-count :
    (lbs : List LoadBalancerExposureSpec) (statuses : List MachinePortLoadBalancerCloudStatus)
    → AllListen lbs statuses
    → count_ready lbs statuses ≡ length lbs
unfolding count_ready
AllListen-count [] statuses h = refl
AllListen-count (lb ∷ lbs) statuses h = rw h.0 (ground (arith, AllListen-count lbs statuses h.1))

-- What a port with a number needs to be Ready: no load balancer to wait for, or no error of the
-- cloud and a listener in each of them.
abbrev pub Exposes :
    List LoadBalancerExposureSpec
    → Map String MachinePortCloudStatus
    → Option ApiError
    → String
    → Type 0
Exposes lbs cloud cloud_error uid =
    (lbs ≡ [])
    ⊎ ((cloud_error ≡ none)
        × AllListen lbs (set_port_primary_compat (or_empty (get uid cloud))).load_balancers)

exposure_by-ready :
    (b : Bool) (counts : String) (status : MachinePortCloudStatus)
    → (exposure_by b counts status).1 ≡ port_phase_ready
    → b ≡ true
unfolding exposure_by
exposure_by-ready true counts status h = refl
exposure_by-ready false counts status h = absurd (cc)

exposure_by-all :
    (b : Bool) (counts : String) (status : MachinePortCloudStatus)
    → b ≡ true
    → (exposure_by b counts status).1 ≡ port_phase_ready
unfolding exposure_by
exposure_by-all true counts status h = refl
exposure_by-all false counts status h = absurd (cc)

exposure_of-ready :
    (lbs : List LoadBalancerExposureSpec) (uid : String) (cloud : Map String MachinePortCloudStatus)
    (e : Option ApiError)
    → (exposure_of lbs uid cloud e).1 ≡ port_phase_ready
    → Exposes lbs cloud e uid
unfolding exposure_of count_required
exposure_of-ready [] uid cloud e h = inl refl
exposure_of-ready (lb ∷ lbs) uid cloud (some e) h = absurd (cc)
exposure_of-ready (lb ∷ lbs) uid cloud none h =
    let statuses = (set_port_primary_compat (or_empty (get uid cloud))).load_balancers in
    inr (
      refl,
      count_ready_complete (lb ∷ lbs) statuses (
          ground (
            arith,
            exposure_by-ready _ _ _ h,
            eqb_iff (count_ready (lb ∷ lbs) statuses) (length (lb ∷ lbs)),
          )),
    )

exposure_of-listening :
    (lbs : List LoadBalancerExposureSpec) (uid : String) (cloud : Map String MachinePortCloudStatus)
    (e : Option ApiError)
    → Exposes lbs cloud e uid
    → (exposure_of lbs uid cloud e).1 ≡ port_phase_ready
unfolding exposure_of count_required
exposure_of-listening [] uid cloud e h = refl
exposure_of-listening (lb ∷ lbs) uid cloud e (inl h) = absurd (cc)
exposure_of-listening (lb ∷ lbs) uid cloud (some e) (inr h) = absurd (cc)
exposure_of-listening (lb ∷ lbs) uid cloud none (inr h) =
    let statuses = (set_port_primary_compat (or_empty (get uid cloud))).load_balancers in
    exposure_by-all _ _ _ (
      ground (
        arith,
        AllListen-count (lb ∷ lbs) statuses h.1,
        eqb_iff (count_ready (lb ∷ lbs) statuses) (length (lb ∷ lbs)),
      ))

module _ (h : Helpers) (lbs : List LoadBalancerExposureSpec) (allocated : Map String ℤ)
    (cloud : Map String MachinePortCloudStatus) (e : Option ApiError) (now : ℤ)
    (m : MachinePort) where
  port_with-ready :
      (n : Option ℤ)
      → (port_with h n lbs cloud e now m).status.phase ≡ port_phase_ready
      → (is_some n ≡ true) × Exposes lbs cloud e m.meta.uid
  unfolding port_with
  port_with-ready none ready = absurd (cc)
  port_with-ready (some p) ready = (refl, exposure_of-ready lbs m.meta.uid cloud e ready)

  port_with-serves :
      (n : Option ℤ)
      → is_some n ≡ true
      → Exposes lbs cloud e m.meta.uid
      → (port_with h n lbs cloud e now m).status.phase ≡ port_phase_ready
  unfolding port_with
  port_with-serves none there exposes = absurd (cc)
  port_with-serves (some p) there exposes = exposure_of-listening lbs m.meta.uid cloud e exposes

  -- A machine port that syncMachinePortStatuses makes Ready has a number, and either the group has
  -- no load balancers, or the cloud manager had no error and each of them has a listener for it.
  pub next_port-ready :
      (next_port h lbs allocated cloud e now m).status.phase ≡ port_phase_ready
      → (is_some (get m.meta.uid allocated) ≡ true) × Exposes lbs cloud e m.meta.uid
  unfolding next_port
  next_port-ready ready = port_with-ready (get m.meta.uid allocated) ready

  -- A machine port that has a number, in a group without load balancers or with a listener in each
  -- of them and no error of the cloud manager, is made Ready.
  pub next_port-serves :
      is_some (get m.meta.uid allocated) ≡ true
      → Exposes lbs cloud e m.meta.uid
      → (next_port h lbs allocated cloud e now m).status.phase ≡ port_phase_ready
  unfolding next_port
  next_port-serves there exposes = port_with-serves (get m.meta.uid allocated) there exposes
