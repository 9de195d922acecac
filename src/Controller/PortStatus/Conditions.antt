-- ===== src/Controller/PortStatus/Conditions.antt =====
-- The conditions of a machine port against its phase and number.
use tiproxy_machine_operator.Api.{
  LoadBalancerExposureSpec, MachinePort, MachinePortCloudStatus, condition_exposed,
  condition_port_assigned, port_phase_ready,
}
use tiproxy_machine_operator.Controller.PortStatus.{exposure_by, exposure_of, next_port, port_with}
use tiproxy_machine_operator.Kube.{
  ApiError, Condition, ConditionStatus, Helpers, Shows, condition_false, condition_true,
  condition_unknown, find_condition,
}
use tiproxy_machine_operator.Prelude.{
  Bool, List, Option, String, [], ap, false, int_eq, is_some, nat_eq, none, refl, some, string_eq,
  sym, true, ℤ, ◌==◌, ◌∙◌, ◌∷◌, ◌≡◌, ◌≢◌,
}
use tiproxy_machine_operator.Prelude.Assoc.{Map, get}

abbrev pub is_condition_true : ConditionStatus → Bool
is_condition_true condition_true = true
is_condition_true condition_false = false
is_condition_true condition_unknown = false

abbrev pub says_true : Option Condition → Bool
says_true none = false
says_true (some c) = is_condition_true c.status

-- Whether a condition of a type is there and true.
abbrev pub holds_now : String → List Condition → Bool
holds_now kind cs = says_true (find_condition kind cs)

pub Shows-says_true :
    (c : Condition) (o : Option Condition) → Shows c o → says_true o ≡ is_condition_true c.status
Shows-says_true c none shown = absurd shown
Shows-says_true c (some d) shown = rw shown.1 refl

exposure_by-agrees :
    (b : Bool) (counts : String) (status : MachinePortCloudStatus) (g now : ℤ)
    → (((exposure_by b counts status).0 g now).kind ≡ condition_exposed)
      × (is_condition_true ((exposure_by b counts status).0 g now).status
          ≡ ((exposure_by b counts status).1 == port_phase_ready))
unfolding exposure_by
exposure_by-agrees true counts status g now = (refl, refl)
exposure_by-agrees false counts status g now = (refl, refl)

exposure_of-agrees :
    (lbs : List LoadBalancerExposureSpec) (uid : String) (cloud : Map String MachinePortCloudStatus)
    (e : Option ApiError) (g now : ℤ)
    → (((exposure_of lbs uid cloud e).0 g now).kind ≡ condition_exposed)
      × (is_condition_true ((exposure_of lbs uid cloud e).0 g now).status
          ≡ ((exposure_of lbs uid cloud e).1 == port_phase_ready))
unfolding exposure_of
exposure_of-agrees [] uid cloud e g now = (refl, refl)
exposure_of-agrees (lb ∷ lbs) uid cloud (some e) g now = (refl, refl)
exposure_of-agrees (lb ∷ lbs) uid cloud none g now = exposure_by-agrees _ _ _ g now

module _ (h : Helpers) where
  -- Two conditions that are set one after the other.
  both_set :
      (cs : List Condition) (a b : Condition) (kind : String)
      → a.kind ≢ kind
      → b.kind ≡ kind
      → (holds_now a.kind (h.set_status_condition (h.set_status_condition cs a) b)
          ≡ is_condition_true a.status)
        × (holds_now kind (h.set_status_condition (h.set_status_condition cs a) b)
            ≡ is_condition_true b.status)
  both_set cs a b kind ne same =
      let twice = h.set_status_condition (h.set_status_condition cs a) b in
      (
        ap says_true (h.find-set_other (h.set_status_condition cs a) b a.kind (λ e. ne (e ∙ same)))
            ∙ Shows-says_true a _ (h.find-set cs a),
        ap (λ k. holds_now k twice) (sym same)
            ∙ Shows-says_true b _ (h.find-set (h.set_status_condition cs a) b),
      )

  kinds_apart : Path String condition_port_assigned condition_exposed → ⊥
  kinds_apart same = cc

  port_with-agrees :
      (n : Option ℤ) (lbs : List LoadBalancerExposureSpec)
      (cloud : Map String MachinePortCloudStatus) (e : Option ApiError) (now : ℤ) (m : MachinePort)
      → let s = (port_with h n lbs cloud e now m).status in
        (holds_now condition_port_assigned s.conditions ≡ is_some n)
        × (holds_now condition_exposed s.conditions ≡ (s.phase == port_phase_ready))
  unfolding port_with
  port_with-agrees none lbs cloud e now m =
      both_set m.status.conditions _ _ condition_exposed kinds_apart refl
  port_with-agrees (some p) lbs cloud e now m =
      let (kind, agrees) = exposure_of-agrees lbs m.meta.uid cloud e m.meta.generation now in
      let (assigned, shown) =
        both_set m.status.conditions _
          ((exposure_of lbs m.meta.uid cloud e).0 m.meta.generation now) condition_exposed
          kinds_apart kind in
      (assigned, shown ∙ agrees)

  -- After syncMachinePortStatuses a machine port's condition PortAssigned is true exactly when the
  -- port has a number, and its condition Exposed exactly when its phase is Ready.
  pub next_port-agrees :
      (lbs : List LoadBalancerExposureSpec) (allocated : Map String ℤ)
      (cloud : Map String MachinePortCloudStatus) (e : Option ApiError) (now : ℤ) (m : MachinePort)
      → let s = (next_port h lbs allocated cloud e now m).status in
        (holds_now condition_port_assigned s.conditions ≡ is_some (get m.meta.uid allocated))
        × (holds_now condition_exposed s.conditions ≡ (s.phase == port_phase_ready))
  unfolding next_port
  next_port-agrees lbs allocated cloud e now m =
      port_with-agrees (get m.meta.uid allocated) lbs cloud e now m
