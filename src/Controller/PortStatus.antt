-- ===== src/Controller/PortStatus.antt =====
-- The statuses of machine ports and links: syncMachinePortStatuses,
-- syncMachinePortAllocationFailure, syncLinkStatuses and their counts.
pub mod Ready
pub mod Conditions
use tiproxy_machine_operator.Api.{
  Link, LoadBalancerExposureSpec, MachinePort, MachinePortCloudStatus,
  MachinePortLoadBalancerCloudStatus, condition_exposed, condition_port_assigned, condition_ready,
  empty_port_cloud, port_phase_allocated, port_phase_error, port_phase_pending, port_phase_ready,
  set_port_primary_compat,
}
use tiproxy_machine_operator.Kube.{
  ApiError, Condition, ConditionStatus, Helpers, condition_false, condition_true, text_of,
}
use tiproxy_machine_operator.Prelude.{
  Bool, List, Option, String, [], false, if◌then◌else◌, int_eq, length, ltb, nat_eq, none, some,
  string_eq, true, ℕ, ℤ, ◌&&◌, ◌+◌, ◌==◌, ◌∷◌,
}
use tiproxy_machine_operator.Prelude.Assoc.{Map, get}
use tiproxy_machine_operator.Text.{concat, show_int, show_ℕ, trim_space}

-- A condition as the controller sets it, at the time of metav1.Now().
abbrev pub condition_of : String → ConditionStatus → String → String → ℤ → ℤ → Condition
condition_of kind status reason text generation now = record {
  kind = kind;
  status = status;
  reason = reason;
  text = text;
  observed_generation = generation;
  last_transition_time = some now;
}

-- The map readyByName, as the list of its keys.
unfoldable pub ready_names : List MachinePortLoadBalancerCloudStatus → List String
ready_names [] = []
ready_names (s ∷ ss) =
    let rest = ready_names ss in if trim_space s.listener_id == "" then rest else s.name ∷ rest

unfoldable pub has_name : String → List String → Bool
has_name name [] = false
has_name name (n ∷ ns) = if name == n then true else has_name name ns

-- countReadyPortLoadBalancers
unfoldable pub count_ready :
    List LoadBalancerExposureSpec → List MachinePortLoadBalancerCloudStatus → ℕ
count_ready [] statuses = 0
count_ready (lb ∷ lbs) statuses =
    let rest = count_ready lbs statuses in
    if has_name lb.name (ready_names statuses) then rest + 1 else rest

-- countRequiredPortLoadBalancers
unfoldable pub count_required : List LoadBalancerExposureSpec → ℕ
count_required lbs = length lbs

-- A missing key of a map reads as the zero value.
abbrev pub or_empty : Option MachinePortCloudStatus → MachinePortCloudStatus
or_empty none = empty_port_cloud
or_empty (some s) = s

abbrev or_blank : Option String → String
or_blank none = ""
or_blank (some s) = s

-- The port's exposure when the cloud manager had no error: whether every load balancer is ready,
-- and the text `ready/required`.
unfoldable pub exposure_by :
    Bool → String → MachinePortCloudStatus → (ℤ → ℤ → Condition) × String × MachinePortCloudStatus
exposure_by true counts status = (
  condition_of condition_exposed condition_true "Ready"
      (concat (counts ∷ " load balancer listeners are ready" ∷ [])),
  port_phase_ready,
  status,
)
exposure_by false counts status = (
  condition_of condition_exposed condition_false "Pending"
      (concat ("waiting for load balancer listeners (" ∷ counts ∷ " ready)" ∷ [])),
  port_phase_allocated,
  status,
)

-- The switch on the exposure of a port that has a number: phase, cloud status, and condition.
unfoldable pub exposure_of :
    List LoadBalancerExposureSpec
    → String
    → Map String MachinePortCloudStatus
    → Option ApiError
    → (ℤ → ℤ → Condition) × String × MachinePortCloudStatus
exposure_of [] uid cloud cloud_error = (
  condition_of condition_exposed condition_true "ExposureDisabled"
      "machine group load balancer exposure is disabled",
  port_phase_ready,
  empty_port_cloud,
)
exposure_of (lb ∷ lbs) uid cloud (some e) = (
  condition_of condition_exposed condition_false "CloudEnsureFailed" (text_of e),
  port_phase_allocated,
  empty_port_cloud,
)
exposure_of (lb ∷ lbs) uid cloud none =
    let status = set_port_primary_compat (or_empty (get uid cloud)) in
    let ready = count_ready (lb ∷ lbs) status.load_balancers in
    let required = count_required (lb ∷ lbs) in
    exposure_by (ltb 0 required && ready == required)
      (concat (show_ℕ ready ∷ "/" ∷ show_ℕ required ∷ [])) status

module _ (h : Helpers) where
  -- The body of the loop of syncMachinePortStatuses, up to the patch, for the port's number.
  unfoldable pub port_with :
      Option ℤ
      → List LoadBalancerExposureSpec
      → Map String MachinePortCloudStatus
      → Option ApiError
      → ℤ
      → MachinePort
      → MachinePort
  port_with none lbs cloud cloud_error now m =
      let generation = m.meta.generation in
      record m {
        status = record {
          observed_generation = generation;
          assigned_port = none;
          phase = port_phase_pending;
          cloud = empty_port_cloud;
          conditions =
              h.set_status_condition
                (h.set_status_condition m.status.conditions (
                  condition_of condition_port_assigned condition_false "Unassigned"
                    "waiting for port allocation" generation now))
                (condition_of condition_exposed condition_false "PortUnassigned"
                  "listener is not reconciled before port assignment" generation now);
        };
      }
  port_with (some p) lbs cloud cloud_error now m =
      let generation = m.meta.generation in
      let (exposed, phase, status) = exposure_of lbs m.meta.uid cloud cloud_error in
      record m {
        status = record {
          observed_generation = generation;
          assigned_port = some p;
          phase = phase;
          cloud = status;
          conditions =
              h.set_status_condition
                (h.set_status_condition m.status.conditions (
                  condition_of condition_port_assigned condition_true "Assigned"
                    (concat ("assigned port " ∷ show_int p ∷ [])) generation now))
                (exposed generation now);
        };
      }

  unfoldable pub next_port :
      List LoadBalancerExposureSpec
      → Map String ℤ
      → Map String MachinePortCloudStatus
      → Option ApiError
      → ℤ
      → MachinePort
      → MachinePort
  next_port lbs allocated cloud cloud_error now m =
      port_with (get m.meta.uid allocated) lbs cloud cloud_error now m

  -- The body of the loop of syncMachinePortAllocationFailure.
  unfoldable pub failed_port : String → ℤ → MachinePort → MachinePort
  failed_port msg now m =
      let generation = m.meta.generation in
      record m {
        status = record {
          observed_generation = generation;
          assigned_port = none;
          phase = port_phase_error;
          cloud = empty_port_cloud;
          conditions =
              h.set_status_condition
                (h.set_status_condition m.status.conditions (
                  condition_of condition_port_assigned condition_false "PortAllocationFailed" msg
                    generation now))
                (condition_of condition_exposed condition_false "PortAllocationFailed" msg
                  generation now);
        };
      }

  -- The body of the loop of syncLinkStatuses.
  unfoldable pub next_link : Map String ℤ → Map String String → String → ℤ → Link → Link
  next_link assigned errors default_error now l =
      let generation = l.meta.generation in
      elim (get l.meta.uid assigned) [
        | some p ↦ record l {
          status = record {
            observed_generation = generation;
            phase = "Ready";
            conditions = h.set_status_condition l.status.conditions (
                condition_of condition_ready condition_true "Resolved"
                  "resolved to an allocated TiProxyMachinePort" generation now);
          };
        }
        | none ↦
            let own = trim_space (or_blank (get l.meta.uid errors)) in
            let msg = if own == "" then trim_space default_error else own in
            record l {
              status = record {
                observed_generation = generation;
                phase = "Error";
                conditions =
                    h.set_status_condition l.status.conditions (
                      condition_of condition_ready condition_false "Unresolved" msg generation now);
              };
            }
      ]
