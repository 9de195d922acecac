-- ===== src/Cloud/Noop.antt =====
-- internal/cloud/noop/manager.go
pub mod Listeners
use tiproxy_machine_operator.Api.{
  LoadBalancerCloudStatus, LoadBalancerExposureSpec, MachineGroup, MachinePort,
  MachinePortCloudStatus, MachinePortLoadBalancerCloudStatus, empty_cloud, empty_port_cloud,
  set_port_primary_compat, set_primary_compat,
}
use tiproxy_machine_operator.Cloud.{Ensured, Manager, resolve_names}
use tiproxy_machine_operator.Exposure.{ExposureError, exposure_error_text, normalize_load_balancers}
use tiproxy_machine_operator.Kube.{api_failure}
use tiproxy_machine_operator.Prelude.{
  List, Option, Result, String, [], err, if◌then◌else◌, int_eq, lez, map, none, ok, pos, some,
  string_eq, ℤ, ◌∷◌,
}
use tiproxy_machine_operator.Prelude.Assoc.{Map, get, put}
use tiproxy_machine_operator.Text.{concat, show_int}

abbrev pub load_balancer_status : String → LoadBalancerExposureSpec → LoadBalancerCloudStatus
load_balancer_status group lb = record {
  name = lb.name;
  scope = lb.scope;
  load_balancer_id = concat ("noop://" ∷ group ∷ "/" ∷ lb.name ∷ []);
  load_balancer_address = concat (lb.name ∷ ".noop.local" ∷ []);
}

abbrev pub port_load_balancer_status :
    ℤ → LoadBalancerCloudStatus → MachinePortLoadBalancerCloudStatus
port_load_balancer_status port lb = record {
  name = lb.name;
  scope = lb.scope;
  load_balancer_id = lb.load_balancer_id;
  load_balancer_address = lb.load_balancer_address;
  listener_id = concat ("noop-listener://" ∷ lb.name ∷ "/" ∷ show_int port ∷ []);
  backend_id = concat ("noop-backend://" ∷ lb.name ∷ "/" ∷ show_int port ∷ []);
}

-- The body of the loop over the machine ports, by the port's allocation.
unfoldable pub expose_port :
    List LoadBalancerCloudStatus
    → String
    → Option ℤ
    → Map String MachinePortCloudStatus
    → Map String MachinePortCloudStatus
expose_port lbs uid none by_uid = by_uid
expose_port lbs uid (some port) by_uid =
    if lez port (pos 0)
    then by_uid
    else put uid
        (set_port_primary_compat
          (record empty_port_cloud { load_balancers = map (port_load_balancer_status port) lbs }))
        by_uid

-- The loop over the machine ports.
unfoldable pub expose_ports :
    List LoadBalancerCloudStatus
    → List MachinePort
    → Map String ℤ
    → Map String MachinePortCloudStatus
    → Map String MachinePortCloudStatus
expose_ports lbs [] allocated by_uid = by_uid
expose_ports lbs (m ∷ ms) allocated by_uid =
    expose_ports lbs ms allocated (expose_port lbs m.meta.uid (get m.meta.uid allocated) by_uid)

-- EnsureMachineGroup with the load balancers, and with what NormalizeLoadBalancers returns.
unfoldable pub ensure_with :
    MachineGroup → List MachinePort → Map String ℤ → List LoadBalancerExposureSpec → Ensured
ensure_with mg machine_ports allocated [] =
    let (lt, asg) = resolve_names mg in
    record {
      status = record empty_cloud { machine_group_name = asg; machine_template_name = lt };
      by_uid = [];
      error = none;
    }
ensure_with mg machine_ports allocated (lb ∷ rest) =
    let (lt, asg) = resolve_names mg in
    let lbs = map (load_balancer_status mg.meta.name) (lb ∷ rest) in
    record {
      status = set_primary_compat (record empty_cloud {
        machine_group_name = asg;
        machine_template_name = lt;
        load_balancers = lbs;
      });
      by_uid = expose_ports lbs machine_ports allocated [];
      error = none;
    }

unfoldable pub ensure_normalized :
    MachineGroup
    → List MachinePort
    → Map String ℤ
    → Result ExposureError (List LoadBalancerExposureSpec)
    → Ensured
ensure_normalized mg machine_ports allocated (err e) = record {
  status = empty_cloud;
  by_uid = [];
  error = some (api_failure (exposure_error_text e));
}
ensure_normalized mg machine_ports allocated (ok lbs) = ensure_with mg machine_ports allocated lbs

-- EnsureMachineGroup
unfoldable pub ensure : MachineGroup → List MachinePort → Map String ℤ → Ensured
ensure mg machine_ports allocated =
    ensure_normalized mg machine_ports allocated (normalize_load_balancers mg.spec.exposure)

-- NewManager. DeleteMachineGroup does nothing.
unfoldable pub noop_manager : (C : Type 0) → Manager C
noop_manager C = record {
  ensure_machine_group = λ history mg machine_ports allocated. ensure mg machine_ports allocated;
  delete_machine_group = λ history mg. none;
}
