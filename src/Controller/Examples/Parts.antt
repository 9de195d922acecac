-- ===== src/Controller/Examples/Parts.antt =====
-- The properties of the controller's parts at concrete inputs.
use text.Mathlib.TextEquality.{eq_iff}
use tiproxy_machine_operator.Api.{
  Link, LoadBalancerExposureSpec, MachineGroup, MachinePortCloudStatus,
  MachinePortLoadBalancerCloudStatus, condition_exposed, condition_port_assigned, empty_cloud,
  empty_port_cloud, port_phase_ready, set_port_primary_compat,
}
use tiproxy_machine_operator.Prelude.{
  String, [], arith, err, inr, int_eq, is_some, nat_eq, none, not, ok, pos, refl, some, sort_by,
  string_eq, true, ℤ, ◌&&◌, ◌==◌, ◌∷◌, ◌≡◌,
}
use tiproxy_machine_operator.Cloud.{Manager}
use tiproxy_machine_operator.Cloud.Noop.{noop_manager}
use tiproxy_machine_operator.Controller.Assign.{
  assign_all_by_name, assign_by_name, assign_ports_to_links, assign_rest, assigned_ports,
  errors_for, index_by_name, key_of, ordered_available, remaining_ports,
}
use tiproxy_machine_operator.Controller.Assign.Errors.{assign_ports_to_links-errors, linked}
use tiproxy_machine_operator.Controller.Assign.Sources.{assign_ports_to_links-Injective, uids_of}
use tiproxy_machine_operator.Controller.Delete.{reconcile_delete-frees, released}
use tiproxy_machine_operator.Controller.Examples.{
  allocated_example, dying_group, environment_of, group_key, helpers_example, link_named,
  port_named, two_links, two_ports,
}
use tiproxy_machine_operator.Controller.Exec.{Call, Environment, delete_group, get_group}
use tiproxy_machine_operator.Controller.Group.{
  reconcile, reconcile_answer, reconcile_found, reconcile_by,
}
use tiproxy_machine_operator.Controller.PortStatus.{
  count_ready, count_required, exposure_by, exposure_of, has_name, next_port, port_with,
  ready_names,
}
use tiproxy_machine_operator.Controller.PortStatus.Conditions.{holds_now, next_port-agrees}
use tiproxy_machine_operator.Controller.PortStatus.Ready.{
  Exposes, next_port-ready, next_port-serves,
}
use tiproxy_machine_operator.Controller.Reconcile.{cloud_manager_for, done, reconcile_delete}
use tiproxy_machine_operator.Controller.Undone.{Undone, reconcile-Undone}
use tiproxy_machine_operator.Effects.{call, continue, lift, ◌>>=◌, ◌>>◌}
use tiproxy_machine_operator.Kube.{api_failure}
use tiproxy_machine_operator.Prelude.Assoc.{Map, contains, get, put, remove}
use tiproxy_machine_operator.Prelude.Sets.{Apart}
use tiproxy_machine_operator.Text.{concat, to_lower, trim_space}

abbrev failing_manager : Manager Call
failing_manager = record {
  ensure_machine_group = λ h mg ms allocated. record {
    status = empty_cloud;
    by_uid = [];
    error = some (api_failure "no cloud");
  };
  delete_machine_group = λ h mg. some (api_failure "no cloud");
}

abbrev aws_group : MachineGroup
aws_group = record dying_group { spec = record dying_group.spec { provider = "aws" } }

abbrev aws_environment : Environment
aws_environment = record (environment_of aws_group) {
  provider = "aws";
  cloud_manager = some failing_manager;
}

chooses_aws : cloud_manager_for aws_environment aws_group ≡ ok failing_manager
unfolding cloud_manager_for to_lower trim_space
chooses_aws = refl

fails_to_delete :
    reconcile aws_environment group_key []
    ≡ (err (api_failure "no cloud"), delete_group aws_group ∷ get_group group_key ∷ [])
unfolding reconcile reconcile_answer reconcile_found reconcile_by reconcile_delete ◌>>=◌ ◌>>◌
    continue lift call cloud_manager_for to_lower trim_space
fails_to_delete = refl

reconcile-Undone_example :
    Undone aws_environment aws_group
      (get_group group_key ∷ [])
      (api_failure "no cloud")
      (delete_group aws_group ∷ get_group group_key ∷ [])
reconcile-Undone_example =
    reconcile-Undone aws_environment aws_group group_key (pos 50) [] (api_failure "no cloud")
      (delete_group aws_group ∷ get_group group_key ∷ []) refl refl fails_to_delete

deletes : reconcile_delete (environment_of dying_group) dying_group [] ≡ (
  ok done,
  released (environment_of dying_group) dying_group [] ∷ delete_group dying_group ∷ [],
)
unfolding reconcile_delete ◌>>=◌ ◌>>◌ continue lift call cloud_manager_for to_lower trim_space
    noop_manager
deletes = refl

reconcile_delete-frees_example :
    (manager : Manager Call) × (cloud_manager_for (environment_of dying_group) dying_group
      ≡ ok manager)
    × (manager.delete_machine_group [] dying_group ≡ none)
    × ((released (environment_of dying_group) dying_group [] ∷ delete_group dying_group ∷ [])
        ≡ (released (environment_of dying_group) dying_group [] ∷ delete_group dying_group ∷ []))
reconcile_delete-frees_example =
    reconcile_delete-frees (environment_of dying_group) dying_group []
      (released (environment_of dying_group) dying_group [] ∷ delete_group dying_group ∷ []) refl
      deletes

abbrev balancer : LoadBalancerExposureSpec
balancer = record {
  name = "internal";
  scope = "internal";
  load_balancer_name = "";
  subnet_ids = [];
}

abbrev listening : MachinePortLoadBalancerCloudStatus
listening = record {
  name = "internal";
  scope = "internal";
  load_balancer_id = "lb-1";
  load_balancer_address = "lb-1.example";
  listener_id = "listener-1";
  backend_id = "backend-1";
}

abbrev port_cloud : Map String MachinePortCloudStatus
port_cloud = ("port-a", record empty_port_cloud { load_balancers = listening ∷ [] }) ∷ []

all_listen : Exposes (balancer ∷ []) port_cloud none "port-a"
unfolding get has_name ready_names trim_space set_port_primary_compat
all_listen = inr (refl, (refl, tt))

next_port-serves_example :
    (next_port helpers_example
      (balancer ∷ [])
      allocated_example
      port_cloud
      none
      (pos 100)
      (port_named "port-a")).status.phase
    ≡ port_phase_ready
unfolding get
next_port-serves_example =
    next_port-serves helpers_example (balancer ∷ []) allocated_example port_cloud none (pos 100)
      (port_named "port-a") refl all_listen

is_ready :
    (next_port helpers_example
      (balancer ∷ [])
      allocated_example
      port_cloud
      none
      (pos 100)
      (port_named "port-a")).status.phase
    ≡ port_phase_ready
unfolding next_port port_with exposure_of exposure_by count_ready count_required get has_name
    ready_names trim_space set_port_primary_compat
is_ready = refl

next_port-ready_example :
    (is_some (get "port-a" allocated_example) ≡ true)
    × Exposes (balancer ∷ []) port_cloud none "port-a"
next_port-ready_example =
    next_port-ready helpers_example (balancer ∷ []) allocated_example port_cloud none (pos 100)
      (port_named "port-a") is_ready

assigns :
    get "port-b" (assign_ports_to_links two_links two_ports allocated_example).0 ≡ some (pos 4000)
unfolding assign_ports_to_links ordered_available index_by_name assign_by_name assign_all_by_name
    remaining_ports assign_rest errors_for assigned_ports get put contains sort_by key_of concat
    remove
assigns = refl

assign_ports_to_links-errors_example :
    is_some (get "link-x" (assign_ports_to_links two_links two_ports allocated_example).1) ≡ (
      linked two_links "link-x"
      && not
          (is_some (get "link-x" (assign_ports_to_links two_links two_ports allocated_example).0)))
assign_ports_to_links-errors_example =
    assign_ports_to_links-errors two_links two_ports allocated_example "link-x"

ports-Apart : Apart (uids_of two_ports)
unfolding contains
ports-Apart = (refl, (refl, tt))

allocated_apart :
    (u v : String) (p : ℤ)
    → get u allocated_example ≡ some p
    → get v allocated_example ≡ some p
    → u ≡ v
unfolding get
allocated_apart u v p h h' =
    grind (arith, eq_iff "port-a" u, eq_iff "port-b" u, eq_iff "port-a" v, eq_iff "port-b" v)

assign_ports_to_links-Injective_example : Path String "port-b" "port-b"
assign_ports_to_links-Injective_example =
    assign_ports_to_links-Injective two_links two_ports allocated_example ports-Apart
      allocated_apart "port-b" "port-b" (pos 4000) assigns assigns

-- A link of another namespace that names the group with its namespace.
abbrev distant_link : Link
distant_link = record (link_named "port-b") {
  meta = record ((link_named "port-b").meta) { namespace = "elsewhere" };
  spec = record ((link_named "port-b").spec) {
    machine_group_ref = record { name = "group"; namespace = "ns" };
  };
}

next_port-agrees_example :
    let s =
      (next_port helpers_example
        (balancer ∷ [])
        allocated_example
        port_cloud
        none
        (pos 100)
        (port_named "port-a")).status in
    (holds_now condition_port_assigned s.conditions ≡ is_some (get "port-a" allocated_example))
    × (holds_now condition_exposed s.conditions ≡ (s.phase == port_phase_ready))
next_port-agrees_example =
    next_port-agrees helpers_example (balancer ∷ []) allocated_example port_cloud none (pos 100)
      (port_named "port-a")
