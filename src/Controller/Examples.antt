-- ===== src/Controller/Examples.antt =====
-- A group with two machine ports and two links, and passes over it.
pub mod Passes
pub mod Parts
use text.Mathlib.TextEquality.{eq_iff}
use tiproxy_machine_operator.Allocator.{
  assign, collect, fill, fill_all, find_next, keep, keep_all, pin, pin_all, reconcile_ports,
  request_less, requests_of,
}
use tiproxy_machine_operator.Api.{
  Link, MachineGroup, MachinePort, MachineStatus, empty_cloud, empty_port_cloud,
  machine_phase_running, namespaced_name, validate,
}
use tiproxy_machine_operator.Controller.Assign.{key_of}
use tiproxy_machine_operator.Controller.Exec.{Environment, History, ensure_group}
use tiproxy_machine_operator.Controller.Group.{
  port_requests, reconcile, reconcile_allocated, reconcile_answer, reconcile_by, reconcile_found,
  reconcile_group, reconcile_listed, reconcile_valid,
}
use tiproxy_machine_operator.Controller.Provision.{Made}
use tiproxy_machine_operator.Controller.Reconcile.{
  cloud_manager_for, finalizer, list_links_of, list_ports_of, sync_link_statuses,
  sync_port_statuses,
}
use tiproxy_machine_operator.Controller.Select.{
  manages_link, manages_port, refers_to, select_links, select_ports,
}
use tiproxy_machine_operator.Effects.{call, continue, lift, read, ◌>>=◌, ◌>>◌}
use tiproxy_machine_operator.Exposure.{normalize_load_balancers}
use tiproxy_machine_operator.Kube.{
  Condition, Helpers, NamespacedName, ObjectMeta, Shows, Time, find_condition,
}
use tiproxy_machine_operator.Prelude.{
  Bool, List, String, [], arith, false, if◌then◌else◌, inc_int32, inl, inr, int_eq, nat_eq, none,
  ok, pos, refl, some, sort_by, string_eq, true, ℤ, ◌==◌, ◌∷◌, ◌≡◌, ◌≢◌,
}
use tiproxy_machine_operator.Prelude.Assoc.{Map, contains, get, put}
use tiproxy_machine_operator.Text.{concat, to_lower, trim_space}

abbrev pub holds : List String → String → Bool
holds [] f = false
holds (g ∷ gs) f = let rest = holds gs f in if g == f then true else rest

abbrev pub without : List String → String → List String
without [] f = []
without (g ∷ gs) f = let rest = without gs f in if g == f then rest else g ∷ rest

abbrev pub set_first : List Condition → Condition → List Condition
set_first cs c = c ∷ cs

abbrev pub add_first : List String → String → List String
add_first fs f = f ∷ fs

pub find-set_first :
    (cs : List Condition) (c : Condition) → Shows c (find_condition c.kind (set_first cs c))
unfolding find_condition
find-set_first cs c = rw ((eq_iff c.kind c.kind).1 refl) (refl, refl, refl, refl, refl)

pub find-set_first_other :
    (cs : List Condition) (c : Condition) (kind : String)
    → kind ≢ c.kind
    → find_condition kind (set_first cs c) ≡ find_condition kind cs
unfolding find_condition
find-set_first_other cs c kind ne = ground (arith, eq_iff c.kind kind)

pub holds-add_first : (fs : List String) (f : String) → holds (add_first fs f) f ≡ true
holds-add_first fs f = ground (arith, eq_iff f f)

pub holds-without : (fs : List String) (f : String) → holds (without fs f) f ≡ false
holds-without [] f = refl
holds-without (g ∷ gs) f = ground (arith, holds-without gs f)

abbrev pub helpers_example : Helpers
helpers_example = record {
  set_status_condition = set_first;
  contains_finalizer = holds;
  add_finalizer = add_first;
  remove_finalizer = without;
  find-set = find-set_first;
  find-set_other = find-set_first_other;
  contains-add = holds-add_first;
  contains-remove = holds-without;
}

abbrev pub meta_of : String → List String → Time → ObjectMeta
meta_of name finalizers deleted = record {
  name = name;
  namespace = "ns";
  uid = name;
  generation = pos 3;
  deletion_timestamp = deleted;
  finalizers = finalizers;
}

abbrev pub heard : Time → MachineStatus
heard t = record {
  observed_generation = pos 3;
  last_heartbeat_time = t;
  phase = machine_phase_running;
  config_hash = "";
  tiproxy_image = "tiproxy:v1";
  text = "";
}

abbrev pub machines_example : Map String MachineStatus
machines_example = ("i-1", heard (some (pos 90))) ∷ ("i-2", heard (some (pos 5))) ∷ []

-- The group, with its finalizers and its time of deletion.
abbrev pub group_with : List String → Time → MachineGroup
group_with finalizers deleted = record {
  meta = meta_of "group" finalizers deleted;
  spec = record {
    replicas = none;
    scaling = record { min_replicas = none; max_replicas = none };
    provider = "noop";
    provider_config_ref = none;
    port_range = record { start = pos 4000; end = pos 4010 };
    link_selector = none;
    exposure = record { load_balancers = none };
    placement = record { region = ""; failure_domains = []; spread_policy = "" };
    resource_names = record { group = ""; machine_template = "" };
    machine = record { image = ""; class = ""; identity_ref = ""; ssh_key_name = "" };
    network = record { subnet_ids = []; security_group_ids = [] };
    tags = [];
    bootstrap = record {
      user_data = "";
      kubeconfig = record { path = ""; inline = ""; remote_ref = none };
    };
    tiproxy = record {
      image = "";
      base_image = "";
      version = "";
      config = none;
      api_port = pos 0;
      api_scheme = "";
      container_name = "";
      config_path = "";
      cert_dir = "";
      extra_args = [];
    };
  };
  status = record {
    observed_generation = pos 2;
    allocated_ports = ("port-a", pos 4007) ∷ [];
    resolved_links = [];
    machines = machines_example;
    cloud = empty_cloud;
    conditions = [];
  };
}

abbrev pub port_named : String → MachinePort
port_named name = record {
  meta = meta_of name [] none;
  spec = record {
    machine_group_ref = record { name = "group"; namespace = "" };
    requested_port = none;
    protocol = "";
  };
  status = record {
    observed_generation = pos 0;
    assigned_port = none;
    phase = "";
    cloud = empty_port_cloud;
    conditions = [];
  };
}

abbrev pub link_named : String → Link
link_named name = record {
  meta = meta_of name [] none;
  spec = record {
    machine_group_ref = record { name = "group"; namespace = "" };
    cluster_name = "";
    route_namespace = "";
    frontend_user = "";
    pd_addresses = "pd-0:2379" ∷ [];
    ns_server_addr = "";
    tls_secret_ref = none;
    disabled = false;
  };
  status = record { observed_generation = pos 0; phase = ""; conditions = [] };
}

abbrev pub two_ports : List MachinePort
two_ports = port_named "port-a" ∷ port_named "port-b" ∷ []

abbrev pub two_links : List Link
two_links = link_named "link-x" ∷ link_named "port-b" ∷ []

abbrev pub environment_of : MachineGroup → Environment
environment_of mg = record {
  helpers = helpers_example;
  provider = "noop";
  cloud_manager = none;
  machine_status_stale_after = pos 20;
  answer_get = λ h key. ok mg;
  answer_links = λ h namespace selector. ok two_links;
  answer_ports = λ h namespace. ok two_ports;
  answer_patch = λ h c. none;
  selector_error = λ s. none;
  now = λ h. pos 100;
  sha256_hex = λ s. s;
}

abbrev pub group_key : NamespacedName
group_key = record { namespace = "ns"; name = "group" }

abbrev pub live_group : MachineGroup
live_group = group_with (finalizer ∷ []) none

abbrev pub dying_group : MachineGroup
dying_group = group_with (finalizer ∷ []) (some (pos 50))

abbrev pub allocated_example : Map String ℤ
allocated_example = ("port-a", pos 4007) ∷ ("port-b", pos 4000) ∷ []

abbrev pub first_pass : History
first_pass = (reconcile (environment_of live_group) group_key []).1

pub ensures : Made (ensure_group live_group two_ports allocated_example) first_pass
unfolding ◌>>=◌ ◌>>◌ continue lift call read reconcile reconcile_answer reconcile_found reconcile_by
    reconcile_group reconcile_valid validate normalize_load_balancers list_links_of list_ports_of
    select_links select_ports manages_link manages_port refers_to namespaced_name sort_by
    reconcile_listed reconcile_ports requests_of collect contains request_less pin_all pin keep_all
    keep assign get put fill_all fill find_next inc_int32 port_requests concat reconcile_allocated
    cloud_manager_for to_lower trim_space sync_port_statuses sync_link_statuses key_of
ensures = inr (inr (inr (inr (inr (inl refl)))))
