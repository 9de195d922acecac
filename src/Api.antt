-- ===== src/Api.antt =====
-- The API types of api/v1alpha1 and their small methods. TypeMeta is left out; of ObjectMeta the
-- model has what the program uses. Optional pointers are `Option`, and an absent map is an empty one.
use tiproxy_machine_operator.Kube.{Condition, NamespacedName, ObjectMeta, Time}
use tiproxy_machine_operator.Prelude.{
  Bool, List, Option, String, [], if◌then◌else◌, int_eq, lez, ltz, nat_eq, none, pos, some,
  string_eq, ℤ, ◌==◌, ◌∷◌,
}
use tiproxy_machine_operator.Prelude.Assoc.{Map}
use tiproxy_machine_operator.Text.{trim_space}

-- ObjectReference
pub record ObjectReference : Type 0 where
  pub name : String
  pub namespace : String

-- PortRange
pub record PortRange : Type 0 where
  pub start : ℤ
  pub end : ℤ

-- TiProxyRuntimeSpec; `config` is the raw JSON.
pub record TiProxyRuntimeSpec : Type 0 where
  pub image : String
  pub base_image : String
  pub version : String
  pub config : Option String
  pub api_port : ℤ
  pub api_scheme : String
  pub container_name : String
  pub config_path : String
  pub cert_dir : String
  pub extra_args : List String

-- ScalingSpec
pub record ScalingSpec : Type 0 where
  pub min_replicas : Option ℤ
  pub max_replicas : Option ℤ

-- PlacementSpec
pub record PlacementSpec : Type 0 where
  pub region : String
  pub failure_domains : List String
  pub spread_policy : String

-- MachineSpec
pub record MachineSpec : Type 0 where
  pub image : String
  pub class : String
  pub identity_ref : String
  pub ssh_key_name : String

-- NetworkSpec
pub record NetworkSpec : Type 0 where
  pub subnet_ids : List String
  pub security_group_ids : List String

-- ResourceNamesSpec
pub record ResourceNamesSpec : Type 0 where
  pub group : String
  pub machine_template : String

-- LoadBalancerExposureSpec
pub record LoadBalancerExposureSpec : Type 0 where
  pub name : String
  pub scope : String
  pub load_balancer_name : String
  pub subnet_ids : List String

-- ExposureSpec; a nil slice and an empty one differ.
pub record ExposureSpec : Type 0 where
  pub load_balancers : Option (List LoadBalancerExposureSpec)

-- RemoteContentRef
pub record RemoteContentRef : Type 0 where
  pub backend : String
  pub identifier : String

-- KubeconfigBootstrapSpec
pub record KubeconfigBootstrapSpec : Type 0 where
  pub path : String
  pub inline : String
  pub remote_ref : Option RemoteContentRef

-- MachineBootstrapSpec
pub record MachineBootstrapSpec : Type 0 where
  pub user_data : String
  pub kubeconfig : KubeconfigBootstrapSpec

-- LoadBalancerCloudStatus
pub record LoadBalancerCloudStatus : Type 0 where
  pub name : String
  pub scope : String
  pub load_balancer_id : String
  pub load_balancer_address : String

-- CloudStatus
pub record CloudStatus : Type 0 where
  pub machine_group_name : String
  pub machine_template_id : String
  pub machine_template_name : String
  pub machine_template_ver : String
  pub frontend_id : String
  pub frontend_address : String
  pub load_balancers : List LoadBalancerCloudStatus

-- MachinePortLoadBalancerCloudStatus
pub record MachinePortLoadBalancerCloudStatus : Type 0 where
  pub name : String
  pub scope : String
  pub load_balancer_id : String
  pub load_balancer_address : String
  pub listener_id : String
  pub backend_id : String

-- MachinePortCloudStatus
pub record MachinePortCloudStatus : Type 0 where
  pub frontend_id : String
  pub frontend_address : String
  pub listener_id : String
  pub backend_id : String
  pub load_balancers : List MachinePortLoadBalancerCloudStatus

-- ResolvedLinkStatus; of the TLS secret reference the name.
pub record ResolvedLinkStatus : Type 0 where
  pub uid : String
  pub name : String
  pub namespace : String
  pub route_namespace : String
  pub frontend_user : String
  pub port : ℤ
  pub cluster_name : String
  pub pd_addresses : List String
  pub ns_server_addr : String
  pub tls_secret_ref : Option String
  pub config_hash : String

-- MachineStatus
pub record MachineStatus : Type 0 where
  pub observed_generation : ℤ
  pub last_heartbeat_time : Time
  pub phase : String
  pub config_hash : String
  pub tiproxy_image : String
  pub text : String

-- TiProxyMachineGroupSpec; `link_selector` is the label selector as a text.
pub record MachineGroupSpec : Type 0 where
  pub replicas : Option ℤ
  pub scaling : ScalingSpec
  pub provider : String
  pub provider_config_ref : Option ObjectReference
  pub port_range : PortRange
  pub link_selector : Option String
  pub exposure : ExposureSpec
  pub placement : PlacementSpec
  pub resource_names : ResourceNamesSpec
  pub machine : MachineSpec
  pub network : NetworkSpec
  pub tags : Map String String
  pub bootstrap : MachineBootstrapSpec
  pub tiproxy : TiProxyRuntimeSpec

-- TiProxyMachineGroupStatus
pub record MachineGroupStatus : Type 0 where
  pub observed_generation : ℤ
  pub allocated_ports : Map String ℤ
  pub resolved_links : List ResolvedLinkStatus
  pub machines : Map String MachineStatus
  pub cloud : CloudStatus
  pub conditions : List Condition

-- TiProxyMachineGroup
pub record MachineGroup : Type 0 where
  pub meta : ObjectMeta
  pub spec : MachineGroupSpec
  pub status : MachineGroupStatus

-- TiProxyMachinePortSpec
pub record MachinePortSpec : Type 0 where
  pub machine_group_ref : ObjectReference
  pub requested_port : Option ℤ
  pub protocol : String

-- TiProxyMachinePortStatus
pub record MachinePortStatus : Type 0 where
  pub observed_generation : ℤ
  pub assigned_port : Option ℤ
  pub phase : String
  pub cloud : MachinePortCloudStatus
  pub conditions : List Condition

-- TiProxyMachinePort
pub record MachinePort : Type 0 where
  pub meta : ObjectMeta
  pub spec : MachinePortSpec
  pub status : MachinePortStatus

-- TiDBResourcePoolLinkSpec
pub record LinkSpec : Type 0 where
  pub machine_group_ref : ObjectReference
  pub cluster_name : String
  pub route_namespace : String
  pub frontend_user : String
  pub pd_addresses : List String
  pub ns_server_addr : String
  pub tls_secret_ref : Option String
  pub disabled : Bool

-- TiDBResourcePoolLinkStatus
pub record LinkStatus : Type 0 where
  pub observed_generation : ℤ
  pub phase : String
  pub conditions : List Condition

-- TiDBResourcePoolLink
pub record Link : Type 0 where
  pub meta : ObjectMeta
  pub spec : LinkSpec
  pub status : LinkStatus

-- The conditions and phases of the const blocks.
abbrev pub condition_ready : String
condition_ready = "Ready"

abbrev pub condition_port_assigned : String
condition_port_assigned = "PortAssigned"

abbrev pub condition_exposed : String
condition_exposed = "Exposed"

abbrev pub machine_phase_starting : String
machine_phase_starting = "Starting"

abbrev pub machine_phase_running : String
machine_phase_running = "Running"

abbrev pub machine_phase_failed : String
machine_phase_failed = "Failed"

abbrev pub port_phase_pending : String
port_phase_pending = "Pending"

abbrev pub port_phase_allocated : String
port_phase_allocated = "Allocated"

abbrev pub port_phase_ready : String
port_phase_ready = "Ready"

abbrev pub port_phase_error : String
port_phase_error = "Error"

-- ObjectReference.NamespacedName
unfoldable pub namespaced_name : ObjectReference → String → NamespacedName
namespaced_name r default_namespace = record {
  namespace = if r.namespace == "" then default_namespace else r.namespace;
  name = r.name;
}

-- PortRange.Validate: nil, or the error's text.
unfoldable pub validate : PortRange → Option String
validate r =
    if lez r.start (pos 0)
    then some "port range start must be > 0"
    else if ltz r.end r.start
    then some "port range end must be >= start"
    else none

-- TiProxyMachineGroupSpec.DesiredReplicas
unfoldable pub desired_replicas : MachineGroupSpec → ℤ
desired_replicas s = elim s.replicas [ none ↦ pos 1 | some n ↦ if ltz n (pos 0) then pos 0 else n ]

-- LoadBalancerExposureSpec.EffectiveScope
unfoldable pub effective_scope : LoadBalancerExposureSpec → String
effective_scope f = let scope = trim_space f.scope in if scope == "" then "internal" else scope

-- CloudStatus.SetPrimaryLoadBalancerCompat
unfoldable pub set_primary_compat : CloudStatus → CloudStatus
set_primary_compat s = elim s.load_balancers [
  | [] ↦ record s { frontend_id = ""; frontend_address = "" }
  | lb ∷ _ ↦ record s {
    frontend_id = lb.load_balancer_id;
    frontend_address = lb.load_balancer_address;
  }
]

-- MachinePortCloudStatus.SetPrimaryLoadBalancerCompat
unfoldable pub set_port_primary_compat : MachinePortCloudStatus → MachinePortCloudStatus
set_port_primary_compat s = elim s.load_balancers [
  | [] ↦ record s { frontend_id = ""; frontend_address = ""; listener_id = ""; backend_id = "" }
  | lb ∷ _ ↦ record s {
    frontend_id = lb.load_balancer_id;
    frontend_address = lb.load_balancer_address;
    listener_id = lb.listener_id;
    backend_id = lb.backend_id;
  }
]

abbrev pub empty_port_cloud : MachinePortCloudStatus
empty_port_cloud = record {
  frontend_id = "";
  frontend_address = "";
  listener_id = "";
  backend_id = "";
  load_balancers = [];
}

abbrev pub empty_cloud : CloudStatus
empty_cloud = record {
  machine_group_name = "";
  machine_template_id = "";
  machine_template_name = "";
  machine_template_ver = "";
  frontend_id = "";
  frontend_address = "";
  load_balancers = [];
}
