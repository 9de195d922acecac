-- ===== src/Agent/Examples.antt =====
-- The rendering of two links.
use tiproxy_machine_operator.Agent.Render.{
  BackendCluster, build_backend_clusters, cluster_name_of, collect_clusters, default_cluster_name,
  infer_all, infer_port_range, pd_addrs_of, widen, with_cluster,
}
use tiproxy_machine_operator.Agent.Render.Clusters.{build_backend_clusters-Apart, names_of}
use tiproxy_machine_operator.Api.{ResolvedLinkStatus}
use tiproxy_machine_operator.Prelude.{
  List, String, [], int_eq, none, ok, pos, refl, sort_by, string_eq, ℤ, ◌∷◌, ◌≡◌,
}
use tiproxy_machine_operator.Prelude.Assoc.{contains}
use tiproxy_machine_operator.Prelude.Sets.{Apart}
use tiproxy_machine_operator.Text.{concat, join, trim_space}

abbrev resolved : String → ℤ → ResolvedLinkStatus
resolved name port = record {
  uid = name;
  name = name;
  namespace = "ns";
  route_namespace = name;
  frontend_user = "";
  port = port;
  cluster_name = "";
  pd_addresses = " pd-0:2379" ∷ "" ∷ [];
  ns_server_addr = "";
  tls_secret_ref = none;
  config_hash = "";
}

abbrev two_resolved : List ResolvedLinkStatus
two_resolved = resolved "b" (pos 4002) ∷ resolved "a" (pos 4001) ∷ []

abbrev cluster_named : String → BackendCluster
cluster_named name = record { name = name; pd_addrs = "pd-0:2379"; ns_servers = "" }

abbrev two_clusters : List BackendCluster
two_clusters = cluster_named "ns.a" ∷ cluster_named "ns.b" ∷ []

builds : build_backend_clusters two_resolved ≡ ok two_clusters
unfolding build_backend_clusters collect_clusters with_cluster cluster_name_of default_cluster_name
    pd_addrs_of trim_space concat join contains sort_by
builds = refl

infers : infer_port_range two_resolved ≡ (pos 4001, pos 4002)
unfolding infer_port_range infer_all widen
infers = refl

build_backend_clusters-Apart_example : Apart (names_of two_clusters)
build_backend_clusters-Apart_example = build_backend_clusters-Apart two_resolved two_clusters builds
