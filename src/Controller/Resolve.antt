-- ===== src/Controller/Resolve.antt =====
-- buildResolvedLinks and resolvedLinkHash
use tiproxy_machine_operator.Api.{Link, ResolvedLinkStatus}
use tiproxy_machine_operator.Prelude.{
  List, String, [], if◌then◌else◌, int_eq, nat_eq, none, some, string_eq, ℤ, ◌==◌, ◌∷◌,
}
use tiproxy_machine_operator.Prelude.Assoc.{Map, get}
use tiproxy_machine_operator.Text.{concat, show_int, trim_space}

-- resolvedLinkHash. The writes of the hasher add up to one text.
unfoldable pub resolved_link_hash : (String → String) → ResolvedLinkStatus → String
resolved_link_hash sha256_hex l = sha256_hex (
    concat (
      l.uid
      ∷ l.name
      ∷ l.namespace
      ∷ l.route_namespace
      ∷ l.frontend_user
      ∷ show_int l.port
      ∷ l.cluster_name
      ∷ l.ns_server_addr
      ∷ concat l.pd_addresses
      ∷ (elim l.tls_secret_ref [ none ↦ "" | some name ↦ name ])
      ∷ []))

unfoldable pub resolve_link : (String → String) → Link → ℤ → ResolvedLinkStatus
resolve_link sha256_hex l port =
    let cluster = trim_space l.spec.cluster_name in
    let route = trim_space l.spec.route_namespace in
    let entry : ResolvedLinkStatus = record {
      uid = l.meta.uid;
      name = l.meta.name;
      namespace = l.meta.namespace;
      route_namespace = if route == "" then l.meta.name else route;
      frontend_user = l.spec.frontend_user;
      port = port;
      cluster_name =
          if cluster == "" then concat (l.meta.namespace ∷ "." ∷ l.meta.name ∷ []) else cluster;
      pd_addresses = l.spec.pd_addresses;
      ns_server_addr = l.spec.ns_server_addr;
      tls_secret_ref = l.spec.tls_secret_ref;
      config_hash = "";
    } in
    record entry { config_hash = resolved_link_hash sha256_hex entry }

-- buildResolvedLinks
unfoldable pub build_resolved_links :
    (String → String) → List Link → Map String ℤ → List ResolvedLinkStatus
build_resolved_links sha256_hex [] link_ports = []
build_resolved_links sha256_hex (l ∷ ls) link_ports =
    let rest = build_resolved_links sha256_hex ls link_ports in
    elim (get l.meta.uid link_ports) [
      | none ↦ rest
      | some port ↦ resolve_link sha256_hex l port ∷ rest
    ]
