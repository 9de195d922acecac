-- ===== src/Agent/Render.antt =====
-- internal/agent/config/render.go: the TOML configuration of a TiProxy.
pub mod Ports
pub mod Clusters
use tiproxy_machine_operator.Api.{ResolvedLinkStatus}
use tiproxy_machine_operator.Prelude.{
  Bool, List, Result, String, [], eqz, err, if◌then◌else◌, int_eq, lez, ltz, map, nat_eq, ok, pos,
  sort_by, string_eq, text_ltb, ℤ, ◌==◌, ◌>>=◌, ◌||◌, ◌∷◌,
}
use tiproxy_machine_operator.Prelude.Assoc.{contains}
use tiproxy_machine_operator.Text.{concat, join, show_int, trim_space}

-- RenderOptions
pub record RenderOptions : Type 0 where
  pub resolved_links : List ResolvedLinkStatus
  pub api_port : ℤ
  pub listen_host : String
  pub port_range_start : ℤ
  pub port_range_end : ℤ
  pub default_listen_port : ℤ

-- backendCluster
pub record BackendCluster : Type 0 where
  pub name : String
  pub pd_addrs : String
  pub ns_servers : String

-- The errors of BuildTiProxyConfig.
pub data RenderError : Type 0 where
  invalid_api_port : ℤ → RenderError
  invalid_assigned_port : String → String → ℤ → RenderError
  duplicate_cluster_name : String → RenderError
  empty_pd_addresses : String → RenderError

-- defaultClusterName
unfoldable pub default_cluster_name : ResolvedLinkStatus → String
default_cluster_name l =
    if l.namespace == "" then l.name else concat (l.namespace ∷ "." ∷ l.name ∷ [])

-- ClusterName
unfoldable pub cluster_name_of : ResolvedLinkStatus → String
cluster_name_of l =
    if trim_space l.cluster_name == "" then default_cluster_name l else trim_space l.cluster_name

-- The inner loop: the addresses that are not blank, trimmed.
unfoldable pub pd_addrs_of : List String → List String
pd_addrs_of [] = []
pd_addrs_of (addr ∷ rest) =
    let later = pd_addrs_of rest in if trim_space addr == "" then later else trim_space addr ∷ later

-- The end of a round of the outer loop, given the addresses and what the later rounds return.
unfoldable pub with_cluster :
    ResolvedLinkStatus
    → List String
    → Result RenderError (List BackendCluster)
    → Result RenderError (List BackendCluster)
with_cluster l [] later = err (empty_pd_addresses (cluster_name_of l))
with_cluster l (addr ∷ addrs) later = do
  rest ← later
  ok (
      record {
        name = cluster_name_of l;
        pd_addrs = join (addr ∷ addrs) ",";
        ns_servers = trim_space l.ns_server_addr;
      }
      ∷ rest)

-- The outer loop; `names` is the set of names met so far.
unfoldable pub collect_clusters :
    List String → List ResolvedLinkStatus → Result RenderError (List BackendCluster)
collect_clusters names [] = ok []
collect_clusters names (l ∷ ls) =
    let name = cluster_name_of l in
    let later = collect_clusters (name ∷ names) ls in
    if lez l.port (pos 0)
    then err (invalid_assigned_port l.namespace l.name l.port)
    else if contains names name
    then err (duplicate_cluster_name name)
    else with_cluster l (pd_addrs_of l.pd_addresses) later

abbrev pub cluster_less : BackendCluster → BackendCluster → Bool
cluster_less a b = text_ltb a.name b.name

-- buildBackendClusters
unfoldable pub build_backend_clusters :
    List ResolvedLinkStatus → Result RenderError (List BackendCluster)
build_backend_clusters links = do
  clusters ← collect_clusters [] links
  ok (sort_by cluster_less clusters)

-- One round of the loop of inferPortRange, on `start` and `end`.
unfoldable pub widen : ℤ → ℤ × ℤ → ℤ × ℤ
widen port (start, end) = if lez port (pos 0) then (start, end) else (
  if eqz start (pos 0) || ltz port start then port else start,
  if eqz end (pos 0) || ltz end port then port else end,
)

unfoldable pub infer_all : List ResolvedLinkStatus → ℤ × ℤ → ℤ × ℤ
infer_all [] range = range
infer_all (l ∷ ls) range = infer_all ls (widen l.port range)

-- inferPortRange
unfoldable pub infer_port_range : List ResolvedLinkStatus → ℤ × ℤ
infer_port_range links = infer_all links (pos 0, pos 0)

-- The range that is rendered: the given one, else the one of the links, else the default port.
unfoldable pub is_no_range : ℤ × ℤ → Bool
is_no_range (start, end) = lez start (pos 0) || ltz end start

unfoldable pub default_range : ℤ → ℤ × ℤ
default_range port = let p = if lez port (pos 0) then pos 6000 else port in (p, p)

unfoldable pub range_of : RenderOptions → ℤ × ℤ
range_of opts =
    let given : ℤ × ℤ = (opts.port_range_start, opts.port_range_end) in
    let inferred = infer_port_range opts.resolved_links in
    if is_no_range given
    then (if is_no_range inferred then default_range opts.default_listen_port else inferred)
    else given

-- `quote` is the verb %q of fmt.
module _ (quote : String → String) where
  unfoldable pub render_cluster : BackendCluster → String
  render_cluster c = concat (
      "\n[[proxy.backend-clusters]]\n"
      ∷ "name = "
      ∷ quote c.name
      ∷ "\n"
      ∷ "pd-addrs = "
      ∷ quote c.pd_addrs
      ∷ "\n"
      ∷ (if c.ns_servers == ""
          then ""
          else concat ("ns-servers = " ∷ quote c.ns_servers ∷ "\n" ∷ []))
      ∷ [])

  unfoldable pub render_clusters : List BackendCluster → String
  render_clusters [] = "backend-clusters = []\n"
  render_clusters (c ∷ cs) = concat (map render_cluster (c ∷ cs))

  unfoldable pub render : String → ℤ → ℤ × ℤ → List BackendCluster → String
  render host api_port (start, end) clusters = concat (
      "[proxy]\n"
      ∷ "addr = "
      ∷ quote (concat (host ∷ ":" ∷ show_int start ∷ []))
      ∷ "\n"
      ∷ "port-range = ["
      ∷ show_int start
      ∷ ", "
      ∷ show_int end
      ∷ "]\n"
      ∷ render_clusters clusters
      ∷ "\n[balance]\n"
      ∷ "routing-rule = "
      ∷ quote "port"
      ∷ "\n"
      ∷ "\n[api]\n"
      ∷ "addr = "
      ∷ quote (concat ("0.0.0.0:" ∷ show_int api_port ∷ []))
      ∷ "\n"
      ∷ [])

  -- BuildTiProxyConfig
  unfoldable pub build_tiproxy_config : RenderOptions → Result RenderError String
  build_tiproxy_config opts =
      let api_port = if eqz opts.api_port (pos 0) then pos 3080 else opts.api_port in
      let trimmed = trim_space opts.listen_host in
      let host = if trimmed == "" then "0.0.0.0" else trimmed in
      let clusters = build_backend_clusters opts.resolved_links in
      if lez api_port (pos 0)
      then err (invalid_api_port api_port)
      else elim clusters [ err e ↦ err e | ok cs ↦ ok (render host api_port (range_of opts) cs) ]
