-- ===== src/Agent/Sync.antt =====
-- internal/agent/agent.go: the rounds of the agent.
pub mod Entries
pub mod Held
pub mod Delivered
use Prim.Native.String
use Prim.Native.Char.{code}
use tiproxy_machine_operator.Agent.Docker.{StartOptions, is_running, start}
use tiproxy_machine_operator.Agent.Host.{
  AgentExec, AgentHistory, Host, do_host_call, make_dir_of, put_config, read_file, write_file,
}
use tiproxy_machine_operator.Agent.Render.{
  RenderError, RenderOptions, build_tiproxy_config, duplicate_cluster_name, empty_pd_addresses,
  invalid_api_port, invalid_assigned_port,
}
use tiproxy_machine_operator.Agent.Settings.{RuntimeSettings, runtime_settings}
use tiproxy_machine_operator.Agent.Status.{
  Agent, Report, get_own_group, remove_machine_status, upsert_machine_status,
}
use tiproxy_machine_operator.Api.{
  MachineGroup, machine_phase_failed, machine_phase_running, machine_phase_starting,
}
use tiproxy_machine_operator.Effects.{call, lift, pure, raise, ◌>>=◌, ◌>>◌}
use tiproxy_machine_operator.Kube.{ApiError, api_failure, text_of}
use tiproxy_machine_operator.Prelude.{
  Bool, Option, Result, String, [], eqb, err, false, if◌then◌else◌, int_eq, leb, ltb, nat_eq, none,
  ok, some, string_eq, suc, true, zero, ℕ, ◌&&◌, ◌==◌, ◌||◌, ◌∷◌,
}
use tiproxy_machine_operator.Text.{concat, show_int, show_ℕ, trim_space}

unfoldable pub render_error_text : RenderError → String
render_error_text (invalid_api_port port) = concat ("invalid api port " ∷ show_int port ∷ [])
render_error_text (invalid_assigned_port namespace name port) =
    concat ("link " ∷ namespace ∷ "/" ∷ name ∷ " has invalid assigned port " ∷ show_int port ∷ [])
render_error_text (duplicate_cluster_name name) =
    concat ("duplicate cluster name \"" ∷ name ∷ "\" in resolved links" ∷ [])
render_error_text (empty_pd_addresses name) =
    concat ("cluster \"" ∷ name ∷ "\" has empty pd addresses" ∷ [])

abbrev pub rendered : Result RenderError String → Result ApiError String
rendered (ok s) = ok s
rendered (err e) = err (api_failure (render_error_text e))

-- strings.TrimRight(s, "/")
unfoldable pub trim_slashes : String → String
trim_slashes String.[] = String.[]
trim_slashes (String.◌∷◌ c s) =
    let rest = trim_slashes s in if eqb (code c) b'/' && rest == "" then "" else String.◌∷◌ c rest

-- The status and the body of the config API.
unfoldable pub accepted : Result ApiError (ℕ × String) → Result ApiError (Unit {0})
accepted (err e) = err e
accepted (ok (status, body)) =
    if ltb status 200 || leb 300 status
    then err (
        api_failure
          (concat ("config api status=" ∷ show_ℕ status ∷ " body=" ∷ trim_space body ∷ [])))
    else ok tt

module _ (host : Host) (a : Agent) where
  -- pushConfig
  unfoldable pub push_config : String → String → AgentExec (Unit {0})
  push_config api_base_url cfg =
      let c = put_config (concat (trim_slashes api_base_url ∷ "/api/admin/config" ∷ [])) cfg in
      call (λ h. accepted (host.answer_put h c)) c

  -- writeConfigFile
  unfoldable pub write_if_changed : String → String → Option String → AgentExec (Unit {0})
  write_if_changed path content none = do_host_call host (write_file path content)
  write_if_changed path content (some old) =
      if old == content then pure tt else do_host_call host (write_file path content)

  unfoldable pub write_config_file : String → String → AgentExec (Unit {0})
  write_config_file path content =
      if path == "" then raise (api_failure "empty config path") else do
        do_host_call host (make_dir_of path)
        old ← call (λ h. ok (host.answer_file h path)) (read_file path)
        write_if_changed path content old

  -- The options of BuildTiProxyConfig.
  unfoldable pub render_options : MachineGroup → RuntimeSettings → RenderOptions
  render_options mg settings = record {
    resolved_links = mg.status.resolved_links;
    api_port = settings.api_port;
    listen_host = settings.listen_host;
    port_range_start = mg.spec.port_range.start;
    port_range_end = mg.spec.port_range.end;
    default_listen_port = mg.spec.port_range.start;
  }

  abbrev start_options : RuntimeSettings → StartOptions
  start_options settings = record {
    name = settings.container_name;
    image = settings.image;
    config_path = settings.config_path;
    cert_dir = settings.cert_dir;
    extra_args = settings.extra_args;
  }

  -- The failed status, whose own error is dropped, before the error is returned.
  unfoldable pub reported {ℓ} : {A : Type ℓ} → String → String → Result ApiError A → AgentExec A
  reported image hash (ok v) h = (ok v, h)
  reported image hash (err e) h =
      let (_, h') =
        upsert_machine_status host a
          (record {
            phase = machine_phase_failed;
            image = image;
            config_hash = hash;
            text = text_of e;
          })
          h in
      (err e, h')

  unfoldable pub or_report {ℓ} : {A : Type ℓ} → String → String → AgentExec A → AgentExec A
  or_report image hash m h = let (r, h') = m h in reported image hash r h'

  -- Whether the container was started now.
  unfoldable pub start_or_push : RuntimeSettings → String → String → Bool → AgentExec Bool
  start_or_push settings cfg hash true =
      if hash == a.last_config_hash
      then pure false
      else or_report settings.image hash (push_config settings.api_base_url cfg) >> pure false
  start_or_push settings cfg hash false =
      or_report settings.image hash (start host (start_options settings)) >> pure true

  -- What a round has delivered.
  unfoldable pub deliver : RuntimeSettings → String → AgentExec Bool
  deliver settings cfg =
      let hash = host.hash_bytes cfg in
      do
        or_report settings.image hash (write_config_file settings.config_path cfg)
        running ← or_report settings.image hash (is_running host settings.container_name)
        start_or_push settings cfg hash running

  -- syncOnce up to the point where lastConfigHash is set: the settings, the hash of the rendered
  -- configuration and whether the container was started.
  unfoldable pub prepare : AgentExec (RuntimeSettings × (String × Bool))
  prepare =
      if a.machine_group == ""
      then raise (api_failure "machine group is required")
      else if a.machine_id == ""
      then raise (api_failure "machine id is required")
      else do
        mg ← get_own_group host a
        let settings = runtime_settings a.default_image mg
        cfg ←
            or_report settings.image ""
              (lift (rendered (build_tiproxy_config host.quote (render_options mg settings))))
        just_started ← deliver settings cfg
        pure (settings, (host.hash_bytes cfg, just_started))

  abbrev final_report : RuntimeSettings → String → Bool → Report
  final_report settings hash true = record {
    phase = machine_phase_starting;
    image = settings.image;
    config_hash = hash;
    text = "tiproxy container started with rendered config";
  }
  final_report settings hash false = record {
    phase = machine_phase_running;
    image = settings.image;
    config_hash = hash;
    text = "tiproxy is running";
  }

  unfoldable pub finish_round :
      Result ApiError (RuntimeSettings × (String × Bool))
      → AgentHistory
      → (Result ApiError (Unit {0}) × Agent) × AgentHistory
  finish_round (err e) h = ((err e, a), h)
  finish_round (ok (settings, (hash, just_started))) h =
      let (r, h') = upsert_machine_status host a (final_report settings hash just_started) h in
      ((r, record a { last_config_hash = hash }), h')

  -- syncOnce: its error, the agent after it, and the calls.
  unfoldable pub sync_once : AgentHistory → (Result ApiError (Unit {0}) × Agent) × AgentHistory
  sync_once h = let (r, h') = prepare h in finish_round r h'

-- The rounds of Run until the context is done, their errors logged.
unfoldable pub rounds : Host → ℕ → Agent → AgentHistory → Agent × AgentHistory
rounds host zero a h = (a, h)
rounds host (suc n) a h = let ((_, a'), h') = sync_once host a h in rounds host n a' h'

-- Run, of an agent whose ticker fires n times before the context is done.
unfoldable pub run_agent : Host → ℕ → Agent → AgentHistory → AgentHistory
run_agent host n a h =
    let named = record a { namespace = if a.namespace == "" then "default" else a.namespace } in
    let (a', h') = rounds host (suc n) named h in
    let (_, h'') = remove_machine_status host a' h' in h''
