-- ===== src/Agent/Docker.antt =====
-- internal/agent/docker/runner.go
use tiproxy_machine_operator.Agent.Host.{
  AgentExec, ContainerSpec, ContainerState, Host, create_container, inspect_container, prefixed,
  pull_image, remove_container, start_container,
}
use tiproxy_machine_operator.Effects.{call, lift, pure, raise, to_result, ◌>>=◌, ◌>>◌}
use tiproxy_machine_operator.Kube.{ApiError, api_failure, not_found, text_of}
use tiproxy_machine_operator.Prelude.{
  Bool, List, Option, Result, String, [], err, false, if◌then◌else◌, int_eq, nat_eq, none, not, ok,
  some, string_eq, ◌&&◌, ◌==◌, ◌∷◌,
}
use tiproxy_machine_operator.Text.{concat}

-- StartOptions
pub record StartOptions : Type 0 where
  pub name : String
  pub image : String
  pub config_path : String
  pub cert_dir : String
  pub extra_args : List String

-- The error of ContainerInspect: that there is no such container is not an error.
abbrev pub inspected :
    Result ApiError (Option ContainerState) → Result ApiError (Option ContainerState)
inspected (err (not_found s)) = ok none
inspected (err e) = err e
inspected (ok state) = ok state

abbrev pub is_up : Option ContainerState → Bool
is_up none = false
is_up (some s) = s.running && not s.restarting

abbrev pub unless_missing : List String → Option ApiError → Result ApiError (Unit {0})
unless_missing pieces (some (not_found s)) = ok tt
unless_missing pieces e = prefixed pieces e

abbrev pub wrap_err {ℓ} : {A : Type ℓ} → String → Result ApiError A → Result ApiError A
wrap_err text (ok a) = ok a
wrap_err text (err e) = err (api_failure (concat (text ∷ ": " ∷ text_of e ∷ [])))

-- The error of the pull, else the one of reading its output.
abbrev pub pulled : String → Result ApiError (Option ApiError) → Result ApiError (Unit {0})
pulled image (err e) =
    err (api_failure (concat ("docker pull " ∷ image ∷ " failed: " ∷ text_of e ∷ [])))
pulled image (ok drained) = prefixed ("drain image pull output" ∷ []) drained

unfoldable pub binds_of : StartOptions → List String
binds_of opts =
    concat (opts.config_path ∷ ":/etc/tiproxy/tiproxy.toml:ro" ∷ [])
    ∷ (if opts.cert_dir == ""
        then []
        else concat (opts.cert_dir ∷ ":/etc/tiproxy/certs:ro" ∷ []) ∷ [])

unfoldable pub container_spec : StartOptions → ContainerSpec
container_spec opts = record {
  name = opts.name;
  image = opts.image;
  cmd = "--config" ∷ "/etc/tiproxy/tiproxy.toml" ∷ opts.extra_args;
  binds = binds_of opts;
}

module _ (host : Host) where
  -- IsRunning
  unfoldable pub is_running : String → AgentExec Bool
  is_running name = if name == "" then raise (api_failure "container name is required") else do
    lift (to_result host.docker_client)
    state ← call (λ h. inspected (host.answer_inspect h name)) (inspect_container name)
    pure (is_up state)

  -- The part of Start after the checks of the options.
  unfoldable pub start_checked : StartOptions → AgentExec (Unit {0})
  start_checked opts = do
    lift (to_result host.docker_client)
    call (λ h. pulled opts.image (host.answer_pull h opts.image)) (pull_image opts.image)
    call
        (λ h.
          unless_missing ("docker rm " ∷ opts.name ∷ " failed" ∷ [])
            (host.answer_done h (remove_container opts.name)))
        (remove_container opts.name)
    id ←
        call (λ h. wrap_err "docker create failed" (host.answer_create h (container_spec opts)))
          (create_container (container_spec opts))
    call (λ h. prefixed ("docker start failed" ∷ []) (host.answer_done h (start_container id)))
        (start_container id)

  -- Start
  unfoldable pub start : StartOptions → AgentExec (Unit {0})
  start opts =
      if opts.name == ""
      then raise (api_failure "container name is required")
      else if opts.image == ""
      then raise (api_failure "image is required")
      else if opts.config_path == ""
      then raise (api_failure "config path is required")
      else start_checked opts
