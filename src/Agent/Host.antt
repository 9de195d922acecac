-- ===== src/Agent/Host.antt =====
-- What the agent calls: the API server, the files, the Docker daemon and the API of its TiProxy.
use tiproxy_machine_operator.Api.{MachineGroup}
use tiproxy_machine_operator.Effects.{Effect, call, to_result}
use tiproxy_machine_operator.Effects.Keeps.{Keeps}
use tiproxy_machine_operator.Kube.{ApiError, NamespacedName, Time, api_failure, text_of}
use tiproxy_machine_operator.Prelude.{
  Bool, List, Option, Result, String, [], err, none, ok, some, ℕ, ◌∷◌,
}
use tiproxy_machine_operator.Text.{concat}

-- The container that Start creates; the entry point and the network mode are fixed.
pub record ContainerSpec : Type 0 where
  pub name : String
  pub image : String
  pub cmd : List String
  pub binds : List String

-- The part of an inspected container's state that is read.
pub record ContainerState : Type 0 where
  pub running : Bool
  pub restarting : Bool

pub data AgentCall : Type 0 where
  read_group : NamespacedName → AgentCall
  patch_machines : MachineGroup → MachineGroup → AgentCall
  make_dir_of : String → AgentCall
  read_file : String → AgentCall
  write_file : String → String → AgentCall
  inspect_container : String → AgentCall
  pull_image : String → AgentCall
  remove_container : String → AgentCall
  create_container : ContainerSpec → AgentCall
  start_container : String → AgentCall
  put_config : String → String → AgentCall

abbrev pub AgentHistory : Type 0
AgentHistory = List AgentCall

abbrev pub AgentExec {ℓ} : Type ℓ → Type ℓ
AgentExec A = Effect AgentCall ApiError A

-- What the calls answer, which may depend on the history; `hash_bytes` and `quote` are SHA-256 and
-- the verb %q. An answer of `put_config` is the status and the body, whose first 4096 bytes are read.
pub record Host : Type 0 where
  pub quote : String → String
  pub hash_bytes : String → String
  pub now : AgentHistory → Time
  pub docker_client : Option ApiError
  pub answer_group : AgentHistory → NamespacedName → Result ApiError MachineGroup
  pub answer_file : AgentHistory → String → Option String
  pub answer_inspect : AgentHistory → String → Result ApiError (Option ContainerState)
  pub answer_pull : AgentHistory → String → Result ApiError (Option ApiError)
  pub answer_create : AgentHistory → ContainerSpec → Result ApiError String
  pub answer_put : AgentHistory → AgentCall → Result ApiError (ℕ × String)
  pub answer_done : AgentHistory → AgentCall → Option ApiError
  pub retry_on_conflict : AgentExec (Unit {0}) → AgentExec (Unit {0})

-- What the documentation of RetryOnConflict says of its calls: they are those of the function.
pub record Retries (host : Host) : Type 1 where
  pub retry_on_conflict-Keeps :
      (P : AgentCall → Type 0) (f : AgentExec (Unit {0}))
      → Keeps P f
      → Keeps P (host.retry_on_conflict f)

unfoldable pub do_host_call : Host → AgentCall → AgentExec (Unit {0})
do_host_call host c = call (λ h. to_result (host.answer_done h c)) c

-- An error with a text before it, as fmt.Errorf makes it; the chain is not looked at again.
abbrev pub prefixed : List String → Option ApiError → Result ApiError (Unit {0})
prefixed pieces none = ok tt
prefixed pieces (some e) = err (api_failure (concat (concat pieces ∷ ": " ∷ text_of e ∷ [])))
