-- ===== src/Agent/Status.antt =====
-- internal/agent/agent.go: the machine's entry in the status of its group.
use tiproxy_machine_operator.Agent.Host.{AgentExec, Host, do_host_call, patch_machines, read_group}
use tiproxy_machine_operator.Api.{MachineGroup}
use tiproxy_machine_operator.Effects.{call, pure, read, ◌>>=◌}
use tiproxy_machine_operator.Kube.{ApiError, NamespacedName, Time, not_found}
use tiproxy_machine_operator.Prelude.{
  Option, Result, String, err, if◌then◌else◌, int_eq, is_some, nat_eq, none, ok, some, string_eq,
  ◌==◌, ◌||◌,
}
use tiproxy_machine_operator.Prelude.Assoc.{get, put, remove}

-- Agent; the clients are the host's, and the period is left out.
pub record Agent : Type 0 where
  pub namespace : String
  pub machine_group : String
  pub machine_id : String
  pub default_image : String
  pub last_config_hash : String

abbrev pub own_group_key : Agent → NamespacedName
own_group_key a = record { namespace = a.namespace; name = a.machine_group }

-- The machine's entry in the group's status.
pub record Report : Type 0 where
  pub phase : String
  pub image : String
  pub config_hash : String
  pub text : String

unfoldable pub with_machine : Agent → Report → Time → MachineGroup → MachineGroup
with_machine a report now mg = record mg {
  status = record mg.status {
    machines =
        put a.machine_id
          (record {
            observed_generation = mg.meta.generation;
            last_heartbeat_time = now;
            phase = report.phase;
            config_hash = report.config_hash;
            tiproxy_image = report.image;
            text = report.text;
          })
          mg.status.machines;
  };
}

unfoldable pub without_machine : Agent → MachineGroup → MachineGroup
without_machine a mg = record mg {
  status = record mg.status { machines = remove a.machine_id mg.status.machines };
}

-- The Get of removeMachineStatus: a group that is not found is none.
abbrev pub if_found : Result ApiError MachineGroup → Result ApiError (Option MachineGroup)
if_found (err (not_found s)) = ok none
if_found (err e) = err e
if_found (ok mg) = ok (some mg)

module _ (host : Host) (a : Agent) where
  unfoldable pub get_own_group : AgentExec MachineGroup
  get_own_group = call (λ h. host.answer_group h (own_group_key a)) (read_group (own_group_key a))

  -- The function that upsertMachineStatus retries.
  unfoldable pub upsert_once : Report → AgentExec (Unit {0})
  upsert_once report = do
    mg ← get_own_group
    now ← read host.now
    do_host_call host (patch_machines (with_machine a report now mg) mg)

  -- upsertMachineStatus
  unfoldable pub upsert_machine_status : Report → AgentExec (Unit {0})
  upsert_machine_status report = host.retry_on_conflict (upsert_once report)

  unfoldable pub remove_from : Option MachineGroup → AgentExec (Unit {0})
  remove_from none = pure tt
  remove_from (some mg) =
      if is_some (get a.machine_id mg.status.machines)
      then do_host_call host (patch_machines (without_machine a mg) mg)
      else pure tt

  -- The function that removeMachineStatus retries.
  unfoldable pub remove_once : AgentExec (Unit {0})
  remove_once = do
    mg ← call (λ h. if_found (host.answer_group h (own_group_key a))) (read_group (own_group_key a))
    remove_from mg

  -- removeMachineStatus
  unfoldable pub remove_machine_status : AgentExec (Unit {0})
  remove_machine_status =
      if a.machine_group == "" || a.machine_id == ""
      then pure tt
      else host.retry_on_conflict remove_once
