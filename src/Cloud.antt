-- ===== src/Cloud.antt =====
-- internal/cloud/manager.go: the interface of the cloud managers, and the resource names.
pub mod Contract
pub mod Noop
pub mod Aws
use tiproxy_machine_operator.Api.{CloudStatus, MachineGroup, MachinePort, MachinePortCloudStatus}
use tiproxy_machine_operator.Kube.{ApiError}
use tiproxy_machine_operator.Prelude.{
  List, Option, String, [], if◌then◌else◌, int_eq, nat_eq, string_eq, ℤ, ◌==◌, ◌∷◌,
}
use tiproxy_machine_operator.Prelude.Assoc.{Map}
use tiproxy_machine_operator.Text.{concat}

-- What EnsureMachineGroup returns.
pub record Ensured : Type 0 where
  pub status : CloudStatus
  pub by_uid : Map String MachinePortCloudStatus
  pub error : Option ApiError

-- cloud.Manager. What a manager answers may depend on all that was done before: its methods take
-- the history of the calls that were made.
pub record Manager (C : Type 0) : Type 0 where
  pub ensure_machine_group : List C → MachineGroup → List MachinePort → Map String ℤ → Ensured
  pub delete_machine_group : List C → MachineGroup → Option ApiError

-- ResolveNames: the names of the launch template and of the auto scaling group.
unfoldable pub resolve_names : MachineGroup → String × String
resolve_names mg =
    let lt = mg.spec.resource_names.machine_template in
    let asg = mg.spec.resource_names.group in
    (
      if lt == "" then concat (mg.meta.namespace ∷ "-" ∷ mg.meta.name ∷ "-lt" ∷ []) else lt,
      if asg == "" then concat (mg.meta.namespace ∷ "-" ∷ mg.meta.name ∷ "-asg" ∷ []) else asg,
    )
