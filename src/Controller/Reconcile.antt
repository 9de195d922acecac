-- ===== src/Controller/Reconcile.antt =====
-- Reconcile, reconcileDelete and the functions they call, as sequences of calls.
use tiproxy_machine_operator.Api.{Link, MachineGroup, MachinePort, condition_ready}
use tiproxy_machine_operator.Cloud.{Manager}
use tiproxy_machine_operator.Cloud.Noop.{noop_manager}
use tiproxy_machine_operator.Controller.Exec.{
  Call, Environment, Exec, History, delete_group, list_links, list_ports, patch, patch_group,
  patch_group_status, patch_link_status, patch_port_status,
}
use tiproxy_machine_operator.Controller.PortStatus.{condition_of, failed_port, next_link}
use tiproxy_machine_operator.Controller.Select.{select_links, select_ports}
use tiproxy_machine_operator.Effects.{call, lift, pure, read, to_result, ◌>>=◌, ◌>>◌}
use tiproxy_machine_operator.Kube.{
  ApiError, Condition, ConditionStatus, api_failure, condition_false,
}
use tiproxy_machine_operator.Prelude.{
  List, Option, Result, String, [], err, if◌then◌else◌, int_eq, nat_eq, none, not, ok, some,
  string_eq, ℕ, ℤ, ◌==◌, ◌||◌, ◌∷◌,
}
use tiproxy_machine_operator.Prelude.Assoc.{Map}
use tiproxy_machine_operator.Text.{concat, to_lower, trim_space}

-- ctrl.Result: nothing, Requeue, or RequeueAfter a number of seconds.
pub data Outcome : Type 0 where
  done requeue : Outcome
  requeue_after : ℕ → Outcome

abbrev pub finalizer : String
finalizer = "tiproxy.pingcap.com/machinegroup-finalizer"

abbrev pub max_machine_ports : ℕ
max_machine_ports = 50

-- `%q` is written with plain quotes.
abbrev quote : String → String
quote s = concat ("\"" ∷ s ∷ "\"" ∷ [])

-- The group with other conditions, finalizers.
abbrev pub with_conditions : MachineGroup → List Condition → MachineGroup
with_conditions mg cs = record mg { status = record mg.status { conditions = cs } }

abbrev pub with_finalizers : MachineGroup → List String → MachineGroup
with_finalizers mg fs = record mg { meta = record mg.meta { finalizers = fs } }

abbrev check_selector : Environment → Option String → Result ApiError (Unit {0})
check_selector env none = ok tt
check_selector env (some s) = elim (env.selector_error s) [
  | none ↦ ok tt
  | some e ↦ err (api_failure (concat ("invalid spec.linkSelector: " ∷ e ∷ [])))
]

module _ (env : Environment) where
  -- cloudManagerFor
  unfoldable pub cloud_manager_for : MachineGroup → Result ApiError (Manager Call)
  cloud_manager_for mg =
      let wanted = to_lower (trim_space mg.spec.provider) in
      let given = to_lower (trim_space env.provider) in
      if wanted == "" || wanted == "none" || wanted == "noop"
      then ok (noop_manager Call)
      else if not (wanted == "aws")
      then err (api_failure (concat ("unsupported spec.provider " ∷ quote wanted ∷ [])))
      else if not ((if given == "" then "noop" else given) == "aws")
      then err (
          api_failure (
            concat (
              "spec.provider="
              ∷ quote wanted
              ∷ " but controller started with --cloud-provider="
              ∷ quote env.provider
              ∷ [])))
      else elim env.cloud_manager [
        | none ↦ err (api_failure "aws cloud manager is not initialized")
        | some m ↦ ok m
      ]

  -- The condition Ready, set now.
  unfoldable pub with_ready :
      MachineGroup → ConditionStatus → String → String → History → MachineGroup
  with_ready mg status reason msg h = with_conditions mg (
      env.helpers.set_status_condition mg.status.conditions
        (condition_of condition_ready status reason msg mg.meta.generation (env.now h)))

  -- markMachineGroupError
  unfoldable pub mark_error : MachineGroup → String → String → ℕ → Exec Outcome
  mark_error mg reason msg seconds = do
    marked ← read (with_ready mg condition_false reason msg)
    patch env (patch_group_status marked mg)
    pure (requeue_after seconds)

  -- listManagedLinks
  unfoldable pub list_links_of : MachineGroup → Exec (List Link)
  list_links_of mg = do
    lift (check_selector env mg.spec.link_selector)
    items ←
        call (λ h. env.answer_links h mg.meta.namespace mg.spec.link_selector)
          (list_links mg.meta.namespace mg.spec.link_selector)
    pure (select_links mg items)

  -- listManagedMachinePorts
  unfoldable pub list_ports_of : MachineGroup → Exec (List MachinePort)
  list_ports_of mg = do
    items ← call (λ h. env.answer_ports h mg.meta.namespace) (list_ports mg.meta.namespace)
    pure (select_ports mg items)

  -- The loops that patch one object after another: `next` is the loop's body up to the patch.
  unfoldable pub sync_port_statuses :
      (ℤ → MachinePort → MachinePort) → List MachinePort → Exec (Unit {0})
  sync_port_statuses next [] = pure tt
  sync_port_statuses next (m ∷ ms) = do
    m' ← read (λ h. next (env.now h) m)
    patch env (patch_port_status m' m)
    sync_port_statuses next ms

  -- syncMachinePortAllocationFailure
  unfoldable pub sync_allocation_failure : List MachinePort → String → Exec (Unit {0})
  sync_allocation_failure ms msg = sync_port_statuses (failed_port env.helpers msg) ms

  -- syncLinkStatuses
  unfoldable pub sync_link_statuses :
      List Link → Map String ℤ → Map String String → String → Exec (Unit {0})
  sync_link_statuses [] assigned errors default_error = pure tt
  sync_link_statuses (l ∷ ls) assigned errors default_error = do
    l' ← read (λ h. next_link env.helpers assigned errors default_error (env.now h) l)
    patch env (patch_link_status l' l)
    sync_link_statuses ls assigned errors default_error

  -- reconcileDelete. A failure of DeleteMachineGroup is returned with RequeueAfter, which the
  -- caller ignores beside an error.
  unfoldable pub reconcile_delete : MachineGroup → Exec Outcome
  reconcile_delete mg =
      if not (env.helpers.contains_finalizer mg.meta.finalizers finalizer) then pure done else do
        manager ← lift (cloud_manager_for mg)
        call (λ h. to_result (manager.delete_machine_group h mg)) (delete_group mg)
        patch env (
            patch_group
              (with_finalizers mg (env.helpers.remove_finalizer mg.meta.finalizers finalizer)) mg)
        pure done
