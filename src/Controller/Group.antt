-- ===== src/Controller/Group.antt =====
-- Reconcile: the whole handler, from the group that is read to the statuses that are written.
use tiproxy_machine_operator.Allocator.{LinkPortRequest, port_error_text, reconcile_ports}
use tiproxy_machine_operator.Api.{
  Link, LoadBalancerExposureSpec, MachineGroup, MachinePort, ResolvedLinkStatus, validate,
}
use tiproxy_machine_operator.Cloud.{Ensured}
use tiproxy_machine_operator.Controller.Assign.{assign_ports_to_links}
use tiproxy_machine_operator.Controller.Exec.{
  Environment, Exec, History, ensure_group, get_group, patch, patch_group, patch_group_status,
}
use tiproxy_machine_operator.Controller.PortStatus.{next_port}
use tiproxy_machine_operator.Controller.Prune.{prune_stale}
use tiproxy_machine_operator.Controller.Reconcile.{
  Outcome, cloud_manager_for, done, finalizer, list_links_of, list_ports_of, mark_error,
  max_machine_ports, reconcile_delete, requeue, requeue_after, sync_allocation_failure,
  sync_link_statuses, sync_port_statuses, with_finalizers, with_ready,
}
use tiproxy_machine_operator.Controller.Resolve.{build_resolved_links}
use tiproxy_machine_operator.Effects.{call, lift, pure, read, ◌>>=◌, ◌>>◌}
use tiproxy_machine_operator.Exposure.{ExposureError, exposure_error_text, normalize_load_balancers}
use tiproxy_machine_operator.Kube.{
  ApiError, ConditionStatus, NamespacedName, Time, api_failure, condition_false, condition_true,
  conflict, not_found, text_of,
}
use tiproxy_machine_operator.Prelude.{
  List, Option, Result, String, [], err, if◌then◌else◌, int_eq, length, ltb, nat_eq, none, not, ok,
  some, string_eq, ℕ, ℤ, ◌==◌, ◌∷◌,
}
use tiproxy_machine_operator.Prelude.Assoc.{Map}
use tiproxy_machine_operator.Text.{concat, show_ℕ}

unfoldable pub port_requests : List MachinePort → List LinkPortRequest
port_requests [] = []
port_requests (m ∷ ms) =
    record {
      uid = m.meta.uid;
      name = concat (m.meta.namespace ∷ "/" ∷ m.meta.name ∷ []);
      requested_port = m.spec.requested_port;
    }
    ∷ port_requests ms

-- The message of a group that is ready.
unfoldable pub ready_text : ℕ → ℕ → ℕ → String
ready_text resolved allocated pruned = concat (
    "resolved "
    ∷ show_ℕ resolved
    ∷ " link(s), allocated "
    ∷ show_ℕ allocated
    ∷ " machine port(s)"
    ∷ (if pruned == 1
        then ", pruned 1 stale machine status entry"
        else if ltb 1 pruned
        then concat (", pruned " ∷ show_ℕ pruned ∷ " stale machine status entries" ∷ [])
        else "")
    ∷ [])

-- The switch on the condition Ready: status, reason and message.
unfoldable pub verdict :
    Option ApiError → Map String String → ℕ → ℕ → ℕ → ConditionStatus × String × String
verdict (some e) link_errors resolved allocated pruned =
    (condition_false, "CloudEnsureFailed", text_of e)
verdict none (e ∷ es) resolved allocated pruned = (
  condition_false,
  "InsufficientMachinePorts",
  concat (show_ℕ (length (e ∷ es)) ∷ " link(s) unresolved due to missing machine ports" ∷ []),
)
verdict none [] resolved allocated pruned =
    (condition_true, "Ready", ready_text resolved allocated pruned)

-- The result of a pass that wrote every status.
unfoldable pub outcome_of : Option ApiError → Map String String → Outcome
outcome_of (some e) link_errors = requeue_after 20
outcome_of none (e ∷ es) = requeue_after 20
outcome_of none [] = done

unfoldable pub too_many_text : ℕ → String
too_many_text n = concat (
    "too many TiProxyMachinePort resources: "
    ∷ show_ℕ n
    ∷ " (max "
    ∷ show_ℕ max_machine_ports
    ∷ ")"
    ∷ [])

module _ (env : Environment) where
  -- The failures of the ports: too many, or not allocated.
  unfoldable pub report_failure :
      MachineGroup → List Link → List MachinePort → String → String → String → ℕ → Exec Outcome
  report_failure mg links machine_ports reason msg link_msg seconds = do
    sync_allocation_failure env machine_ports msg
    sync_link_statuses env links [] [] link_msg
    mark_error env mg reason msg seconds

  -- The status that is written: the object of the patch and its base, which is copied after the
  -- stale machines are pruned.
  unfoldable pub next_status :
      MachineGroup
      → Map String ℤ
      → List ResolvedLinkStatus
      → Ensured
      → Map String String
      → History
      → MachineGroup × MachineGroup
  next_status mg allocated resolved ensured link_errors h =
      let (base, pruned) = prune_stale env.machine_status_stale_after mg (env.now h) in
      let (status, reason, msg) =
        verdict ensured.error link_errors (length resolved) (length allocated) pruned in
      (
        with_ready env
            (record base {
              status = record base.status {
                observed_generation = base.meta.generation;
                allocated_ports = allocated;
                resolved_links = resolved;
                cloud = ensured.status;
              };
            })
            status reason msg h,
        base,
      )

  -- Reconcile from the allocated ports on.
  unfoldable pub reconcile_allocated :
      MachineGroup
      → List LoadBalancerExposureSpec
      → List Link
      → List MachinePort
      → Map String ℤ
      → Exec Outcome
  reconcile_allocated mg lbs links machine_ports allocated =
      let (link_ports, link_errors) = assign_ports_to_links links machine_ports allocated in
      let resolved = build_resolved_links env.sha256_hex links link_ports in
      do
        manager ← lift (cloud_manager_for env mg)
        ensured ←
            call (λ h. ok (manager.ensure_machine_group h mg machine_ports allocated))
              (ensure_group mg machine_ports allocated)
        written ← read (next_status mg allocated resolved ensured link_errors)
        patch env (patch_group_status written.0 written.1)
        sync_port_statuses env (next_port env.helpers lbs allocated ensured.by_uid ensured.error)
            machine_ports
        sync_link_statuses env links link_ports link_errors
            "no allocated TiProxyMachinePort is available for this link"
        pure (outcome_of ensured.error link_errors)

  -- Reconcile from the lists on.
  unfoldable pub reconcile_listed :
      MachineGroup → List LoadBalancerExposureSpec → List Link → List MachinePort → Exec Outcome
  reconcile_listed mg lbs links machine_ports =
      if ltb max_machine_ports (length machine_ports)
      then report_failure mg links machine_ports "TooManyMachinePorts"
          (too_many_text (length machine_ports)) (too_many_text (length machine_ports)) 20
      else elim (reconcile_ports mg.status.allocated_ports (port_requests machine_ports)
          mg.spec.port_range.start mg.spec.port_range.end) [
            | err e ↦
                let msg = port_error_text e in
                report_failure mg links machine_ports "PortAllocationFailed" msg
                  (concat ("port allocation failed: " ∷ msg ∷ [])) 10
            | ok allocated ↦ reconcile_allocated mg lbs links machine_ports allocated
          ]

  -- Reconcile from the load balancers on.
  unfoldable pub reconcile_valid :
      MachineGroup → Result ExposureError (List LoadBalancerExposureSpec) → Exec Outcome
  reconcile_valid mg (err e) = mark_error env mg "InvalidExposure" (exposure_error_text e) 15
  reconcile_valid mg (ok lbs) = do
    links ← list_links_of env mg
    machine_ports ← list_ports_of env mg
    reconcile_listed mg lbs links machine_ports

  -- Reconcile for a group that is not being deleted.
  unfoldable pub reconcile_group : MachineGroup → Exec Outcome
  reconcile_group mg =
      if not (env.helpers.contains_finalizer mg.meta.finalizers finalizer)
      then patch env (
          patch_group (with_finalizers mg (env.helpers.add_finalizer mg.meta.finalizers finalizer))
            mg)
        >> pure requeue
      else elim (validate mg.spec.port_range) [
        | some msg ↦ mark_error env mg "InvalidPortRange" msg 15
        | none ↦ reconcile_valid mg (normalize_load_balancers mg.spec.exposure)
      ]

  -- The test of the deletion timestamp.
  unfoldable pub reconcile_by : Time → MachineGroup → Exec Outcome
  reconcile_by (some t) mg = reconcile_delete env mg
  reconcile_by none mg = reconcile_group mg

  unfoldable pub reconcile_found : MachineGroup → Exec Outcome
  reconcile_found mg = reconcile_by mg.meta.deletion_timestamp mg

  -- client.IgnoreNotFound, where the Get fails.
  unfoldable pub ignore_not_found : ApiError → Exec Outcome
  ignore_not_found (not_found e) = pure done
  ignore_not_found (conflict e) = lift (err (conflict e))
  ignore_not_found (api_failure e) = lift (err (api_failure e))

  -- Reconcile: what follows the Get.
  unfoldable pub reconcile_answer : Result ApiError MachineGroup → Exec Outcome
  reconcile_answer (ok mg) = reconcile_found mg
  reconcile_answer (err e) = ignore_not_found e

  -- Reconcile
  unfoldable pub reconcile : NamespacedName → Exec Outcome
  reconcile key = do
    answer ← call (λ h. ok (env.answer_get h key)) (get_group key)
    reconcile_answer answer
