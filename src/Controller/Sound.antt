-- ===== src/Controller/Sound.antt =====
-- What is true of the calls of any sequence of passes of Reconcile.
use tiproxy_machine_operator.Allocator.{reconcile_ports}
use tiproxy_machine_operator.Api.{
  Link, LoadBalancerExposureSpec, MachineGroup, MachinePort, MachinePortCloudStatus,
  ResolvedLinkStatus, validate,
}
use tiproxy_machine_operator.Cloud.{Ensured}
use tiproxy_machine_operator.Controller.Exec.{
  Call, Environment, History, delete_group, ensure_group, get_group, list_links, list_ports,
  patch_group, patch_group_status, patch_link_status, patch_port_status,
}
use tiproxy_machine_operator.Controller.Group.{
  ignore_not_found, next_status, port_requests, reconcile, reconcile_allocated, reconcile_answer,
  reconcile_by, reconcile_found, reconcile_group, reconcile_listed, reconcile_valid, report_failure,
}
use tiproxy_machine_operator.Controller.PortStatus.{failed_port, next_link, next_port, port_with}
use tiproxy_machine_operator.Controller.Reconcile.{
  cloud_manager_for, finalizer, list_links_of, list_ports_of, mark_error, max_machine_ports,
  reconcile_delete, requeue_after, sync_allocation_failure, sync_link_statuses, sync_port_statuses,
  with_finalizers, with_ready,
}
use tiproxy_machine_operator.Effects.Keeps.{
  Keeps, bind-Keeps, call-Keeps, lift-Keeps, read-Keeps, then-Keeps,
}
use tiproxy_machine_operator.Exposure.{ExposureError}
use tiproxy_machine_operator.Kube.{
  ApiError, Helpers, NamespacedName, Time, api_failure, conflict, not_found,
}
use tiproxy_machine_operator.Prelude.{
  All, Bool-cases, List, Option, Option-cases, Result, Result-cases, String, [], err, false, inl,
  inr, int_eq, is_some, length, ltb, none, ok, refl, some, string_eq, true, ℕ, ℤ, ◌∷◌, ◌≡◌,
}
use tiproxy_machine_operator.Prelude.Assoc.{Map, get}

-- What a call of EnsureMachineGroup is made for.
pub record Provisioned (env : Environment) (mg : MachineGroup) (machine_ports : List MachinePort)
    (allocated : Map String ℤ) : Type 0 where
  pub live : mg.meta.deletion_timestamp ≡ none
  pub finalized : env.helpers.contains_finalizer mg.meta.finalizers finalizer ≡ true
  pub valid : validate mg.spec.port_range ≡ none
  pub few : ltb max_machine_ports (length machine_ports) ≡ false
  pub granted :
      reconcile_ports mg.status.allocated_ports
        (port_requests machine_ports)
        mg.spec.port_range.start
        mg.spec.port_range.end
      ≡ ok allocated

-- What each call may do.
abbrev pub Sound : Environment → Call → Type 0
Sound env (get_group key) = Unit
Sound env (list_links namespace selector) = Unit
Sound env (list_ports namespace) = Unit
Sound env (patch_group new base) = new ≡ with_finalizers base new.meta.finalizers
Sound env (patch_group_status new base) =
    (new.meta ≡ base.meta) × (new.spec ≡ base.spec) × (new.status.machines ≡ base.status.machines)
Sound env (patch_port_status new base) = (new.meta ≡ base.meta) × (new.spec ≡ base.spec)
Sound env (patch_link_status new base) = (new.meta ≡ base.meta) × (new.spec ≡ base.spec)
Sound env (ensure_group mg machine_ports allocated) = Provisioned env mg machine_ports allocated
Sound env (delete_group mg) =
    (is_some mg.meta.deletion_timestamp ≡ true)
    × (env.helpers.contains_finalizer mg.meta.finalizers finalizer ≡ true)

-- The histories of any number of passes, for any groups.
pub data Reachable (env : Environment) : History → Type 0 where
  no_pass : Reachable env []
  one_more :
      (h : History) (key : NamespacedName)
      → Reachable env h
      → Reachable env ((reconcile env key h).1)

port_with-meta :
    (h : Helpers) (n : Option ℤ) (lbs : List LoadBalancerExposureSpec)
    (cloud : Map String MachinePortCloudStatus) (e : Option ApiError) (now : ℤ) (m : MachinePort)
    → ((port_with h n lbs cloud e now m).meta ≡ m.meta)
      × ((port_with h n lbs cloud e now m).spec ≡ m.spec)
unfolding port_with
port_with-meta h none lbs cloud e now m = (refl, refl)
port_with-meta h (some p) lbs cloud e now m = (refl, refl)

next_port-meta :
    (h : Helpers) (lbs : List LoadBalancerExposureSpec) (allocated : Map String ℤ)
    (cloud : Map String MachinePortCloudStatus) (e : Option ApiError) (now : ℤ) (m : MachinePort)
    → ((next_port h lbs allocated cloud e now m).meta ≡ m.meta)
      × ((next_port h lbs allocated cloud e now m).spec ≡ m.spec)
unfolding next_port
next_port-meta h lbs allocated cloud e now m =
    port_with-meta h (get m.meta.uid allocated) lbs cloud e now m

next_link-meta :
    (h : Helpers) (assigned : Map String ℤ) (errors : Map String String) (msg : String) (now : ℤ)
    (l : Link)
    → ((next_link h assigned errors msg now l).meta ≡ l.meta)
      × ((next_link h assigned errors msg now l).spec ≡ l.spec)
unfolding next_link
next_link-meta h assigned errors msg now l = elim (Option-cases (get l.meta.uid assigned)) [
  | inl n ↦ rw (next_link, n) (refl, refl)
  | inr (p, s) ↦ rw (next_link, s) (refl, refl)
]

module _ (env : Environment) where
  sync_port_statuses-Sound :
      (next : ℤ → MachinePort → MachinePort)
      → ((now : ℤ) (m : MachinePort) → ((next now m).meta ≡ m.meta) × ((next now m).spec ≡ m.spec))
      → (ms : List MachinePort) → Keeps (Sound env) (sync_port_statuses env next ms)
  unfolding sync_port_statuses
  sync_port_statuses-Sound next same [] = lift-Keeps (ok tt)
  sync_port_statuses-Sound next same (m ∷ ms) = read-Keeps _ (λ h.
      then-Keeps (call-Keeps _ _ (same (env.now h) m)) (sync_port_statuses-Sound next same ms))

  sync_link_statuses-Sound :
      (ls : List Link) (assigned : Map String ℤ) (errors : Map String String) (msg : String)
      → Keeps (Sound env) (sync_link_statuses env ls assigned errors msg)
  unfolding sync_link_statuses
  sync_link_statuses-Sound [] assigned errors msg = lift-Keeps (ok tt)
  sync_link_statuses-Sound (l ∷ ls) assigned errors msg = read-Keeps _ (λ h.
      then-Keeps (call-Keeps _ _ (next_link-meta env.helpers assigned errors msg (env.now h) l))
        (sync_link_statuses-Sound ls assigned errors msg))

  mark_error-Sound :
      (mg : MachineGroup) (reason msg : String) (seconds : ℕ)
      → Keeps (Sound env) (mark_error env mg reason msg seconds)
  unfolding mark_error with_ready
  mark_error-Sound mg reason msg seconds = read-Keeps _ (λ h.
      then-Keeps (call-Keeps _ _ (refl, refl, refl)) (lift-Keeps (ok (requeue_after seconds))))

  report_failure-Sound :
      (mg : MachineGroup) (links : List Link) (ms : List MachinePort) (reason msg link_msg : String)
      (seconds : ℕ)
      → Keeps (Sound env) (report_failure env mg links ms reason msg link_msg seconds)
  unfolding report_failure sync_allocation_failure failed_port
  report_failure-Sound mg links ms reason msg link_msg seconds =
      then-Keeps (sync_port_statuses-Sound (failed_port env.helpers msg) (λ now m. (refl, refl)) ms)
        (then-Keeps (sync_link_statuses-Sound links [] [] link_msg)
          (mark_error-Sound mg reason msg seconds))

  next_status-same :
      (mg : MachineGroup) (allocated : Map String ℤ) (resolved : List ResolvedLinkStatus)
      (ensured : Ensured) (link_errors : Map String String) (h : History)
      → let written = next_status env mg allocated resolved ensured link_errors h in
        (written.0.meta ≡ written.1.meta)
        × (written.0.spec ≡ written.1.spec)
        × (written.0.status.machines ≡ written.1.status.machines)
  unfolding next_status with_ready
  next_status-same mg allocated resolved ensured link_errors h = (refl, refl, refl)

  reconcile_allocated-Sound :
      (mg : MachineGroup) (lbs : List LoadBalancerExposureSpec) (links : List Link)
      (ms : List MachinePort) (allocated : Map String ℤ)
      → Provisioned env mg ms allocated
      → Keeps (Sound env) (reconcile_allocated env mg lbs links ms allocated)
  unfolding reconcile_allocated
  reconcile_allocated-Sound mg lbs links ms allocated provisioned =
      bind-Keeps (lift-Keeps (cloud_manager_for env mg)) (λ manager.
        bind-Keeps (call-Keeps _ _ provisioned) (λ ensured. read-Keeps _ (λ h.
          then-Keeps (call-Keeps _ _ (next_status-same mg allocated _ ensured _ h)) (
            then-Keeps
              (sync_port_statuses-Sound _
                (next_port-meta env.helpers lbs allocated ensured.by_uid ensured.error) ms)
              (then-Keeps (sync_link_statuses-Sound links _ _ _) (lift-Keeps (ok _)))))))

  reconcile_listed-Sound :
      (mg : MachineGroup) (lbs : List LoadBalancerExposureSpec) (links : List Link)
      (ms : List MachinePort)
      → mg.meta.deletion_timestamp ≡ none
      → env.helpers.contains_finalizer mg.meta.finalizers finalizer ≡ true
      → validate mg.spec.port_range ≡ none
      → Keeps (Sound env) (reconcile_listed env mg lbs links ms)
  unfolding reconcile_listed
  reconcile_listed-Sound mg lbs links ms live finalized valid =
      elim (Bool-cases (ltb max_machine_ports (length ms))) [
        | inl many ↦ rw many (report_failure-Sound mg links ms "TooManyMachinePorts" _ _ 20)
        | inr few ↦
            rw few
              (elim (Result-cases (
                reconcile_ports mg.status.allocated_ports (port_requests ms)
                  mg.spec.port_range.start mg.spec.port_range.end)) [
                    | inl (allocated, e) ↦ rw e (
                        reconcile_allocated-Sound mg lbs links ms allocated (record {
                          live = live;
                          finalized = finalized;
                          valid = valid;
                          few = few;
                          granted = e;
                        }))
                    | inr (e, h) ↦
                        rw h (report_failure-Sound mg links ms "PortAllocationFailed" _ _ 10)
                  ])
      ]

  reconcile_valid-Sound :
      (mg : MachineGroup)
      → mg.meta.deletion_timestamp ≡ none
      → env.helpers.contains_finalizer mg.meta.finalizers finalizer ≡ true
      → validate mg.spec.port_range ≡ none
      → (r : Result ExposureError (List LoadBalancerExposureSpec))
      → Keeps (Sound env) (reconcile_valid env mg r)
  unfolding reconcile_valid list_links_of list_ports_of
  reconcile_valid-Sound mg live finalized valid (err e) = mark_error-Sound mg "InvalidExposure" _ 15
  reconcile_valid-Sound mg live finalized valid (ok lbs) =
      bind-Keeps
        (then-Keeps (lift-Keeps _) (bind-Keeps (call-Keeps _ _ tt) (λ items. lift-Keeps _)))
        (λ links.
          bind-Keeps (bind-Keeps (call-Keeps _ _ tt) (λ items. lift-Keeps _))
            (λ ms. reconcile_listed-Sound mg lbs links ms live finalized valid))

  reconcile_group-Sound :
      (mg : MachineGroup)
      → mg.meta.deletion_timestamp ≡ none
      → Keeps (Sound env) (reconcile_group env mg)
  unfolding reconcile_group
  reconcile_group-Sound mg live =
      elim (Bool-cases (env.helpers.contains_finalizer mg.meta.finalizers finalizer)) [
        | inr absent ↦ rw absent (then-Keeps (call-Keeps _ _ refl) (lift-Keeps _))
        | inl there ↦ rw there (elim (Option-cases (validate mg.spec.port_range)) [
          | inl valid ↦ rw valid (reconcile_valid-Sound mg live there valid _)
          | inr (msg, e) ↦ rw e (mark_error-Sound mg "InvalidPortRange" msg 15)
        ])
      ]

  reconcile_delete-Sound :
      (mg : MachineGroup)
      → is_some mg.meta.deletion_timestamp ≡ true
      → Keeps (Sound env) (reconcile_delete env mg)
  unfolding reconcile_delete
  reconcile_delete-Sound mg deleted =
      elim (Bool-cases (env.helpers.contains_finalizer mg.meta.finalizers finalizer)) [
        | inr absent ↦ rw absent (lift-Keeps _)
        | inl there ↦ rw there (
            bind-Keeps (lift-Keeps _) (λ manager.
              then-Keeps (call-Keeps _ _ (deleted, there))
                (then-Keeps (call-Keeps _ _ refl) (lift-Keeps _))))
      ]

  reconcile_by-Sound :
      (t : Time) (mg : MachineGroup)
      → mg.meta.deletion_timestamp ≡ t
      → Keeps (Sound env) (reconcile_by env t mg)
  unfolding reconcile_by
  reconcile_by-Sound (some t) mg e = reconcile_delete-Sound mg (rw e refl)
  reconcile_by-Sound none mg e = reconcile_group-Sound mg e

  reconcile-Sound : (key : NamespacedName) → Keeps (Sound env) (reconcile env key)
  unfolding reconcile reconcile_found reconcile_answer ignore_not_found
  reconcile-Sound key = bind-Keeps (call-Keeps _ _ tt) answered
    where
      answered : (a : Result ApiError MachineGroup) → Keeps (Sound env) (reconcile_answer env a)
      answered (ok mg) = reconcile_by-Sound _ mg refl
      answered (err (not_found e)) = lift-Keeps _
      answered (err (conflict e)) = lift-Keeps _
      answered (err (api_failure e)) = lift-Keeps _

  -- In any sequence of passes of Reconcile, over whatever answers, every call is Sound: the cloud is
  -- set up only for a group that is not being deleted and has the finalizer, a valid range, at most
  -- fifty machine ports and the ports that ReconcilePorts returned; the cloud's machines are deleted
  -- only for a group that is being deleted and has the finalizer; a patch of a group changes only
  -- its finalizers; a patch of a status changes no metadata and no spec, and no group's machines.
  pub Reachable-Sound : (h : History) → Reachable env h → All (Sound env) h
  Reachable-Sound h no_pass = tt
  Reachable-Sound h (one_more before key r) =
      (reconcile-Sound key).kept before (Reachable-Sound before r)
