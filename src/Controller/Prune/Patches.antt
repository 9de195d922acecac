-- ===== src/Controller/Prune/Patches.antt =====
-- What the patch of a group's status does about the machines that were pruned.
use tiproxy_machine_operator.Api.{
  Link, LoadBalancerExposureSpec, MachineGroup, MachinePort, MachineStatus, ResolvedLinkStatus,
}
use tiproxy_machine_operator.Cloud.{Ensured}
use tiproxy_machine_operator.Controller.Exec.{Call, Environment, History, patch_group_status}
use tiproxy_machine_operator.Controller.Group.{next_status, reconcile_allocated}
use tiproxy_machine_operator.Controller.Prune.{is_stale, prune_all, prune_stale}
use tiproxy_machine_operator.Controller.Reconcile.{
  cloud_manager_for, sync_link_statuses, sync_port_statuses, with_ready,
}
use tiproxy_machine_operator.Effects.Keeps.{
  Keeps, bind-Keeps, call-Keeps, lift-Keeps, read-Keeps, then-Keeps,
}
use tiproxy_machine_operator.Prelude.{
  All, Bool-cases, List, String, [], ap, arith, eqb_iff, false, filter_by, inl, inr, int_eq, length,
  lez, nat_eq, not, ok, pos, refl, string_eq, true, ℤ, ◌==◌, ◌∷◌, ◌≡◌,
}
use tiproxy_machine_operator.Prelude.Assoc.{Map}

-- The machines that are not stale.
abbrev pub unstale : ℤ → ℤ → Map String MachineStatus → Map String MachineStatus
unstale stale_after now ms = filter_by (λ e. not (is_stale stale_after now e.1)) ms

prune_all-unstale :
    (stale_after now : ℤ) (ms : Map String MachineStatus)
    → (prune_all stale_after now ms).0 ≡ unstale stale_after now ms
unfolding prune_all
prune_all-unstale stale_after now [] = refl
prune_all-unstale stale_after now ((id, s) ∷ ms) = elim (Bool-cases (is_stale stale_after now s)) [
  | inl stale ↦ rw stale (prune_all-unstale stale_after now ms)
  | inr fresh ↦ rw fresh (ap (λ rest. (id, s) ∷ rest) (prune_all-unstale stale_after now ms))
]

unstale-empty :
    (stale_after now : ℤ) (ms : Map String MachineStatus)
    → (length ms == 0) ≡ true
    → ms ≡ unstale stale_after now ms
unstale-empty stale_after now [] empty = refl
unstale-empty stale_after now (e ∷ ms) empty = absurd (ground (arith, eqb_iff (length (e ∷ ms)) 0))

prune_stale-unstale :
    (stale_after now : ℤ) (mg : MachineGroup)
    → lez stale_after (pos 0) ≡ false
    → (prune_stale stale_after mg now).0.status.machines
      ≡ unstale stale_after now mg.status.machines
unfolding prune_stale
prune_stale-unstale stale_after now mg enabled =
    elim (Bool-cases (length mg.status.machines == 0)) [
      | inl empty ↦ rw empty (unstale-empty stale_after now mg.status.machines empty)
      | inr some_there ↦
          rw (some_there, enabled) (prune_all-unstale stale_after now mg.status.machines)
    ]

-- A status patch of a group of which both the object and the base have just the machines of the group
-- that were not stale at a time that the clock showed: the merge patch, which is made of their
-- differences, has no machine in it.
abbrev pub LeavesMachines : Environment → MachineGroup → Call → Type 0
LeavesMachines env mg (patch_group_status new base) =
    (h : History) × (new.status.machines
      ≡ unstale env.machine_status_stale_after (env.now h) mg.status.machines)
    × (base.status.machines ≡ unstale env.machine_status_stale_after (env.now h) mg.status.machines)
LeavesMachines env mg _ = Unit {0}

module _ (env : Environment) (mg : MachineGroup) where
  abbrev Leaves : Call → Type 0
  Leaves = LeavesMachines env mg

  sync_port_statuses-Leaves :
      (next : ℤ → MachinePort → MachinePort) (ms : List MachinePort)
      → Keeps Leaves (sync_port_statuses env next ms)
  unfolding sync_port_statuses
  sync_port_statuses-Leaves next [] = lift-Keeps (ok tt)
  sync_port_statuses-Leaves next (m ∷ ms) =
      read-Keeps _ (λ h. then-Keeps (call-Keeps _ _ tt) (sync_port_statuses-Leaves next ms))

  sync_link_statuses-Leaves :
      (ls : List Link) (assigned : Map String ℤ) (errors : Map String String) (msg : String)
      → Keeps Leaves (sync_link_statuses env ls assigned errors msg)
  unfolding sync_link_statuses
  sync_link_statuses-Leaves [] assigned errors msg = lift-Keeps (ok tt)
  sync_link_statuses-Leaves (l ∷ ls) assigned errors msg =
      read-Keeps _
        (λ h. then-Keeps (call-Keeps _ _ tt) (sync_link_statuses-Leaves ls assigned errors msg))

  next_status-Leaves :
      (allocated : Map String ℤ) (resolved : List ResolvedLinkStatus) (ensured : Ensured)
      (link_errors : Map String String) (h : History)
      → lez env.machine_status_stale_after (pos 0) ≡ false
      → let written = next_status env mg allocated resolved ensured link_errors h in
        Leaves (patch_group_status written.0 written.1)
  unfolding next_status with_ready
  next_status-Leaves allocated resolved ensured link_errors h enabled =
      let kept = prune_stale-unstale env.machine_status_stale_after (env.now h) mg enabled in
      (h, kept, kept)

  -- With a positive limit of staleness, in each status patch of a group that a pass sends once the
  -- ports are allocated, the object and the base both have exactly those machines of the group that
  -- are not stale at a time that the clock showed. The stale ones are missing in both, so that the
  -- patch, which is made of their differences, does not remove them from the server.
  pub reconcile_allocated-LeavesMachines :
      (lbs : List LoadBalancerExposureSpec) (links : List Link) (ms : List MachinePort)
      (allocated : Map String ℤ)
      → lez env.machine_status_stale_after (pos 0) ≡ false
      → All (LeavesMachines env mg) ((reconcile_allocated env mg lbs links ms allocated []).1)
  unfolding reconcile_allocated
  reconcile_allocated-LeavesMachines lbs links ms allocated enabled = keeps.kept [] tt
    where
      keeps : Keeps Leaves (reconcile_allocated env mg lbs links ms allocated)
      keeps = bind-Keeps (lift-Keeps (cloud_manager_for env mg)) (λ manager.
          bind-Keeps (call-Keeps _ _ tt) (λ ensured. read-Keeps _ (λ h.
            then-Keeps (call-Keeps _ _ (next_status-Leaves allocated _ ensured _ h enabled)) (
              then-Keeps (sync_port_statuses-Leaves _ ms)
                (then-Keeps (sync_link_statuses-Leaves links _ _ _) (lift-Keeps (ok _)))))))
