-- ===== src/Controller/Provision.antt =====
-- What the cloud manager is asked for, in any sequence of passes of Reconcile.
use tiproxy_machine_operator.Allocator.Safety.{reconcile_ports-InRange, reconcile_ports-injective}
use tiproxy_machine_operator.Api.{MachineGroup, MachinePort}
use tiproxy_machine_operator.Controller.Exec.{Call, Environment, History, ensure_group}
use tiproxy_machine_operator.Controller.Group.{port_requests}
use tiproxy_machine_operator.Controller.Sound.{Provisioned, Reachable, Reachable-Sound, Sound}
use tiproxy_machine_operator.Prelude.{
  All, List, String, [], inl, inr, int_eq, max_int32, some, string_eq, ℤ, ◌<ℤ◌, ◌∷◌, ◌≡◌, ◌≤ℤ◌, ◌⊎◌,
}
use tiproxy_machine_operator.Prelude.Assoc.{Map, get}

-- That a call was made.
abbrev pub Made : Call → History → Type 0
Made c [] = ⊥
Made c (d ∷ h) = (c ≡ d) ⊎ Made c h

All-Made : (P : Call → Type 0) (h : History) (c : Call) → All P h → Made c h → P c
All-Made P [] c all made = absurd made
All-Made P (d ∷ h) c all (inl e) = rw e (all.0)
All-Made P (d ∷ h) c all (inr made) = All-Made P h c all.1 made

module _ (env : Environment) (h : History) (reachable : Reachable env h) (mg : MachineGroup)
    (machine_ports : List MachinePort) (allocated : Map String ℤ)
    (made : Made (ensure_group mg machine_ports allocated) h) where
  provisioned : Provisioned env mg machine_ports allocated
  provisioned =
      All-Made (Sound env) h (ensure_group mg machine_ports allocated)
        (Reachable-Sound env h reachable) made

  -- In any sequence of passes, if the group's range ends below the largest int32, every port that
  -- the cloud manager is given lies in the range.
  pub ensure_group-InRange :
      mg.spec.port_range.end <ℤ max_int32
      → (u : String) (p : ℤ) → get u allocated ≡ some p
      → (mg.spec.port_range.start ≤ℤ p) × (p ≤ℤ mg.spec.port_range.end)
  ensure_group-InRange below u p e =
      reconcile_ports-InRange mg.status.allocated_ports (port_requests machine_ports)
        mg.spec.port_range.start mg.spec.port_range.end allocated below provisioned.granted u p e

  -- In any sequence of passes, if the group's range ends below the largest int32, the cloud manager
  -- is never given one port for two machine ports.
  pub ensure_group-distinct :
      mg.spec.port_range.end <ℤ max_int32
      → (u v : String) (p : ℤ) → get u allocated ≡ some p
      → get v allocated ≡ some p
      → u ≡ v
  ensure_group-distinct below u v p e e' =
      reconcile_ports-injective mg.status.allocated_ports (port_requests machine_ports)
        mg.spec.port_range.start mg.spec.port_range.end allocated below provisioned.granted u v p e
        e'
