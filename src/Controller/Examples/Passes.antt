-- ===== src/Controller/Examples/Passes.antt =====
-- The properties of the passes of Reconcile at concrete groups.
use tiproxy_machine_operator.Controller.Prune.{is_stale, time_sub}
use tiproxy_machine_operator.Controller.Prune.Patches.{
  LeavesMachines, reconcile_allocated-LeavesMachines, unstale,
}
use tiproxy_machine_operator.Controller.Group.{reconcile_allocated}
use tiproxy_machine_operator.Controller.Examples.{
  allocated_example, ensures, environment_of, first_pass, group_key, heard, live_group, two_links,
  two_ports,
}
use tiproxy_machine_operator.Prelude.{
  All, String, [], arith, int_eq, pos, refl, some, string_eq, ◌-ℤ◌, ◌∷◌, ◌≡◌, ◌≤ℤ◌,
}
use tiproxy_machine_operator.Controller.Provision.{ensure_group-InRange, ensure_group-distinct}
use tiproxy_machine_operator.Controller.Sound.{Reachable, Reachable-Sound, Sound, no_pass, one_more}
use tiproxy_machine_operator.Prelude.Assoc.{get}

pass_example : Reachable (environment_of live_group) first_pass
pass_example = one_more [] group_key no_pass

Reachable-Sound_example : All (Sound (environment_of live_group)) first_pass
Reachable-Sound_example = Reachable-Sound (environment_of live_group) first_pass pass_example

ensure_group-InRange_example : (pos 4000 ≤ℤ pos 4007) × (pos 4007 ≤ℤ pos 4010)
unfolding get
ensure_group-InRange_example =
    ensure_group-InRange (environment_of live_group) first_pass pass_example live_group two_ports
      allocated_example ensures (omega arith) "port-a" (pos 4007) refl

ensure_group-distinct_example : Path String "port-b" "port-b"
unfolding get
ensure_group-distinct_example =
    ensure_group-distinct (environment_of live_group) first_pass pass_example live_group two_ports
      allocated_example ensures (omega arith) "port-b" "port-b" (pos 4000) refl refl

-- The second machine of the group is stale.
one_stale :
    unstale (pos 20) (pos 100) live_group.status.machines ≡ ("i-1", heard (some (pos 90))) ∷ []
unfolding is_stale time_sub ◌-ℤ◌
one_stale = refl

reconcile_allocated-LeavesMachines_example :
    All (LeavesMachines (environment_of live_group) live_group) (
      (reconcile_allocated
        (environment_of live_group)
        live_group
        []
        two_links
        two_ports
        allocated_example
        []).1)
reconcile_allocated-LeavesMachines_example =
    reconcile_allocated-LeavesMachines (environment_of live_group) live_group [] two_links two_ports
      allocated_example refl
