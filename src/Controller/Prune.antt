-- ===== src/Controller/Prune.antt =====
-- pruneStaleMachineStatuses
pub mod Fresh
pub mod Patches
use tiproxy_machine_operator.Api.{MachineGroup, MachineStatus}
use tiproxy_machine_operator.Prelude.{
  Bool, String, [], if◌then◌else◌, int_eq, length, lez, ltz, max_int64, min_int64, nat_eq, none,
  pos, some, string_eq, true, ℕ, ℤ, ◌+◌, ◌-ℤ◌, ◌==◌, ◌∷◌,
}
use tiproxy_machine_operator.Prelude.Assoc.{Map}

-- Time.Sub saturates at the ends of int64.
unfoldable pub time_sub : ℤ → ℤ → ℤ
time_sub a b =
    let d = a -ℤ b in
    if ltz max_int64 d then max_int64 else if ltz d min_int64 then min_int64 else d

unfoldable pub is_stale : ℤ → ℤ → MachineStatus → Bool
is_stale stale_after now s = elim s.last_heartbeat_time [
  | none ↦ true
  | some t ↦ ltz stale_after (time_sub now t)
]

-- The loop: what it leaves, and how many entries it deletes.
unfoldable pub prune_all : ℤ → ℤ → Map String MachineStatus → Map String MachineStatus × ℕ
prune_all stale_after now [] = ([], 0)
prune_all stale_after now ((id, s) ∷ rest) =
    let (kept, removed) = prune_all stale_after now rest in
    if is_stale stale_after now s then (kept, removed + 1) else ((id, s) ∷ kept, removed)

-- pruneStaleMachineStatuses: the group that is left in memory, and the count.
unfoldable pub prune_stale : ℤ → MachineGroup → ℤ → MachineGroup × ℕ
prune_stale stale_after mg now =
    if length mg.status.machines == 0
    then (mg, 0)
    else if lez stale_after (pos 0)
    then (mg, 0)
    else let (kept, removed) = prune_all stale_after now mg.status.machines in
      (record mg { status = record mg.status { machines = kept } }, removed)
