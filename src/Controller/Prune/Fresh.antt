-- ===== src/Controller/Prune/Fresh.antt =====
-- What pruneStaleMachineStatuses keeps and drops.
use tiproxy_machine_operator.Api.{MachineGroup, MachineStatus}
use tiproxy_machine_operator.Controller.Prune.{is_stale, prune_all, prune_stale}
use tiproxy_machine_operator.Prelude.{
  All, Bool-cases, List, String, [], arith, eqb_iff, false, inl, inr, int_eq, length, lez, nat_eq,
  pos, refl, some, string_eq, true, ℤ, ◌+◌, ◌==◌, ◌∷◌, ◌≡◌,
}
use tiproxy_machine_operator.Prelude.Assoc.{Map, get}

prune_all-count :
    (stale_after now : ℤ) (ms : Map String MachineStatus)
    → length (prune_all stale_after now ms).0 + (prune_all stale_after now ms).1 ≡ length ms
unfolding prune_all
prune_all-count stale_after now [] = refl
prune_all-count stale_after now ((id, s) ∷ ms) = elim (Bool-cases (is_stale stale_after now s)) [
  | inl stale ↦ rw stale (omega (arith, prune_all-count stale_after now ms))
  | inr fresh ↦ rw fresh (omega (arith, prune_all-count stale_after now ms))
]

prune_all-fresh :
    (stale_after now : ℤ) (ms : Map String MachineStatus)
    → All (λ e. is_stale stale_after now (e.1) ≡ false) (prune_all stale_after now ms).0
unfolding prune_all
prune_all-fresh stale_after now [] = tt
prune_all-fresh stale_after now ((id, s) ∷ ms) = elim (Bool-cases (is_stale stale_after now s)) [
  | inl stale ↦ rw stale (prune_all-fresh stale_after now ms)
  | inr fresh ↦ rw fresh (fresh, prune_all-fresh stale_after now ms)
]

prune_all-get :
    (stale_after now : ℤ) (ms : Map String MachineStatus) (id : String) (s : MachineStatus)
    → get id ms ≡ some s
    → is_stale stale_after now s ≡ false
    → get id (prune_all stale_after now ms).0 ≡ some s
unfolding prune_all get
prune_all-get stale_after now [] id s e fresh = absurd (cc)
prune_all-get stale_after now ((k, t) ∷ ms) id s e fresh =
    elim (Bool-cases (is_stale stale_after now t)) [
      | inl stale ↦ rw stale (prune_all-get stale_after now ms id s (grind arith) fresh)
      | inr kept ↦ rw kept (grind (arith, prune_all-get stale_after now ms id s))
    ]

All-empty {ℓ κ} : {A : Type ℓ} (P : A → Type κ) (xs : List A) → (length xs == 0) ≡ true → All P xs
All-empty P [] empty = tt
All-empty P (x ∷ xs) empty = absurd (ground (arith, eqb_iff (length (x ∷ xs)) 0))

module _ (stale_after now : ℤ) (mg : MachineGroup) where
  -- The machines that pruneStaleMachineStatuses leaves and the ones it counts as removed are
  -- together those that the group had.
  pub prune_stale-count :
      length (prune_stale stale_after mg now).0.status.machines + (prune_stale stale_after mg now).1
      ≡ length mg.status.machines
  unfolding prune_stale
  prune_stale-count = elim (Bool-cases (length mg.status.machines == 0)) [
    | inl empty ↦ rw empty (omega arith)
    | inr some_there ↦ rw some_there (elim (Bool-cases (lez stale_after (pos 0))) [
      | inl disabled ↦ rw disabled (omega arith)
      | inr enabled ↦ rw enabled (prune_all-count stale_after now mg.status.machines)
    ])
  ]

  -- With a positive limit, pruneStaleMachineStatuses leaves no stale machine.
  pub prune_stale-fresh :
      lez stale_after (pos 0) ≡ false
      → All
          (λ e. is_stale stale_after now (e.1) ≡ false)
          (prune_stale stale_after mg now).0.status.machines
  unfolding prune_stale
  prune_stale-fresh enabled = elim (Bool-cases (length mg.status.machines == 0)) [
    | inl empty ↦
        rw empty (All-empty (λ e. is_stale stale_after now (e.1) ≡ false) mg.status.machines empty)
    | inr some_there ↦ rw (some_there, enabled) (prune_all-fresh stale_after now mg.status.machines)
  ]

  -- pruneStaleMachineStatuses keeps every machine that is not stale, whatever the limit.
  pub prune_stale-get :
      (id : String) (s : MachineStatus)
      → get id mg.status.machines ≡ some s
      → is_stale stale_after now s ≡ false
      → get id (prune_stale stale_after mg now).0.status.machines ≡ some s
  unfolding prune_stale
  prune_stale-get id s e fresh = elim (Bool-cases (length mg.status.machines == 0)) [
    | inl empty ↦ rw empty e
    | inr some_there ↦ rw some_there (elim (Bool-cases (lez stale_after (pos 0))) [
      | inl disabled ↦ rw disabled e
      | inr enabled ↦ rw enabled (prune_all-get stale_after now mg.status.machines id s e fresh)
    ])
  ]
