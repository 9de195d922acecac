-- ===== src/Controller/Undone.antt =====
-- What a pass that fails to delete a group leaves behind.
use tiproxy_machine_operator.Api.{MachineGroup}
use tiproxy_machine_operator.Cloud.{Manager}
use tiproxy_machine_operator.Controller.Delete.{released}
use tiproxy_machine_operator.Controller.Exec.{Call, Environment, History, delete_group, get_group}
use tiproxy_machine_operator.Controller.Group.{
  reconcile, reconcile_answer, reconcile_by, reconcile_found,
}
use tiproxy_machine_operator.Controller.Reconcile.{cloud_manager_for, finalizer, reconcile_delete}
use tiproxy_machine_operator.Effects.{call, continue, lift, ◌>>=◌, ◌>>◌}
use tiproxy_machine_operator.Effects.Hoare.{Anything, Post}
use tiproxy_machine_operator.Kube.{ApiError, NamespacedName}
use tiproxy_machine_operator.Prelude.{
  Bool-cases, Option-cases, Result-cases, err, inl, inr, none, ok, refl, some, subst, sym, ℤ, ◌∙◌,
  ◌∷◌, ◌≡◌,
}

-- Why the deletion of a group failed with that error, and the calls up to there: there is no manager
-- for it, or the cloud could not delete the machines, or the finalizer could not be removed after
-- they were deleted.
pub data Undone (env : Environment) (mg : MachineGroup) (h : History) (e : ApiError)
    : History → Type 0 where
  no_manager : cloud_manager_for env mg ≡ err e → Undone env mg h e h
  not_deleted :
      (manager : Manager Call)
      → cloud_manager_for env mg ≡ ok manager
      → manager.delete_machine_group h mg ≡ some e
      → Undone env mg h e (delete_group mg ∷ h)
  not_released :
      (manager : Manager Call)
      → cloud_manager_for env mg ≡ ok manager
      → manager.delete_machine_group h mg ≡ none
      → env.answer_patch (delete_group mg ∷ h) (released env mg h) ≡ some e
      → Undone env mg h e (released env mg h ∷ delete_group mg ∷ h)

module _ (env : Environment) (mg : MachineGroup) where
  reconcile_delete-Undone :
      (h : History) → Post Anything (Undone env mg h) (reconcile_delete env mg h)
  unfolding reconcile_delete ◌>>=◌ ◌>>◌ continue lift call
  reconcile_delete-Undone h =
      elim (Bool-cases (env.helpers.contains_finalizer mg.meta.finalizers finalizer)) [
        | inr free ↦ rw free tt
        | inl there ↦ elim (Result-cases (cloud_manager_for env mg)) [
          | inr (e, failed) ↦ rw (there, failed) (no_manager failed)
          | inl (manager, chosen) ↦ elim (Option-cases (manager.delete_machine_group h mg)) [
            | inr (e, failed) ↦ rw (there, chosen, failed) (not_deleted manager chosen failed)
            | inl deleted ↦
                elim (Option-cases (env.answer_patch (delete_group mg ∷ h) (released env mg h))) [
                  | inl patched ↦ rw (there, chosen, deleted, patched) tt
                  | inr (e, failed) ↦
                      rw (there, chosen, deleted, failed)
                        (not_released manager chosen deleted failed)
                ]
          ]
        ]
      ]

  dying_pass :
      (key : NamespacedName) (t : ℤ) (h : History)
      → env.answer_get h key ≡ ok mg
      → mg.meta.deletion_timestamp ≡ some t
      → reconcile env key h ≡ reconcile_delete env mg (get_group key ∷ h)
  unfolding reconcile reconcile_answer reconcile_found reconcile_by ◌>>=◌ continue call
  dying_pass key t h found dying = rw (found, dying) refl

  -- A pass of Reconcile over a group that is being deleted fails for one of three causes, whose error
  -- it returns: there is no manager for the group, and nothing is called after the Get; or
  -- DeleteMachineGroup failed, and nothing is called after that, so that the finalizer stays; or the
  -- patch that removes the finalizer failed, which is sent only after DeleteMachineGroup succeeded.
  pub reconcile-Undone :
      (key : NamespacedName) (t : ℤ) (h : History) (e : ApiError) (h' : History)
      → env.answer_get h key ≡ ok mg
      → mg.meta.deletion_timestamp ≡ some t
      → reconcile env key h ≡ (err e, h')
      → Undone env mg (get_group key ∷ h) e h'
  reconcile-Undone key t h e h' found dying returned =
      subst (λ out. Post Anything (Undone env mg (get_group key ∷ h)) out)
        (sym (dying_pass key t h found dying) ∙ returned)
        (reconcile_delete-Undone (get_group key ∷ h))
