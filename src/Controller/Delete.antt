-- ===== src/Controller/Delete.antt =====
-- The order of the calls when a group is deleted.
use tiproxy_machine_operator.Api.{MachineGroup}
use tiproxy_machine_operator.Cloud.{Manager}
use tiproxy_machine_operator.Controller.Exec.{Call, Environment, History, delete_group, patch_group}
use tiproxy_machine_operator.Controller.Reconcile.{
  Outcome, cloud_manager_for, done, finalizer, reconcile_delete, with_finalizers,
}
use tiproxy_machine_operator.Effects.{call, continue, lift, ◌>>=◌, ◌>>◌}
use tiproxy_machine_operator.Kube.{ApiError}
use tiproxy_machine_operator.Prelude.{
  Option-cases, Result, Result-cases, ap, err, inl, inr, none, ok, refl, some, sym, true, ◌∙◌, ◌∷◌,
  ◌≡◌,
}

ok-err : (x : Outcome) (e : ApiError) → Path (Result ApiError Outcome) (ok x) (err e) → ⊥
ok-err x e h = cc

module _ (env : Environment) (mg : MachineGroup) (h : History) where
  abbrev pub released : Call
  released =
      patch_group (with_finalizers mg (env.helpers.remove_finalizer mg.meta.finalizers finalizer))
        mg

  undeleted :
      (manager : Manager Call) (e : ApiError)
      → env.helpers.contains_finalizer mg.meta.finalizers finalizer ≡ true
      → cloud_manager_for env mg ≡ ok manager
      → manager.delete_machine_group h mg ≡ some e
      → reconcile_delete env mg h ≡ (err e, delete_group mg ∷ h)
  unfolding reconcile_delete ◌>>=◌ ◌>>◌ continue lift call
  undeleted manager e there chosen failed = rw (there, chosen, failed) refl

  unmanaged :
      (e : ApiError)
      → env.helpers.contains_finalizer mg.meta.finalizers finalizer ≡ true
      → cloud_manager_for env mg ≡ err e
      → reconcile_delete env mg h ≡ (err e, h)
  unfolding reconcile_delete ◌>>=◌ ◌>>◌ continue lift call
  unmanaged e there failed = rw (there, failed) refl

  deleted_then :
      (manager : Manager Call)
      → env.helpers.contains_finalizer mg.meta.finalizers finalizer ≡ true
      → cloud_manager_for env mg ≡ ok manager
      → manager.delete_machine_group h mg ≡ none
      → (reconcile_delete env mg h).1 ≡ released ∷ delete_group mg ∷ h
  unfolding reconcile_delete ◌>>=◌ ◌>>◌ continue lift call
  deleted_then manager there chosen deleted =
      elim (Option-cases (env.answer_patch (delete_group mg ∷ h) released)) [
        | inl good ↦ rw (there, chosen, deleted, good) refl
        | inr (e, bad) ↦ rw (there, chosen, deleted, bad) refl
      ]

  -- reconcileDelete that succeeds for a group with the finalizer has had the machines deleted in the
  -- cloud first, by the manager of the group's provider and without error; then it has removed the
  -- finalizer, and made no other call.
  pub reconcile_delete-frees :
      (h' : History)
      → env.helpers.contains_finalizer mg.meta.finalizers finalizer ≡ true
      → reconcile_delete env mg h ≡ (ok done, h')
      → (manager : Manager Call) × (cloud_manager_for env mg ≡ ok manager)
        × (manager.delete_machine_group h mg ≡ none)
        × (h' ≡ released ∷ delete_group mg ∷ h)
  reconcile_delete-frees h' there returned = elim (Result-cases (cloud_manager_for env mg)) [
    | inr (e, failed) ↦ absurd (ok_is_err e h (sym returned ∙ unmanaged e there failed))
    | inl (manager, chosen) ↦ elim (Option-cases (manager.delete_machine_group h mg)) [
      | inr (e, failed) ↦ absurd (
          ok_is_err e (delete_group mg ∷ h)
            (sym returned ∙ undeleted manager e there chosen failed))
      | inl deleted ↦ (
        manager,
        chosen,
        deleted,
        ap (λ r. r.1) (sym returned) ∙ deleted_then manager there chosen deleted,
      )
    ]
  ]
    where
      ok_is_err :
          (e : ApiError) (g : History)
          → Path (Result ApiError Outcome × History) (ok done, h') (err e, g)
          → ⊥
      ok_is_err e g same = ok-err done e (ap (λ r. r.0) same)
