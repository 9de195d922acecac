-- ===== src/Controller/Verdict.antt =====
-- The condition Ready of a group against the result of the pass that writes it.
pub mod Passes
use tiproxy_machine_operator.Api.{Link, MachineGroup, MachinePort, condition_ready}
use tiproxy_machine_operator.Controller.Exec.{
  Call, Environment, History, patch, patch_group_status, patch_link_status, patch_port_status,
}
use tiproxy_machine_operator.Controller.Group.{outcome_of, verdict}
use tiproxy_machine_operator.Controller.PortStatus.{condition_of}
use tiproxy_machine_operator.Controller.PortStatus.Conditions.{
  Shows-says_true, holds_now, is_condition_true,
}
use tiproxy_machine_operator.Controller.Prune.{prune_stale}
use tiproxy_machine_operator.Controller.Reconcile.{
  Outcome, done, requeue, requeue_after, sync_link_statuses, sync_port_statuses, with_ready,
}
use tiproxy_machine_operator.Effects.{call}
use tiproxy_machine_operator.Effects.Hoare.{
  Anything, Post, Runs, bind-Runs, call-Runs, lift-Runs, read-Runs, then-Runs,
}
use tiproxy_machine_operator.Kube.{
  ApiError, Condition, ConditionStatus, ObjectMeta, Shows, find_condition,
}
use tiproxy_machine_operator.Prelude.{
  Bool, List, Option, Result, String, [], arith, err, false, is_some, none, ok, refl, some, true, ℕ,
  ℤ, ◌∷◌, ◌≡◌,
}
use tiproxy_machine_operator.Prelude.Assoc.{Map}

abbrev pub is_done : Outcome → Bool
is_done done = true
is_done requeue = false
is_done (requeue_after n) = false

abbrev pub writes_status : Call → Bool
writes_status (patch_group_status new base) = true
writes_status _ = false

-- The last status of a group that was written is that of the object with this metadata, and has the
-- condition Ready, true or not.
pub data LastReady (meta : ObjectMeta) (ready : Bool) : History → Type 0 where
  written :
      (new base : MachineGroup) (h : History)
      → new.meta ≡ meta
      → is_some (find_condition condition_ready new.status.conditions) ≡ true
      → holds_now condition_ready new.status.conditions ≡ ready
      → LastReady meta ready (patch_group_status new base ∷ h)
  later :
      (c : Call) (h : History)
      → writes_status c ≡ false
      → LastReady meta ready h
      → LastReady meta ready (c ∷ h)

pub verdict-agrees :
    (e : Option ApiError) (link_errors : Map String String) (resolved allocated pruned : ℕ)
    → is_condition_true (verdict e link_errors resolved allocated pruned).0
      ≡ is_done (outcome_of e link_errors)
unfolding verdict outcome_of
verdict-agrees (some e) link_errors resolved allocated pruned = refl
verdict-agrees none [] resolved allocated pruned = refl
verdict-agrees none (e ∷ es) resolved allocated pruned = refl

-- The status that is to be written has that condition Ready.
abbrev pub ShowsReady : ObjectMeta → Bool → MachineGroup → Type 0
ShowsReady meta ready mg =
    (mg.meta ≡ meta)
    × (is_some (find_condition condition_ready mg.status.conditions) ≡ true)
    × (holds_now condition_ready mg.status.conditions ≡ ready)

pub prune_stale-meta :
    (stale_after : ℤ) (mg : MachineGroup) (now : ℤ)
    → (prune_stale stale_after mg now).0.meta ≡ mg.meta
unfolding prune_stale
prune_stale-meta stale_after mg now = ground arith

module _ (env : Environment) where
  Shows-is_some : (c : Condition) (o : Option Condition) → Shows c o → is_some o ≡ true
  Shows-is_some c none shown = absurd shown
  Shows-is_some c (some d) shown = refl

  pub with_ready-agrees :
      (mg : MachineGroup) (status : ConditionStatus) (reason msg : String) (h : History)
      → (is_some (
            find_condition condition_ready
              (with_ready env mg status reason msg h).status.conditions)
          ≡ true)
        × (holds_now condition_ready (with_ready env mg status reason msg h).status.conditions
            ≡ is_condition_true status)
  unfolding with_ready
  with_ready-agrees mg status reason msg h =
      let c = condition_of condition_ready status reason msg mg.meta.generation (env.now h) in
      let shown = env.helpers.find-set mg.status.conditions c in
      (Shows-is_some c _ shown, Shows-says_true c _ shown)

  module _ (meta : ObjectMeta) (ready : Bool) where
    still-Post {ℓ} :
        {A : Type ℓ} (r : Result ApiError A) (h : History)
        → LastReady meta ready h
        → Post (λ a. LastReady meta ready) Anything (r, h)
    still-Post (ok a) h last = last
    still-Post (err e) h last = tt

    call-LastReady {ℓ} :
        {A : Type ℓ} (answer : History → Result ApiError A) (c : Call)
        → writes_status c ≡ false
        → Runs (LastReady meta ready) (call answer c) (λ a. LastReady meta ready) Anything
    call-LastReady answer c other =
        call-Runs answer c (λ h last. still-Post (answer h) (c ∷ h) (later c h other last))

    pub sync_port_statuses-LastReady :
        (next : ℤ → MachinePort → MachinePort) (ms : List MachinePort)
        → Runs
            (LastReady meta ready)
            (sync_port_statuses env next ms)
            (λ u. LastReady meta ready)
            Anything
    unfolding sync_port_statuses
    sync_port_statuses-LastReady next [] = lift-Runs _ (λ h last. last)
    sync_port_statuses-LastReady next (m ∷ ms) =
        bind-Runs (λ m' h. LastReady meta ready h) (read-Runs _ (λ h last. last))
          (λ m'.
            then-Runs (LastReady meta ready) (call-LastReady _ (patch_port_status m' m) refl)
              (sync_port_statuses-LastReady next ms))

    pub sync_link_statuses-LastReady :
        (ls : List Link) (assigned : Map String ℤ) (errors : Map String String) (msg : String)
        → Runs
            (LastReady meta ready)
            (sync_link_statuses env ls assigned errors msg)
            (λ u. LastReady meta ready)
            Anything
    unfolding sync_link_statuses
    sync_link_statuses-LastReady [] assigned errors msg = lift-Runs _ (λ h last. last)
    sync_link_statuses-LastReady (l ∷ ls) assigned errors msg =
        bind-Runs (λ l' h. LastReady meta ready h) (read-Runs _ (λ h last. last))
          (λ l'.
            then-Runs (LastReady meta ready) (call-LastReady _ (patch_link_status l' l) refl)
              (sync_link_statuses-LastReady ls assigned errors msg))

    pub patched-LastReady :
        (new base : MachineGroup)
        → Runs
            (λ h. ShowsReady meta ready new)
            (patch env (patch_group_status new base))
            (λ u. LastReady meta ready)
            Anything
    patched-LastReady new base =
        call-Runs _ _ (λ h shown. still-Post _ _ (written new base h shown.0 shown.1 shown.2))
