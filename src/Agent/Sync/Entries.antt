-- ===== src/Agent/Sync/Entries.antt =====
-- The statuses of the machines in the group's status.
use tiproxy_machine_operator.Agent.Docker.{StartOptions, is_running, start, start_checked}
use tiproxy_machine_operator.Agent.Host.{
  AgentCall, AgentExec, AgentHistory, Host, Retries, do_host_call, patch_machines,
}
use tiproxy_machine_operator.Agent.Settings.{RuntimeSettings}
use tiproxy_machine_operator.Agent.Status.{
  Agent, Report, get_own_group, remove_from, remove_machine_status, remove_once,
  upsert_machine_status, upsert_once, with_machine, without_machine,
}
use tiproxy_machine_operator.Agent.Sync.{
  deliver, finish_round, or_report, prepare, push_config, reported, rounds, run_agent,
  start_or_push, sync_once, write_config_file, write_if_changed,
}
use tiproxy_machine_operator.Api.{MachineGroup}
use tiproxy_machine_operator.Effects.Keeps.{
  Keeps, bind-Keeps, call-Keeps, lift-Keeps, read-Keeps, then-Keeps,
}
use tiproxy_machine_operator.Kube.{ApiError, Time}
use tiproxy_machine_operator.Prelude.{
  All, Bool, Bool-cases, Option, Result, String, [], err, false, if◌then◌else◌, inl, inr, int_eq,
  is_some, nat_eq, none, ok, refl, some, string_eq, subst, suc, sym, true, zero, ℕ, ◌==◌, ◌||◌, ◌∙◌,
  ◌≡◌,
}
use tiproxy_machine_operator.Prelude.Assoc.{get, get-put, get-remove}

-- A patch of the group's machines leaves the entries of all other machines.
abbrev pub OwnEntry : String → AgentCall → Type 0
OwnEntry own (patch_machines mg base) =
    (machine_id : String)
    → own == machine_id ≡ false
    → get machine_id mg.status.machines ≡ get machine_id base.status.machines
OwnEntry own _ = Unit {0}

with_machine-other :
    (a : Agent) (report : Report) (now : Time) (mg : MachineGroup) (machine_id : String)
    → a.machine_id == machine_id ≡ false
    → get machine_id (with_machine a report now mg).status.machines
      ≡ get machine_id mg.status.machines
unfolding with_machine
with_machine-other a report now mg machine_id other =
    get-put a.machine_id machine_id _ mg.status.machines ∙ rw other refl

without_machine-other :
    (a : Agent) (mg : MachineGroup) (machine_id : String)
    → a.machine_id == machine_id ≡ false
    → get machine_id (without_machine a mg).status.machines ≡ get machine_id mg.status.machines
unfolding without_machine
without_machine-other a mg machine_id other =
    get-remove a.machine_id machine_id mg.status.machines ∙ rw other refl

module _ (host : Host) (retries : Retries host) (a : Agent) where
  get_own_group-Keeps : Keeps (OwnEntry a.machine_id) (get_own_group host a)
  unfolding get_own_group
  get_own_group-Keeps = call-Keeps _ _ tt

  upsert_machine_status-Keeps :
      (report : Report) → Keeps (OwnEntry a.machine_id) (upsert_machine_status host a report)
  unfolding upsert_machine_status upsert_once do_host_call
  upsert_machine_status-Keeps report = retries.retry_on_conflict-Keeps (OwnEntry a.machine_id) _ (
      bind-Keeps get_own_group-Keeps
        (λ mg. read-Keeps _ (λ h. call-Keeps _ _ (with_machine-other a report (host.now h) mg))))

  remove_from-Keeps :
      (mg : Option MachineGroup) → Keeps (OwnEntry a.machine_id) (remove_from host a mg)
  unfolding remove_from do_host_call
  remove_from-Keeps none = lift-Keeps _
  remove_from-Keeps (some mg) = elim (Bool-cases (is_some (get a.machine_id mg.status.machines))) [
    | inl there ↦ rw there (call-Keeps _ _ (without_machine-other a mg))
    | inr gone ↦ rw gone (lift-Keeps _)
  ]

  remove_machine_status-Keeps : Keeps (OwnEntry a.machine_id) (remove_machine_status host a)
  unfolding remove_machine_status remove_once
  remove_machine_status-Keeps = elim (Bool-cases (a.machine_group == "" || a.machine_id == "")) [
    | inl unnamed ↦ rw unnamed (lift-Keeps _)
    | inr named ↦ rw named (
        retries.retry_on_conflict-Keeps (OwnEntry a.machine_id) _
          (bind-Keeps (call-Keeps _ _ tt) remove_from-Keeps))
  ]

  reported-Keeps {ℓ} :
      {A : Type ℓ} (image hash : String) (r : Result ApiError A)
      → Keeps (OwnEntry a.machine_id) (reported host a image hash r)
  unfolding reported
  reported-Keeps image hash (ok v) = record { kept = λ h before. before }
  reported-Keeps image hash (err e) = record {
    kept = λ h before. (upsert_machine_status-Keeps _).kept h before;
  }

  or_report-Keeps {ℓ} :
      {A : Type ℓ} (image hash : String) {m : AgentExec A}
      → Keeps (OwnEntry a.machine_id) m
      → Keeps (OwnEntry a.machine_id) (or_report host a image hash m)
  unfolding or_report
  or_report-Keeps image hash {m} keeps = record {
    kept = λ h before. (reported-Keeps image hash ((m h).0)).kept _ (keeps.kept h before);
  }

  write_if_changed-Keeps :
      (path content : String) (old : Option String)
      → Keeps (OwnEntry a.machine_id) (write_if_changed host a path content old)
  unfolding write_if_changed do_host_call
  write_if_changed-Keeps path content none = call-Keeps _ _ tt
  write_if_changed-Keeps path content (some old) = elim (Bool-cases (old == content)) [
    | inl same ↦ rw same (lift-Keeps _)
    | inr differs ↦ rw differs (call-Keeps _ _ tt)
  ]

  write_config_file-Keeps :
      (path content : String)
      → Keeps (OwnEntry a.machine_id) (write_config_file host a path content)
  unfolding write_config_file do_host_call
  write_config_file-Keeps path content = elim (Bool-cases (path == "")) [
    | inl no_path ↦ rw no_path (lift-Keeps _)
    | inr given ↦ rw given (
        then-Keeps (call-Keeps _ _ tt)
          (bind-Keeps (call-Keeps _ _ tt) (write_if_changed-Keeps path content)))
  ]

  is_running-Keeps : (name : String) → Keeps (OwnEntry a.machine_id) (is_running host name)
  unfolding is_running
  is_running-Keeps name = elim (Bool-cases (name == "")) [
    | inl no_name ↦ rw no_name (lift-Keeps _)
    | inr given ↦
        rw given
          (then-Keeps (lift-Keeps _) (bind-Keeps (call-Keeps _ _ tt) (λ state. lift-Keeps _)))
  ]

  start-Keeps : (opts : StartOptions) → Keeps (OwnEntry a.machine_id) (start host opts)
  unfolding start start_checked
  start-Keeps opts = elim (Bool-cases (opts.name == "")) [
    | inl no_name ↦ rw no_name (lift-Keeps _)
    | inr name ↦ elim (Bool-cases (opts.image == "")) [
      | inl no_image ↦ rw (name, no_image) (lift-Keeps _)
      | inr image ↦ elim (Bool-cases (opts.config_path == "")) [
        | inl no_path ↦ rw (name, image, no_path) (lift-Keeps _)
        | inr path ↦
            rw (name, image, path)
              (then-Keeps (lift-Keeps _) (
                then-Keeps (call-Keeps _ _ tt) (
                  then-Keeps (call-Keeps _ _ tt)
                    (bind-Keeps (call-Keeps _ _ tt) (λ id. call-Keeps _ _ tt)))))
      ]
    ]
  ]

  start_or_push-Keeps :
      (settings : RuntimeSettings) (cfg hash : String) (running : Bool)
      → Keeps (OwnEntry a.machine_id) (start_or_push host a settings cfg hash running)
  unfolding start_or_push push_config
  start_or_push-Keeps settings cfg hash true = elim (Bool-cases (hash == a.last_config_hash)) [
    | inl same ↦ rw same (lift-Keeps _)
    | inr new ↦
        rw new (then-Keeps (or_report-Keeps settings.image hash (call-Keeps _ _ tt)) (lift-Keeps _))
  ]
  start_or_push-Keeps settings cfg hash false =
      then-Keeps (or_report-Keeps settings.image hash (start-Keeps _)) (lift-Keeps _)

  prepare-Keeps : Keeps (OwnEntry a.machine_id) (prepare host a)
  unfolding prepare deliver
  prepare-Keeps = elim (Bool-cases (a.machine_group == "")) [
    | inl no_group ↦ rw no_group (lift-Keeps _)
    | inr group ↦ elim (Bool-cases (a.machine_id == "")) [
      | inl no_id ↦ rw (group, no_id) (lift-Keeps _)
      | inr id ↦
          rw (group, id)
            (bind-Keeps get_own_group-Keeps (λ mg.
              bind-Keeps (or_report-Keeps _ _ (lift-Keeps _)) (λ cfg.
                bind-Keeps
                  (then-Keeps (or_report-Keeps _ _ (write_config_file-Keeps _ cfg)) (
                    bind-Keeps (or_report-Keeps _ _ (is_running-Keeps _))
                      (start_or_push-Keeps _ cfg _)))
                  (λ just_started. lift-Keeps _))))
    ]
  ]

  finish_round-kept :
      (r : Result ApiError (RuntimeSettings × (String × Bool))) (h : AgentHistory)
      → All (OwnEntry a.machine_id) h
      → All (OwnEntry a.machine_id) ((finish_round host a r h).1)
  unfolding finish_round
  finish_round-kept (err e) h before = before
  finish_round-kept (ok (settings, (hash, just_started))) h before =
      (upsert_machine_status-Keeps _).kept h before

  finish_round-machine_id :
      (r : Result ApiError (RuntimeSettings × (String × Bool))) (h : AgentHistory)
      → (finish_round host a r h).0.1.machine_id ≡ a.machine_id
  unfolding finish_round
  finish_round-machine_id (err e) h = refl
  finish_round-machine_id (ok (settings, (hash, just_started))) h = refl

module _ (host : Host) (retries : Retries host) where
  rounds-kept :
      (n : ℕ) (a : Agent) (h : AgentHistory)
      → All (OwnEntry a.machine_id) h
      → (All (OwnEntry a.machine_id) ((rounds host n a h).1))
        × ((rounds host n a h).0.machine_id ≡ a.machine_id)
  unfolding rounds sync_once
  rounds-kept zero a h before = (before, refl)
  rounds-kept (suc n) a h before =
      let (r, h') = prepare host a h in
      let next = (finish_round host a r h').0.1 in
      let same = finish_round-machine_id host retries a r h' in
      let after : All (OwnEntry a.machine_id) ((finish_round host a r h').1) =
        finish_round-kept host retries a r h' ((prepare-Keeps host retries a).kept h before) in
      let (later, id) = rounds-kept n next _ (rw same after) in (rw same at later, id ∙ same)

  remove_machine_status-kept :
      (a : Agent) (own : String) (h : AgentHistory)
      → a.machine_id ≡ own
      → All (OwnEntry own) h
      → All (OwnEntry own) ((remove_machine_status host a h).1)
  remove_machine_status-kept a own h id before =
      subst (λ i. All (OwnEntry i) ((remove_machine_status host a h).1)) id
        ((remove_machine_status-Keeps host retries a).kept h
          (subst (λ i. All (OwnEntry i) h) (sym id) before))

  -- Whatever the API server and the host answer, in all rounds of an agent and in its clean-up every
  -- patch of the group's machines leaves the entries of the other machines as it read them, if
  -- RetryOnConflict only makes the calls of its function.
  pub run_agent-OwnEntry : (n : ℕ) (a : Agent) → All (OwnEntry a.machine_id) (run_agent host n a [])
  unfolding run_agent
  run_agent-OwnEntry n a =
      let namespace = if a.namespace == "" then "default" else a.namespace in
      let named = record a { namespace = namespace } in
      let (a', h') = rounds host (suc n) named [] in
      let (kept, id) = rounds-kept (suc n) named [] tt in
      remove_machine_status-kept a' a.machine_id h' id kept
