-- ===== src/Agent/Sync/Held.antt =====
-- The configuration file: what it holds after writeConfigFile.
use tiproxy_machine_operator.Agent.Docker.{is_running}
use tiproxy_machine_operator.Agent.Host.{
  AgentCall, AgentHistory, Host, do_host_call, inspect_container, read_file, write_file,
}
use tiproxy_machine_operator.Agent.Status.{Agent}
use tiproxy_machine_operator.Agent.Sync.{write_config_file, write_if_changed}
use tiproxy_machine_operator.Effects.{call, lift, to_result}
use tiproxy_machine_operator.Effects.Hoare.{
  Anything, Post, Runs, bind-Runs, call-Runs, frame-Runs, lift-Runs, then-Runs,
}
use tiproxy_machine_operator.Kube.{ApiError}
use tiproxy_machine_operator.Prelude.{
  Bool, Bool-cases, Option, Result, String, [], ap, err, false, inl, inr, int_eq, nat_eq, none, ok,
  refl, some, string_eq, true, ◌==◌, ◌∙◌, ◌∷◌, ◌≡◌,
}
use tiproxy_machine_operator.Text.{concat}

-- The bind that mounts the file as TiProxy's configuration.
abbrev pub mount_of : String → String
mount_of path = concat (path ∷ ":/etc/tiproxy/tiproxy.toml:ro" ∷ [])

abbrev is_write : AgentCall → Bool
is_write (write_file path content) = true
is_write _ = false

-- The file holds that text: it was written, or read, and nothing was written after it.
pub data Holds (host : Host) (path cfg : String) : AgentHistory → Type 0 where
  wrote :
      (h : AgentHistory)
      → host.answer_done h (write_file path cfg) ≡ none
      → Holds host path cfg (write_file path cfg ∷ h)
  was_same :
      (h : AgentHistory)
      → host.answer_file h path ≡ some cfg
      → Holds host path cfg (read_file path ∷ h)
  later :
      (c : AgentCall) (h : AgentHistory)
      → is_write c ≡ false
      → Holds host path cfg h
      → Holds host path cfg (c ∷ h)

module _ (host : Host) (path cfg : String) where
  still-Post {ℓ} :
      {A : Type ℓ} (r : Result ApiError A) (h : AgentHistory)
      → Holds host path cfg h
      → Post (λ a. Holds host path cfg) Anything (r, h)
  still-Post (ok a) h holds = holds
  still-Post (err e) h holds = tt

  pub lift-Holds {ℓ} :
      {A : Type ℓ} (r : Result ApiError A)
      → Runs (Holds host path cfg) (lift r) (λ a. Holds host path cfg) Anything
  lift-Holds r = lift-Runs r (λ h holds. still-Post r h holds)

  pub call-Holds {ℓ} :
      {A : Type ℓ} (answer : AgentHistory → Result ApiError A) (c : AgentCall)
      → is_write c ≡ false
      → Runs (Holds host path cfg) (call answer c) (λ a. Holds host path cfg) Anything
  call-Holds answer c reads =
      call-Runs answer c (λ h holds. still-Post (answer h) (c ∷ h) (later c h reads holds))

  wrote-Post :
      (h : AgentHistory) (o : Option ApiError)
      → host.answer_done h (write_file path cfg) ≡ o
      → Post (λ u. Holds host path cfg) Anything (to_result o, write_file path cfg ∷ h)
  wrote-Post h none fine = wrote h fine
  wrote-Post h (some e) failed = tt

  -- What the last call read.
  data WasRead (old : Option String) : AgentHistory → Type 0 where
    was_read : (h : AgentHistory) → host.answer_file h path ≡ old → WasRead old (read_file path ∷ h)

  unchanged :
      (old : String) (h : AgentHistory) → old ≡ cfg → WasRead (some old) h → Holds host path cfg h
  unchanged old h equal (was_read g answered) = was_same g (answered ∙ ap some equal)

  write_if_changed-Holds :
      (a : Agent) (old : Option String)
      → Runs
          (WasRead old)
          (write_if_changed host a path cfg old)
          (λ u. Holds host path cfg)
          Anything
  unfolding write_if_changed do_host_call
  write_if_changed-Holds a none = call-Runs _ _ (λ h read. wrote-Post h _ refl)
  write_if_changed-Holds a (some old) = elim (Bool-cases (old == cfg)) [
    | inl same ↦
        rw same (lift-Runs _ (λ h read. unchanged old h ((string_eq.beq_iff old cfg).0 same) read))
    | inr new ↦ rw new (call-Runs _ _ (λ h read. wrote-Post h _ refl))
  ]

  pub write_config_file-Holds :
      (a : Agent)
      → Runs (λ h. Unit {0}) (write_config_file host a path cfg) (λ u. Holds host path cfg) Anything
  unfolding write_config_file
  write_config_file-Holds a = elim (Bool-cases (path == "")) [
    | inl no_path ↦ rw no_path (lift-Runs _ (λ h p. tt))
    | inr given ↦ rw given (
        then-Runs (λ h. Unit {0}) (frame-Runs (Unit {0}) _)
          (bind-Runs WasRead (call-Runs _ _ (λ h p. was_read h refl)) (write_if_changed-Holds a)))
  ]

  pub is_running-Holds :
      (name : String)
      → Runs (Holds host path cfg) (is_running host name) (λ up. Holds host path cfg) Anything
  unfolding is_running
  is_running-Holds name = elim (Bool-cases (name == "")) [
    | inl no_name ↦ rw no_name (lift-Runs _ (λ h p. tt))
    | inr given ↦ rw given (
        then-Runs (Holds host path cfg) (lift-Holds _) (
          bind-Runs (λ state. Holds host path cfg) (call-Holds _ (inspect_container name) refl)
            (λ state. lift-Holds _)))
  ]
