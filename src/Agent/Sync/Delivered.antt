-- ===== src/Agent/Sync/Delivered.antt =====
-- The hash of the last configuration that was delivered.
use tiproxy_machine_operator.Agent.Docker.{
  StartOptions, binds_of, container_spec, start, start_checked, wrap_err,
}
use tiproxy_machine_operator.Agent.Host.{
  AgentExec, AgentHistory, ContainerSpec, Host, create_container, prefixed, pull_image, put_config,
  remove_container, start_container,
}
use tiproxy_machine_operator.Agent.Settings.{RuntimeSettings}
use tiproxy_machine_operator.Agent.Status.{Agent}
use tiproxy_machine_operator.Agent.Sync.{
  accepted, deliver, finish_round, or_report, prepare, push_config, reported, start_or_push,
  sync_once,
}
use tiproxy_machine_operator.Agent.Sync.Held.{
  Holds, call-Holds, is_running-Holds, lift-Holds, mount_of, write_config_file-Holds,
}
use tiproxy_machine_operator.Effects.Hoare.{
  Anything, Post, Runs, bind-Runs, call-Runs, frame-Runs, lift-Runs, then-Runs,
}
use tiproxy_machine_operator.Kube.{ApiError}
use tiproxy_machine_operator.Prelude.{
  Bool, Bool-cases, Option, Result, String, [], beq_refl, err, false, inl, inr, int_eq, nat_eq,
  none, ok, refl, some, string_eq, true, ◌==◌, ◌∷◌, ◌≡◌, ◌≢◌, ◌⊎◌,
}
use tiproxy_machine_operator.Prelude.Assoc.{contains}

-- The last call delivered the configuration with that hash: a container was started that was created
-- with the file mounted as TiProxy's configuration, while the file held the configuration; or the
-- running TiProxy accepted the configuration.
pub data Delivers (host : Host) (hash : String) : AgentHistory → Type 0 where
  by_start :
      (path cfg id : String) (spec : ContainerSpec) (h : AgentHistory)
      → host.hash_bytes cfg ≡ hash
      → Holds host path cfg h
      → contains spec.binds (mount_of path) ≡ true
      → host.answer_create h spec ≡ ok id
      → host.answer_done (create_container spec ∷ h) (start_container id) ≡ none
      → Delivers host hash (start_container id ∷ create_container spec ∷ h)
  by_push :
      (url cfg : String) (h : AgentHistory)
      → host.hash_bytes cfg ≡ hash
      → accepted (host.answer_put h (put_config url cfg)) ≡ ok tt
      → Delivers host hash (put_config url cfg ∷ h)

module _ (host : Host) (a : Agent) where
  -- What a round that goes on has delivered, or need not deliver.
  abbrev UpToDate : String → AgentHistory → Type 0
  UpToDate hash h = (hash ≡ a.last_config_hash) ⊎ Delivers host hash h

  reported-Post {ℓ} :
      {A : Type ℓ} (Q : A → AgentHistory → Type 0) (image hash : String) (r : Result ApiError A)
      (h : AgentHistory)
      → Post Q Anything (r, h)
      → Post Q Anything (reported host a image hash r h)
  unfolding reported
  reported-Post Q image hash (ok v) h post = post
  reported-Post Q image hash (err e) h post = tt

  or_report-Runs {ℓ} :
      {A : Type ℓ} {P : AgentHistory → Type 0} {Q : A → AgentHistory → Type 0} (image hash : String)
      {m : AgentExec A}
      → Runs P m Q Anything
      → Runs P (or_report host a image hash m) Q Anything
  unfolding or_report
  or_report-Runs {Q} image hash {m} runs = record {
    runs = λ h p. reported-Post Q image hash ((m h).0) ((m h).1) (runs.runs h p);
  }

  -- The container that was created, by the last call, while the file held the configuration.
  data Created (path cfg : String) (spec : ContainerSpec) (id : String)
      : AgentHistory → Type 0 where
    created :
        (h : AgentHistory)
        → Holds host path cfg h
        → host.answer_create h spec ≡ ok id
        → Created path cfg spec id (create_container spec ∷ h)

  new_container-Post :
      (path cfg text : String) (spec : ContainerSpec) (h : AgentHistory)
      (r : Result ApiError String)
      → host.answer_create h spec ≡ r
      → Holds host path cfg h
      → Post (Created path cfg spec) Anything (wrap_err text r, create_container spec ∷ h)
  new_container-Post path cfg text spec h (ok id) made holds = created h holds made
  new_container-Post path cfg text spec h (err e) made holds = tt

  started-Post :
      (path cfg id : String) (spec : ContainerSpec) (h : AgentHistory) (o : Option ApiError)
      → contains spec.binds (mount_of path) ≡ true
      → Created path cfg spec id h
      → host.answer_done h (start_container id) ≡ o
      → Post
          (λ u. UpToDate (host.hash_bytes cfg))
          Anything
          (prefixed ("docker start failed" ∷ []) o, start_container id ∷ h)
  started-Post path cfg id spec h none mounted (created g holds made) fine =
      inr (by_start path cfg id spec g refl holds mounted made fine)
  started-Post path cfg id spec h (some e) mounted there failed = tt

  mounts :
      (opts : StartOptions)
      → contains (container_spec opts).binds (mount_of opts.config_path) ≡ true
  unfolding container_spec binds_of contains
  mounts opts = rw (beq_refl (mount_of opts.config_path)) refl

  start_checked-Runs :
      (cfg : String) (opts : StartOptions)
      → Runs
          (Holds host opts.config_path cfg)
          (start_checked host opts)
          (λ u. UpToDate (host.hash_bytes cfg))
          Anything
  unfolding start_checked
  start_checked-Runs cfg opts =
      let held = Holds host opts.config_path cfg in
      then-Runs held (lift-Holds host _ cfg _) (
        then-Runs held (call-Holds host _ cfg _ (pull_image opts.image) refl) (
          then-Runs held (call-Holds host _ cfg _ (remove_container opts.name) refl) (
            bind-Runs (Created opts.config_path cfg (container_spec opts))
              (call-Runs _ _
                (λ h holds. new_container-Post _ cfg _ (container_spec opts) h _ refl holds))
              (λ id. call-Runs _ _ (λ h there.
                started-Post opts.config_path cfg id (container_spec opts) h _ (mounts opts) there
                  refl)))))

  start-Runs :
      (cfg : String) (opts : StartOptions)
      → Runs
          (Holds host opts.config_path cfg)
          (start host opts)
          (λ u. UpToDate (host.hash_bytes cfg))
          Anything
  unfolding start
  start-Runs cfg opts = elim (Bool-cases (opts.name == "")) [
    | inl no_name ↦ rw no_name (lift-Runs _ (λ h p. tt))
    | inr name ↦ elim (Bool-cases (opts.image == "")) [
      | inl no_image ↦ rw (name, no_image) (lift-Runs _ (λ h p. tt))
      | inr image ↦ elim (Bool-cases (opts.config_path == "")) [
        | inl no_path ↦ rw (name, image, no_path) (lift-Runs _ (λ h p. tt))
        | inr path ↦ rw (name, image, path) (start_checked-Runs cfg opts)
      ]
    ]
  ]

  pushed-Post :
      (url cfg : String) (h : AgentHistory) (r : Result ApiError (Unit {0}))
      → accepted (host.answer_put h (put_config url cfg)) ≡ r
      → Post (λ u. UpToDate (host.hash_bytes cfg)) Anything (r, put_config url cfg ∷ h)
  pushed-Post url cfg h (ok u) fine = inr (by_push url cfg h refl fine)
  pushed-Post url cfg h (err e) failed = tt

  start_or_push-Runs :
      (settings : RuntimeSettings) (cfg : String) (running : Bool)
      → Runs
          (Holds host settings.config_path cfg)
          (start_or_push host a settings cfg (host.hash_bytes cfg) running)
          (λ started. UpToDate (host.hash_bytes cfg))
          Anything
  unfolding start_or_push push_config
  start_or_push-Runs settings cfg true =
      elim (Bool-cases (host.hash_bytes cfg == a.last_config_hash)) [
        | inl same ↦ rw same (
            lift-Runs _
              (λ h p. inl ((string_eq.beq_iff (host.hash_bytes cfg) a.last_config_hash).0 same)))
        | inr new ↦ rw new (
            then-Runs (UpToDate (host.hash_bytes cfg))
              (or_report-Runs _ _ (call-Runs _ _ (λ h p. pushed-Post _ cfg h _ refl)))
              (lift-Runs _ (λ h p. p)))
      ]
  start_or_push-Runs settings cfg false =
      then-Runs (UpToDate (host.hash_bytes cfg)) (or_report-Runs _ _ (start-Runs cfg _))
        (lift-Runs _ (λ h p. p))

  prepare-Runs : Runs (λ h. Unit {0}) (prepare host a) (λ out. UpToDate out.1.0) Anything
  unfolding prepare deliver
  prepare-Runs = elim (Bool-cases (a.machine_group == "")) [
    | inl no_group ↦ rw no_group (lift-Runs _ (λ h p. tt))
    | inr group ↦ elim (Bool-cases (a.machine_id == "")) [
      | inl no_id ↦ rw (group, no_id) (lift-Runs _ (λ h p. tt))
      | inr id ↦
          rw (group, id)
            (bind-Runs Anything (frame-Runs (Unit {0}) _) (λ mg.
              bind-Runs Anything (frame-Runs (Unit {0}) _) (λ cfg.
                bind-Runs (λ started. UpToDate (host.hash_bytes cfg))
                  (then-Runs (Holds host _ cfg)
                    (or_report-Runs _ _ (write_config_file-Holds host _ cfg a))
                    (bind-Runs (λ running. Holds host _ cfg)
                      (or_report-Runs _ _ (is_running-Holds host _ cfg _))
                      (start_or_push-Runs _ cfg)))
                  (λ just_started. lift-Runs _ (λ h p. p)))))
    ]
  ]

  finish_round-UpToDate :
      (r : Result ApiError (RuntimeSettings × (String × Bool))) (h : AgentHistory)
      → Post (λ out. UpToDate out.1.0) Anything (r, h)
      → UpToDate (finish_round host a r h).0.1.last_config_hash h
  unfolding finish_round
  finish_round-UpToDate (err e) h post = inl refl
  finish_round-UpToDate (ok (settings, (hash, just_started))) h post = post

  -- A round changes lastConfigHash only to the hash of a configuration that was delivered: what it
  -- called up to there ends with a push of the configuration with that hash that TiProxy answered with
  -- a status from 200 to 299; or with the creation of a container, with the file that then held the
  -- configuration with that hash mounted as TiProxy's, and the start of that container, both without
  -- error.
  pub sync_once-Delivers :
      (h : AgentHistory)
      → (sync_once host a h).0.1.last_config_hash ≢ a.last_config_hash
      → Delivers host (sync_once host a h).0.1.last_config_hash ((prepare host a h).1)
  unfolding sync_once
  sync_once-Delivers h changed =
      elim (finish_round-UpToDate ((prepare host a h).0) ((prepare host a h).1)
        (prepare-Runs.runs h tt)) [ inl same ↦ elim (changed same) [ ] | inr delivered ↦ delivered ]
