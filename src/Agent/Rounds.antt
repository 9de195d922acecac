-- ===== src/Agent/Rounds.antt =====
-- An agent on a machine that has a new configuration to serve.
use tiproxy_machine_operator.Agent.Docker.{is_running}
use tiproxy_machine_operator.Agent.Host.{Host, Retries, do_host_call}
use tiproxy_machine_operator.Agent.Render.{
  build_backend_clusters, build_tiproxy_config, collect_clusters,
}
use tiproxy_machine_operator.Agent.Settings.{
  cut_tag, image_base, last_index, resolve_tiproxy_image, runtime_settings,
}
use tiproxy_machine_operator.Agent.Settings.Images.{image_base-tagged, tagged}
use tiproxy_machine_operator.Agent.Status.{Agent, get_own_group, upsert_machine_status, upsert_once}
use tiproxy_machine_operator.Agent.Sync.{
  accepted, deliver, finish_round, or_report, prepare, push_config, render_options, reported,
  run_agent, start_or_push, sync_once, write_config_file, write_if_changed,
}
use tiproxy_machine_operator.Agent.Sync.Delivered.{Delivers, sync_once-Delivers}
use tiproxy_machine_operator.Agent.Sync.Entries.{OwnEntry, run_agent-OwnEntry}
use tiproxy_machine_operator.Cloud.Aws.Names.{prefix}
use tiproxy_machine_operator.Controller.Examples.{live_group}
use tiproxy_machine_operator.Effects.{call, continue, lift, read, ◌>>=◌, ◌>>◌}
use tiproxy_machine_operator.Prelude.{
  All, [], arith, false, none, ok, refl, some, string_eq, sym, true, ◌∙◌, ◌≡◌, ◌≢◌,
}
use tiproxy_machine_operator.Text.{concat, trim_space}

abbrev host_example : Host
host_example = record {
  quote = λ s. s;
  hash_bytes = λ s. "new-hash";
  now = λ h. none;
  docker_client = none;
  answer_group = λ h key. ok live_group;
  answer_file = λ h path. none;
  answer_inspect = λ h name. ok (some (record { running = true; restarting = false }));
  answer_pull = λ h image. ok none;
  answer_create = λ h c. ok "container";
  answer_put = λ h c. ok (200, "");
  answer_done = λ h c. none;
  retry_on_conflict = λ f. f;
}

abbrev agent_example : Agent
agent_example = record {
  namespace = "ns";
  machine_group = "group";
  machine_id = "i-1";
  default_image = "pingcap/tiproxy:v1";
  last_config_hash = "old-hash";
}

host_example-Retries : Retries host_example
host_example-Retries = record { retry_on_conflict-Keeps = λ P f keeps. keeps }

run_agent-OwnEntry_example : All (OwnEntry "i-1") (run_agent host_example 2 agent_example [])
run_agent-OwnEntry_example = run_agent-OwnEntry host_example host_example-Retries 2 agent_example

new_hash : (sync_once host_example agent_example []).0.1.last_config_hash ≡ "new-hash"
unfolding sync_once finish_round prepare deliver start_or_push push_config is_running
    write_config_file write_if_changed do_host_call get_own_group or_report reported ◌>>=◌ ◌>>◌
    continue call lift accepted build_tiproxy_config build_backend_clusters collect_clusters
    runtime_settings render_options upsert_machine_status upsert_once read
new_hash = refl

hash_changes : (sync_once host_example agent_example []).0.1.last_config_hash ≢ "old-hash"
hash_changes same =
    ground (arith, (string_eq.beq_iff "new-hash" "old-hash").1 (sym new_hash ∙ same))

sync_once-Delivers_example :
    Delivers host_example
      (sync_once host_example agent_example []).0.1.last_config_hash
      ((prepare host_example agent_example []).1)
sync_once-Delivers_example = sync_once-Delivers host_example agent_example [] hash_changes

no_spaces :
    trim_space (tagged "registry:5000/pingcap/tiproxy" "v1")
    ≡ tagged "registry:5000/pingcap/tiproxy" "v1"
unfolding trim_space
no_spaces = refl

no_marks : (last_index b'/' "v1" ≡ none) × (last_index b':' "v1" ≡ none)
unfolding last_index
no_marks = (refl, refl)

image_base-tagged_example :
    image_base (tagged "registry:5000/pingcap/tiproxy" "v1") ≡ "registry:5000/pingcap/tiproxy"
image_base-tagged_example =
    image_base-tagged "registry:5000/pingcap/tiproxy" "v1" no_spaces no_marks.0 no_marks.1

-- The colon of a digest is taken for the one before a tag.
digest_is_cut : image_base "pingcap/tiproxy@sha256:0123abcd" ≡ "pingcap/tiproxy@sha256"
unfolding image_base cut_tag last_index trim_space prefix
digest_is_cut = refl

-- A version replaces the tag of the default image.
version_replaces_tag :
    resolve_tiproxy_image
      (record live_group.spec.tiproxy { version = " v2 " })
      "registry:5000/pingcap/tiproxy:v1"
    ≡ "registry:5000/pingcap/tiproxy:v2"
unfolding resolve_tiproxy_image image_base cut_tag last_index trim_space prefix concat
version_replaces_tag = refl
