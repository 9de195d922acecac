-- ===== src/Agent/Settings.antt =====
-- internal/agent/agent.go: runtimeSettings, resolveTiProxyImage, imageBase.
pub mod Images
use Prim.Native.String
use Prim.Native.Char.{Char, code}
use tiproxy_machine_operator.Api.{MachineGroup, TiProxyRuntimeSpec}
use tiproxy_machine_operator.Cloud.Aws.Names.{prefix}
use tiproxy_machine_operator.Prelude.{
  Bool, List, Option, String, [], eqb, eqz, if◌then◌else◌, int_eq, ltb, nat_eq, none, not, pos,
  some, string_eq, suc, true, ℕ, ℤ, ◌&&◌, ◌==◌, ◌∷◌,
}
use tiproxy_machine_operator.Text.{concat, show_int, trim_space}

-- runtimeSettings
pub record RuntimeSettings : Type 0 where
  pub image : String
  pub container_name : String
  pub config_path : String
  pub cert_dir : String
  pub listen_host : String
  pub api_port : ℤ
  pub api_base_url : String
  pub extra_args : List String

-- strings.LastIndex of an ASCII character, in characters; `none` is -1.
abbrev pub next_index : ℕ → Char → Option ℕ → Option ℕ
next_index c d none = if eqb (code d) c then some 0 else none
next_index c d (some n) = some (suc n)

unfoldable pub last_index : ℕ → String → Option ℕ
last_index c String.[] = none
last_index c (String.◌∷◌ d s) = next_index c d (last_index c s)

-- lastColon > lastSlash, and then the slice before the colon.
abbrev pub is_after : ℕ → Option ℕ → Bool
is_after colon none = true
is_after colon (some slash) = ltb slash colon

unfoldable pub cut_tag : String → Option ℕ → Option ℕ → String
cut_tag image slash none = image
cut_tag image slash (some colon) = if is_after colon slash then prefix colon image else image

-- imageBase
unfoldable pub image_base : String → String
image_base image =
    let trimmed = trim_space image in
    if trimmed == ""
    then "pingcap/tiproxy"
    else cut_tag trimmed (last_index b'/' trimmed) (last_index b':' trimmed)

-- resolveTiProxyImage
unfoldable pub resolve_tiproxy_image : TiProxyRuntimeSpec → String → String
resolve_tiproxy_image spec fallback =
    let image = trim_space spec.image in
    let given = trim_space spec.base_image in
    let version = trim_space spec.version in
    let base = if given == "" then image_base fallback else given in
    if not (image == "")
    then image
    else if given == "" && version == ""
    then fallback
    else if version == ""
    then base
    else concat (base ∷ ":" ∷ version ∷ [])

abbrev or_default : String → String → String
or_default default s = if s == "" then default else s

-- runtimeSettings, given DefaultImage.
unfoldable pub runtime_settings : String → MachineGroup → RuntimeSettings
runtime_settings default_image mg =
    let spec = mg.spec.tiproxy in
    let api_port = if eqz spec.api_port (pos 0) then pos 3080 else spec.api_port in
    record {
      image = or_default default_image (resolve_tiproxy_image spec default_image);
      container_name = or_default "tiproxy" spec.container_name;
      config_path = or_default "/var/lib/tiproxy-machine-agent/tiproxy.toml" spec.config_path;
      cert_dir = spec.cert_dir;
      listen_host = "0.0.0.0";
      api_port = api_port;
      api_base_url =
          concat (or_default "http" spec.api_scheme ∷ "://127.0.0.1:" ∷ show_int api_port ∷ []);
      extra_args = spec.extra_args;
    }
