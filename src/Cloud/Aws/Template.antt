-- ===== src/Cloud/Aws/Template.antt =====
-- The data of the launch template and the tags: buildEC2Tags, buildASGTags, buildELBTags,
-- buildLaunchTemplateData, userData, tiproxyImageSpecHash, versionDescription, asgTagValue.
use tiproxy_machine_operator.Api.{
  LoadBalancerExposureSpec, MachineGroup, MachineGroupSpec, RemoteContentRef, TiProxyRuntimeSpec,
}
use tiproxy_machine_operator.Cloud.Aws.Errors.{starts_with}
use tiproxy_machine_operator.Cloud.Aws.Names.{prefix}
use tiproxy_machine_operator.Cloud.Aws.Placement.{one_of}
use tiproxy_machine_operator.Prelude.{
  Bool, List, Option, String, [], if◌then◌else◌, int_eq, nat_eq, none, not, some, sort_by,
  string_eq, text_ltb, ◌&&◌, ◌==◌, ◌∷◌,
}
use tiproxy_machine_operator.Prelude.Assoc.{Map, put}
use tiproxy_machine_operator.Text.{concat, to_lower, trim_space}

abbrev managed_by : String
managed_by = "tiproxy.pingcap.com/managed-by"

-- The loop over spec.tags.
unfoldable pub merge_tags : Map String String → Map String String → Map String String
merge_tags [] tags = tags
merge_tags ((k, v) ∷ more) tags = merge_tags more (put k v tags)

-- The keys, sorted, with their values.
abbrev pub key_less : String × String → String × String → Bool
key_less a b = text_ltb (a.0) (b.0)

unfoldable pub sorted_tags : Map String String → List (String × String)
sorted_tags tags = sort_by key_less tags

-- The tags of instances and volumes. The tags of the auto scaling group are the same with
-- PropagateAtLaunch, which is left out.
unfoldable pub build_tags : MachineGroup → List (String × String)
build_tags mg = sorted_tags (
    merge_tags mg.spec.tags (
      ("Name", concat (mg.meta.namespace ∷ "-" ∷ mg.meta.name ∷ []))
      ∷ ("tiproxy.pingcap.com/group", mg.meta.name)
      ∷ ("tiproxy.pingcap.com/namespace", mg.meta.namespace)
      ∷ (managed_by, "tiproxy-machine-operator")
      ∷ []))

-- buildELBTags
unfoldable pub build_elb_tags : MachineGroup → LoadBalancerExposureSpec → List (String × String)
build_elb_tags mg lb = sorted_tags (
    merge_tags mg.spec.tags (
      ("Name", concat (mg.meta.namespace ∷ "-" ∷ mg.meta.name ∷ "-" ∷ lb.name ∷ []))
      ∷ ("tiproxy.pingcap.com/group", mg.meta.name)
      ∷ ("tiproxy.pingcap.com/load-balancer", lb.name)
      ∷ ("tiproxy.pingcap.com/namespace", mg.meta.namespace)
      ∷ (managed_by, "tiproxy-machine-operator")
      ∷ []))

-- A TagDescription; nil strings read as "".
unfoldable pub asg_tag_value : List (String × String) → String → String
asg_tag_value [] key = ""
asg_tag_value ((k, v) ∷ tags) key = if k == key then v else asg_tag_value tags key

-- A profile by its ARN or by its name.
pub data InstanceProfile : Type 0 where
  profile_arn profile_name : String → InstanceProfile

-- ec2types.RequestLaunchTemplateData. Required HTTP tokens are always asked for, and both tag
-- specifications have the same tags.
pub record LaunchTemplateData : Type 0 where
  pub image_id : String
  pub instance_type : String
  pub security_group_ids : List String
  pub user_data : String
  pub tags : List (String × String)
  pub iam_instance_profile : Option InstanceProfile
  pub key_name : Option String

-- strings.HasPrefix(s, "arn:")
unfoldable pub is_arn : String → Bool
is_arn s = starts_with "arn:" s

-- What the manager uses of Go's standard library: SHA-256 in hexadecimal, Base64, the verb %q, and
-- json.Marshal of a spec.
pub record Encoders : Type 0 where
  pub sha256_hex : String → String
  pub base64 : String → String
  pub quote : String → String
  pub json : MachineGroupSpec → String

module _ (enc : Encoders) where
  -- versionDescription; sum[:8] has 16 hexadecimal digits.
  unfoldable pub version_description : MachineGroup → String
  version_description mg =
      concat ("tiproxy-machine-operator-" ∷ prefix 16 (enc.sha256_hex (enc.json mg.spec)) ∷ [])

  -- tiproxyImageSpecHash
  unfoldable pub tiproxy_image_spec_hash : TiProxyRuntimeSpec → String
  tiproxy_image_spec_hash spec =
      let image = trim_space spec.image in
      let base_image = trim_space spec.base_image in
      let version = trim_space spec.version in
      if image == "" && (base_image == "" && version == "")
      then ""
      else prefix 16 (enc.sha256_hex (concat (image ∷ "\n" ∷ base_image ∷ "\n" ∷ version ∷ [])))

  -- The parts of userData for an inline kubeconfig and for a remote one.
  unfoldable pub inline_script : String → String → String
  inline_script path inline =
      if inline == ""
      then ""
      else concat (
          "\nKCFG_PATH="
          ∷ enc.quote path
          ∷ "\nmkdir -p \"$(dirname \"${KCFG_PATH}\")\"\necho "
          ∷ enc.quote (enc.base64 inline)
          ∷ " | base64 -d >\"${KCFG_PATH}\"\nchmod 0600 \"${KCFG_PATH}\"\n"
          ∷ [])

  unfoldable pub parameter_store_script : String → String → String → String
  parameter_store_script path identifier region = concat (
      "\nif ! command -v aws >/dev/null 2>&1; then\n  echo \"aws cli is required to fetch kubeconfig from parameter store\" >&2\n  exit 1\nfi\n\nKCFG_PATH="
      ∷ enc.quote path
      ∷ "\nREMOTE_IDENTIFIER="
      ∷ enc.quote identifier
      ∷ "\nAWS_REGION_OVERRIDE="
      ∷ enc.quote region
      ∷ "\nAWS_REGION=\"${AWS_REGION_OVERRIDE:-${AWS_REGION:-}}\"\nif [ -z \"${AWS_REGION}\" ]; then\n  # Fallback only when region is not explicitly configured.\n  AWS_REGION=\"$(curl -fsS http://169.254.169.254/latest/meta-data/placement/region || true)\"\nfi\n\nmkdir -p \"$(dirname \"${KCFG_PATH}\")\"\nif [ -n \"${AWS_REGION}\" ]; then\n  aws ssm get-parameter --name \"${REMOTE_IDENTIFIER}\" --with-decryption --region \"${AWS_REGION}\" --query 'Parameter.Value' --output text >\"${KCFG_PATH}\"\nelse\n  aws ssm get-parameter --name \"${REMOTE_IDENTIFIER}\" --with-decryption --query 'Parameter.Value' --output text >\"${KCFG_PATH}\"\nfi\nchmod 0600 \"${KCFG_PATH}\"\n"
      ∷ [])

  unfoldable pub remote_script : String → String → RemoteContentRef → String
  remote_script path region r =
      let given = to_lower (trim_space r.backend) in
      let backend = if given == "" then "parameterstore" else given in
      if one_of backend ("parameterstore" ∷ "parameter-store" ∷ "ssm" ∷ "ssm-parameter" ∷ [])
      then parameter_store_script path r.identifier region
      else concat
          ("\necho \"unsupported kubeconfig remote backend: " ∷ backend ∷ "\" >&2\nexit 1\n" ∷ [])

  -- userData
  unfoldable pub user_data : MachineGroup → String
  user_data mg =
      let kubeconfig = mg.spec.bootstrap.kubeconfig in
      let given = trim_space kubeconfig.path in
      let path = if given == "" then "/etc/tiproxy-machine-agent/kubeconfig" else given in
      let region = trim_space mg.spec.placement.region in
      if not (mg.spec.bootstrap.user_data == "")
      then mg.spec.bootstrap.user_data
      else concat (
          "#!/bin/bash\nset -euxo pipefail\nmkdir -p /etc/tiproxy-machine-agent\ncat >/etc/tiproxy-machine-agent/env <<'EOF'\nTIPROXY_MACHINE_NAMESPACE="
          ∷ mg.meta.namespace
          ∷ "\nTIPROXY_MACHINE_GROUP="
          ∷ mg.meta.name
          ∷ "\nTIPROXY_KUBECONFIG="
          ∷ path
          ∷ "\nEOF\n"
          ∷ inline_script path (trim_space kubeconfig.inline)
          ∷ (elim kubeconfig.remote_ref [
            | none ↦ ""
            | some r ↦ if trim_space r.identifier == "" then "" else remote_script path region r
          ])
          ∷ "\nsystemctl daemon-reload || true\nsystemctl enable --now tiproxy-machine-agent || true\n"
          ∷ [])

  -- buildLaunchTemplateData
  unfoldable pub build_launch_template_data : MachineGroup → LaunchTemplateData
  build_launch_template_data mg =
      let machine = mg.spec.machine in
      record {
        image_id = machine.image;
        instance_type = machine.class;
        security_group_ids = mg.spec.network.security_group_ids;
        user_data = enc.base64 (user_data mg);
        tags = build_tags mg;
        iam_instance_profile =
            if machine.identity_ref == ""
            then none
            else if is_arn machine.identity_ref
            then some (profile_arn machine.identity_ref)
            else some (profile_name machine.identity_ref);
        key_name = if machine.ssh_key_name == "" then none else some machine.ssh_key_name;
      }
