-- ===== src/Api/Secrets.antt =====
-- api/v1alpha1/fenceagentsremediation_params.go: the parameters from secrets, and
-- BuildFenceAgentParams.
pub mod Layers
pub mod Build
use fence_agents_remediation.Prelude.{
  String, ◌^^◌, Bool, true, false, not, ◌||◌, Option, none, some, [], ◌∷◌, ◌==◌, if◌then◌else◌,
}
use fence_agents_remediation.Prelude.Dict.{Dict, has, put, copy}
use fence_agents_remediation.Errors.{Error, wrapped, Result, ok, err, ◌>>=◌, ◌>>◌}
use fence_agents_remediation.Libraries.Failures.{FailureApi}
use fence_agents_remediation.Libraries.Client.{Client}
use fence_agents_remediation.Libraries.Template.{TemplateEngine}
use fence_agents_remediation.Api.{FenceAgentsRemediation}
use fence_agents_remediation.Api.Params.{
  SecretParams, get_nilable, get_node_name, validate_fence_agent_params, parameter_action_name,
  parameter_reboot_action_value,
}
use fence_agents_remediation.Template.{render_parameter_template}

-- The default action is added.
unfoldable pub with_default_action : Dict String → Dict String
with_default_action params =
    if has params parameter_action_name
    then params
    else put params parameter_action_name parameter_reboot_action_value

-- The end of BuildFenceAgentParams, on what the validation has returned.
unfoldable pub build_with_params : Result (Dict String) → Dict String × Bool × Option Error
unfolding with_default_action
build_with_params (err e) = ([], false, some e)
build_with_params (ok params) = (with_default_action params, false, none)

module _ ⦃t : TemplateEngine⦄ where
  -- The loop that renders the parameters of the shared secret.
  unfoldable pub add_shared_secret :
      String → Dict String → Dict String × Bool → Result (Dict String × Bool)
  add_shared_secret node [] (params, templated) = ok (params, templated)
  add_shared_secret node ((name, val) ∷ rest) (params, templated) = do
    processed ← render_parameter_template val node
    add_shared_secret node rest (put params name processed, templated || not (processed == val))

  -- BuildFenceAgentParams on the parameters of the secrets: whether a retry is required, with the
  -- error.
  unfoldable pub build_with_secrets :
      FenceAgentsRemediation → Result SecretParams → Dict String × Bool × Option Error
  unfolding build_with_params
  build_with_secrets far (err e) = ([], true, some e)
  build_with_secrets far (ok secrets) = build_with_params (validate_fence_agent_params far secrets)

-- The loop over the secret's data.
abbrev pub fill : Dict String → Dict String
fill contents = copy [] contents

module _ {W : Type 0} ⦃f : FailureApi⦄ ⦃c : Client W⦄ where
  -- collectSecretParams
  unfoldable pub collect_secret_params : String → String → W → Result (Dict String) × W
  collect_secret_params name namespace w =
      let (r, w1) = c.get_secret name namespace w in
      elim r [
        | ok secret ↦ (ok (fill secret.contents), w1)
        | err e ↦ (
          err (
              if f.is_not_found e
              then wrapped
                  ("secret '" ^^ (name ^^ ("' not found in namespace '" ^^ (namespace ^^ "': ")))) e
              else wrapped
                  ("failed to get secret '"
                    ^^ (name ^^ ("' in namespace '" ^^ (namespace ^^ "': "))))
                  e),
          w1,
        )
      ]

  -- The part of collectAllSecretParams for the secret of the node, over the parameters so far.
  unfoldable pub collect_node_secret_params :
      Option String → String → Dict String × Bool → W → Result SecretParams × W
  collect_node_secret_params none namespace (params, templated) w =
      (ok (record { params = params; has_node_template = templated }), w)
  collect_node_secret_params (some name) namespace (params, templated) w =
      let (r, w1) = collect_secret_params name namespace w in
      (do own ← r; ok (record { params = copy params own; has_node_template = templated }), w1)

  module _ ⦃t : TemplateEngine⦄ where
    -- The part of collectAllSecretParams for the shared secret.
    unfoldable pub collect_shared_secret_params :
        Option String → String → String → W → Result (Dict String × Bool) × W
    collect_shared_secret_params none namespace node w = (ok ([], false), w)
    collect_shared_secret_params (some name) namespace node w =
        let (r, w1) = collect_secret_params name namespace w in
        (do shared ← r; add_shared_secret node shared ([], false), w1)

    -- collectAllSecretParams
    unfoldable pub collect_all_secret_params :
        FenceAgentsRemediation → String → W → Result SecretParams × W
    collect_all_secret_params far node w =
        let (r, w1) =
          collect_shared_secret_params far.spec.shared_secret_name far.meta.namespace node w in
        elim r [
          | err e ↦ (err e, w1)
          | ok shared ↦
              collect_node_secret_params (get_nilable far.spec.node_secret_names node)
                far.meta.namespace shared w1
        ]

    -- BuildFenceAgentParams
    unfoldable pub build_fence_agent_params :
        FenceAgentsRemediation → W → (Dict String × Bool × Option Error) × W
    unfolding build_with_secrets
    build_fence_agent_params far w =
        let (secrets, w1) = collect_all_secret_params far (get_node_name far) w in
        (build_with_secrets far secrets, w1)
