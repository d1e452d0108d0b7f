-- ===== src/Admission.antt =====
-- api/v1alpha1/fenceagentsremediation_params.go: what the validating webhooks check.
pub mod Defaults
pub mod Refusals
use fence_agents_remediation.Prelude.{
  String, ◌^^◌, Bool, true, false, not, ◌&&◌, Option, none, some, List, [], ◌∷◌, ◌==◌, is_none,
  is_empty, if◌then◌else◌,
}
use fence_agents_remediation.Prelude.Dict.{Dict}
use fence_agents_remediation.Errors.{Error, message, wrapped, Result, ok, err}
use fence_agents_remediation.Libraries.Failures.{FailureApi}
use fence_agents_remediation.Libraries.Client.{Client}
use fence_agents_remediation.Libraries.Template.{TemplateEngine}
use fence_agents_remediation.Api.{
  FenceAgentsRemediation, FenceAgentsRemediationSpec, FenceAgentsRemediationTemplate,
  out_of_service_taint_remediation_strategy,
}
use fence_agents_remediation.Api.Params.{error_missing_params}
use fence_agents_remediation.Api.Secrets.{build_fence_agent_params}
use fence_agents_remediation.Template.{render_parameter_template}
use fence_agents_remediation.Templates.Sample.{get_node_names_from_spec}
use fence_agents_remediation.Templates.Validate.{temp_far}

-- The package's variables: `agentValidator`, whose method asks the file system, and
-- IsOutOfServiceTaintSupported, which the program sets at its start.
pub record Settings : Type 0 where
  pub agent_exists : String → Result Bool
  pub is_out_of_service_taint_supported : Bool

-- OldDefaultSecretName
abbrev pub old_default_secret_name : String
old_default_secret_name = "fence-agents-credentials-shared"

module _ ⦃f : FailureApi⦄ (settings : Settings) where
  -- validateAgentName
  unfoldable pub validate_agent_name : String → Option Error
  validate_agent_name agent = elim (settings.agent_exists agent) [
    | err e ↦ f.new_aggregate (
        some (
          message
            ("Failed to validate fence agent: " ^^ (agent ^^ ". You might want to try again.")))
        ∷ some e
        ∷ [])
    | ok true ↦ none
    | ok false ↦ some (message ("unsupported fence agent: " ^^ agent))
  ]

-- validateStrategy
unfoldable pub validate_strategy : Settings → String → Option Error
validate_strategy settings strategy =
    if strategy == out_of_service_taint_remediation_strategy
      && not settings.is_out_of_service_taint_supported
    then some (
        message (
          out_of_service_taint_remediation_strategy
          ^^ " remediation strategy is not supported at kubernetes version lower than 1.26, please use a different remediation strategy"))
    else none

-- The loop of validateTemplateParameters.
unfoldable pub template_errors : ⦃t : TemplateEngine⦄ → Dict String → List (Option Error)
template_errors [] = []
template_errors ((name, value) ∷ params) =
    let rest = template_errors params in
    elim (render_parameter_template value "dummy-node-name") [
      | err e ↦
          some (wrapped ("invalid NodeTemplate syntax in shared parameter " ^^ (name ^^ ": ")) e)
          ∷ rest
      | ok _ ↦ rest
    ]

module _ ⦃f : FailureApi⦄ ⦃t : TemplateEngine⦄ where
  -- validateTemplateParameters
  unfoldable pub validate_template_parameters : FenceAgentsRemediationSpec → Option Error
  unfolding template_errors
  validate_template_parameters spec = f.new_aggregate (template_errors spec.shared_parameters)

-- The nodes for which validateFenceAgentForNodes validates.
abbrev pub validated_nodes : FenceAgentsRemediationSpec → List String
validated_nodes spec =
    let names = get_node_names_from_spec spec in
    if is_empty names then "temp-validation" ∷ [] else names

abbrev pub has_parameters : FenceAgentsRemediationSpec → Bool
has_parameters spec = not (
    is_empty spec.shared_parameters
    && is_empty spec.node_parameters
    && is_none spec.shared_secret_name
    && is_none spec.node_secret_names)

module _ {W : Type 0} ⦃f : FailureApi⦄ ⦃t : TemplateEngine⦄ ⦃c : Client W⦄ where
  -- The loop of validateFenceAgentForNodes.
  unfoldable pub validate_each :
      String → FenceAgentsRemediationSpec → List String → W → Option Error × W
  validate_each namespace spec [] w = (none, w)
  validate_each namespace spec (n ∷ ns) w =
      let ((_, _, failure), w1) = build_fence_agent_params (temp_far n namespace spec) w in
      let rest = validate_each namespace spec ns w1 in
      elim failure [ some e ↦ (some e, w1) | none ↦ rest ]

  -- validateFenceAgentForNodes
  unfoldable pub validate_fence_agent_for_nodes :
      String → FenceAgentsRemediationSpec → W → Option Error × W
  unfolding validate_each
  validate_fence_agent_for_nodes namespace spec w =
      if has_parameters spec
      then validate_each namespace spec (validated_nodes spec) w
      else (some error_missing_params, w)

  -- validateSpec, which ValidateCreate of both resources and ValidateUpdate of a FenceAgentsRemediation
  -- call; its warnings are always empty.
  unfoldable pub validate_spec :
      Settings → String → FenceAgentsRemediationSpec → W → Option Error × W
  unfolding validate_agent_name validate_strategy validate_template_parameters
      validate_fence_agent_for_nodes
  validate_spec settings namespace spec w =
      let (for_nodes, w1) = validate_fence_agent_for_nodes namespace spec w in
      (
        f.new_aggregate (
            validate_agent_name settings spec.agent
            ∷ validate_strategy settings spec.remediation_strategy
            ∷ validate_template_parameters spec
            ∷ for_nodes
            ∷ []),
        w1,
      )

  -- validateTemplateForSharedSecretDefaultName
  unfoldable pub validate_template_for_shared_secret_default_name :
      FenceAgentsRemediationTemplate → FenceAgentsRemediationTemplate → W → Option Error × W
  validate_template_for_shared_secret_default_name old new w =
      elim old.spec.template_spec.shared_secret_name [
        | none ↦ (none, w)
        | some old_name ↦
            if not (old_name == old_default_secret_name)
            then (none, w)
            else (let (r, w1) = c.get_secret old_default_secret_name new.meta.namespace w in
                let refusal : Option Error = elim r [
                  | err e ↦
                      if f.is_not_found e
                      then none
                      else some (
                          message
                            "failed to check if the default shared secret exists, please retry")
                  | ok _ ↦ some (
                      message
                        "shared secret with the deprecated default name \"fence-agents-credentials-shared\" exists, please delete the secret before removing the name from the FenceAgentsRemediationTemplate CR")
                ] in
                elim new.spec.template_spec.shared_secret_name [
                  | some new_name ↦ if not (new_name == "") then (none, w) else (refusal, w1)
                  | none ↦ (refusal, w1)
                ])
      ]

  -- FARTemplateValidator.ValidateUpdate
  unfoldable pub validate_template_update :
      Settings
      → FenceAgentsRemediationTemplate
      → FenceAgentsRemediationTemplate
      → W
      → Option Error × W
  unfolding validate_spec validate_template_for_shared_secret_default_name
  validate_template_update settings old new w =
      let (by_spec, w1) = validate_spec settings new.meta.namespace new.spec.template_spec w in
      let (by_name, w2) = validate_template_for_shared_secret_default_name old new w1 in
      (f.new_aggregate (by_spec ∷ by_name ∷ []), w2)
