-- ===== src/Tests/Admission.antt =====
-- Requests to the webhooks at concrete inputs.
use fence_agents_remediation.Prelude.{◌≡◌, ◌↔◌, refl, true, false, not, ◌&&◌, ◌==◌, none, some}
use fence_agents_remediation.Prelude.Dict.{get}
use fence_agents_remediation.Errors.{ok}
use fence_agents_remediation.Api.{
  FenceAgentsRemediationSpec, out_of_service_taint_remediation_strategy,
}
use fence_agents_remediation.Admission.{
  Settings, old_default_secret_name, has_parameters, validated_nodes, validate_spec,
}
use fence_agents_remediation.Admission.Refusals.{Renders, Builds, validate_spec-eq-none_iff}
use fence_agents_remediation.Admission.Defaults.{
  Settled, default_name, apply_shared_secret_default_name_to_spec,
  apply_shared_secret_default_name_to_spec-Settled,
}
use fence_agents_remediation.Tests.Cluster.{memory}
use fence_agents_remediation.Tests.Executer.{empty_world}
use fence_agents_remediation.Tests.Libraries.{simple_failures, node_engine}
use fence_agents_remediation.Tests.Resources.{ipmi_spec}

abbrev all_agents : Settings
all_agents = record { agent_exists = λ agent. ok true; is_out_of_service_taint_supported = true }

validate_spec-eq-none_iff_example :
    ((validate_spec all_agents "far" ipmi_spec empty_world).0 ≡ none) ↔ (
      (all_agents.agent_exists "fence_ipmilan" ≡ ok true)
      × (("ResourceDeletion" == out_of_service_taint_remediation_strategy && not true) ≡ false)
      × Renders ipmi_spec.shared_parameters
      × (has_parameters ipmi_spec ≡ true)
      × Builds "far" ipmi_spec (validated_nodes ipmi_spec) empty_world)
validate_spec-eq-none_iff_example = validate_spec-eq-none_iff all_agents "far" ipmi_spec empty_world

-- The old default name stands in the specification, and the secret is not there.
abbrev stale_spec : FenceAgentsRemediationSpec
stale_spec = record ipmi_spec { shared_secret_name = some old_default_secret_name }

apply_shared_secret_default_name_to_spec-Settled_example :
    Settled false
      (memory.get_secret old_default_secret_name "far" empty_world).0
      (record ipmi_spec { shared_secret_name = none })
unfolding apply_shared_secret_default_name_to_spec default_name get
apply_shared_secret_default_name_to_spec-Settled_example =
    apply_shared_secret_default_name_to_spec-Settled stale_spec
      (record ipmi_spec { shared_secret_name = none }) "far" false empty_world refl refl
