-- ===== src/Api.antt =====
-- api/v1alpha1: the custom resources (fenceagentsremediation_types.go and
-- fenceagentsremediationtemplate_types.go). The children model fenceagentsremediation_params.go.
pub mod Params
pub mod Secrets
use fence_agents_remediation.Prelude.{ℕ, ℤ, String, Option, List}
use fence_agents_remediation.Prelude.Dict.{Dict}
use fence_agents_remediation.Objects.{ObjectMeta, Condition}

abbrev pub far_finalizer : String
far_finalizer = "fence-agents-remediation.medik8s.io/far-finalizer"

abbrev pub far_no_schedule_taint_key : String
far_no_schedule_taint_key = "remediation.medik8s.io/fence-agents-remediation"

-- RemediationStrategyType is a string type.
abbrev pub resource_deletion_remediation_strategy : String
resource_deletion_remediation_strategy = "ResourceDeletion"

abbrev pub out_of_service_taint_remediation_strategy : String
out_of_service_taint_remediation_strategy = "OutOfServiceTaint"

-- A nil map of secret names is told apart from an empty one by the webhook: `none`.
pub record FenceAgentsRemediationSpec : Type 0 where
  pub agent : String
  pub retry_count : ℤ
  pub retry_interval : ℤ
  pub timeout : ℤ
  pub shared_parameters : Dict String
  pub node_parameters : Dict (Dict String)
  pub remediation_strategy : String
  pub node_secret_names : Option (Dict String)
  pub shared_secret_name : Option String

pub record FenceAgentsRemediationStatus : Type 0 where
  pub conditions : List Condition
  pub last_update_time : Option ℕ

pub record FenceAgentsRemediation : Type 0 where
  pub meta : ObjectMeta
  pub spec : FenceAgentsRemediationSpec
  pub status : FenceAgentsRemediationStatus

-- intstr.IntOrString
pub data IntOrString : Type 0 where
  int : ℤ → IntOrString
  str : String → IntOrString

-- Spec.Template.Spec is `template_spec`.
pub record FenceAgentsRemediationTemplateSpec : Type 0 where
  pub status_validation_sample : Option IntOrString
  pub template_spec : FenceAgentsRemediationSpec

-- A nil map is `none`.
pub record FenceAgentsRemediationTemplateStatus : Type 0 where
  pub conditions : List Condition
  pub validation_failed : Option (Dict String)
  pub validation_passed : Option (Dict String)

pub record FenceAgentsRemediationTemplate : Type 0 where
  pub meta : ObjectMeta
  pub spec : FenceAgentsRemediationTemplateSpec
  pub status : FenceAgentsRemediationTemplateStatus
