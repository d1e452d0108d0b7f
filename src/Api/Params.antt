-- ===== src/Api/Params.antt =====
-- api/v1alpha1/fenceagentsremediation_params.go: the parameters of a fence agent.
pub mod Precedence
pub mod Actions
use fence_agents_remediation.Prelude.{
  String, ◌^^◌, Bool, true, false, not, ◌&&◌, ◌||◌, Option, none, some, List, [], ◌∷◌, ◌==◌,
  if◌then◌else◌, is_empty,
}
use fence_agents_remediation.Prelude.Dict.{Dict, get, has, put, copy, keys}
use fence_agents_remediation.Errors.{Error, message, wrapped, Result, ok, err, ◌>>=◌, ◌>>◌, checked}
use fence_agents_remediation.Libraries.Failures.{FailureApi}
use fence_agents_remediation.Libraries.Client.{Client}
use fence_agents_remediation.Libraries.Template.{TemplateEngine}
use fence_agents_remediation.Objects.{Secret}
use fence_agents_remediation.Api.{FenceAgentsRemediation, FenceAgentsRemediationSpec}
use fence_agents_remediation.Template.{render_parameter_template}

abbrev pub parameter_reboot_action_value : String
parameter_reboot_action_value = "reboot"

abbrev pub parameter_off_action_value : String
parameter_off_action_value = "off"

abbrev pub action_name : String
action_name = "action"

abbrev pub parameter_action_name : String
parameter_action_name = "--action"

abbrev pub error_unsupported_action : String
error_unsupported_action = "FAR doesn't support any other action than `reboot` or `off`"

abbrev pub error_missing_params : Error
error_missing_params = message "invalid spec: mandatory parameters are missing"

abbrev pub error_param_defined_multiple_times : String → Error
error_param_defined_multiple_times name =
    message ("invalid multiple definition of FAR parameter, parameter name: " ^^ name)

-- SecretParams
pub record SecretParams : Type 0 where
  pub params : Dict String
  pub has_node_template : Bool

-- `map[nodeName]` on a map that may be nil
abbrev pub get_nilable {ℓ} : {V : Type ℓ} → Option (Dict V) → String → Option V
get_nilable none k = none
get_nilable (some m) k = get m k

-- commonAnnotations.NodeNameAnnotation
abbrev pub node_name_annotation : String
node_name_annotation = "remediation.medik8s.io/node-name"

-- GetNodeName
unfoldable pub get_node_name : FenceAgentsRemediation → String
get_node_name far = elim (get_nilable far.meta.annotations node_name_annotation) [
  | some node_name ↦ node_name
  | none ↦ far.meta.name
]

abbrev pub is_action : String → Bool
is_action name = name == action_name || name == parameter_action_name

abbrev pub is_allowed : String → Bool
is_allowed val =
    val == "" || (val == parameter_reboot_action_value || val == parameter_off_action_value)

-- validateFenceAction
unfoldable pub validate_fence_action : String → String → Option Error
validate_fence_action name val =
    if is_action name && not (is_allowed val) then some (message error_unsupported_action) else none

module _ ⦃t : TemplateEngine⦄ where
  -- The loop over the shared parameters, over `fenceAgentParams` and whether a template was found.
  unfoldable pub add_shared :
      String → Dict String → Dict String × Bool → Result (Dict String × Bool)
  add_shared node [] (params, templated) = ok (params, templated)
  add_shared node ((name, val) ∷ rest) (params, templated) = do
    checked (validate_fence_action name val)
    checked (if has params name then some (error_param_defined_multiple_times name) else none)
    processed ← render_parameter_template val node
    add_shared node rest (put params name processed, templated || not (val == processed))

-- The loop over the node parameters.
unfoldable pub add_node : String → Dict (Dict String) → Dict String → Result (Dict String)
add_node node [] params = ok params
add_node node ((name, values) ∷ rest) params = elim (get values node) [
  | some val ↦ do checked (validate_fence_action name val); add_node node rest (put params name val)
  | none ↦ add_node node rest params
]

-- The loop over the parameters of secrets.
unfoldable pub add_secret : Dict String → Dict String → Result (Dict String)
add_secret [] params = ok params
add_secret ((name, val) ∷ rest) params = do
  checked (validate_fence_action name val)
  checked (if has params name then some (error_param_defined_multiple_times name) else none)
  add_secret rest (put params name val)

module _ ⦃t : TemplateEngine⦄ where
  -- validateFenceAgentParams
  unfoldable pub validate_fence_agent_params :
      FenceAgentsRemediation → SecretParams → Result (Dict String)
  validate_fence_agent_params far secrets = do
    let node = get_node_name far
    shared ← add_shared node far.spec.shared_parameters ([], false)
    params ← add_node node far.spec.node_parameters shared.0
    all ← add_secret secrets.params params
    let only_shared_without_template =
        is_empty far.spec.node_parameters && (not shared.1 && not secrets.has_node_template)
    if is_empty all || only_shared_without_template then err error_missing_params else ok all
