-- ===== src/Tests/Params.antt =====
-- The parameters of a fence agent, from every source.
use fence_agents_remediation.Prelude.{
  String, ◌≡◌, refl, ◌≢◌, ◌↔◌, true, false, none, some, [], ◌∷◌, ◌==◌, if◌then◌else◌,
}
use fence_agents_remediation.Prelude.Dict.{Dict, get, put, copy, has}
use fence_agents_remediation.Errors.{Error, ok, err}
use fence_agents_remediation.Api.Params.{
  SecretParams, get_node_name, validate_fence_agent_params, add_shared, add_node, add_secret,
  validate_fence_action, parameter_action_name, parameter_reboot_action_value,
}
use fence_agents_remediation.Template.{render_parameter_template}
use fence_agents_remediation.Api.Params.Precedence.{
  first_of_two, node_value, shared_value, get-validate_fence_agent_params,
}
use fence_agents_remediation.Api.Params.Actions.{
  HasAllowedActions, validate_fence_agent_params-HasAllowedActions,
}
use fence_agents_remediation.Api.Secrets.{
  build_fence_agent_params, collect_all_secret_params, collect_shared_secret_params,
  collect_node_secret_params, collect_secret_params, add_shared_secret,
}
use fence_agents_remediation.Api.Secrets.Layers.{secrets_value}
use fence_agents_remediation.Api.Secrets.Build.{
  get-build_fence_agent_params, build_fence_agent_params-HasAllowedActions,
  build_fence_agent_params-retry_iff,
}
use fence_agents_remediation.Tests.Libraries.{simple_failures, node_engine}
use fence_agents_remediation.Tests.Cluster.{World, memory, memory-SecretsAreMaps}
use fence_agents_remediation.Tests.Resources.{plain_far}

abbrev vault : World
vault = record {
  nodes = [];
  secrets =
      ("shared", ("--username", "admin") ∷ ("--password", "weak") ∷ [])
      ∷ ("own", ("--password", "strong") ∷ [])
      ∷ [];
  fars = [];
  templates = [];
  deleted_pods_of = [];
  events = [];
  clock = 0;
}

build : Unit {0}
unfolding build_fence_agent_params collect_all_secret_params collect_shared_secret_params
    collect_node_secret_params collect_secret_params add_shared_secret validate_fence_agent_params
    add_shared add_node add_secret validate_fence_action render_parameter_template get_node_name get
    put copy has
build = tt

build_all : (build_fence_agent_params plain_far vault).0 ≡ (
  ("--lanplus", "")
      ∷ ("--ip", "worker-1")
      ∷ ("--ipport", "6234")
      ∷ ("--username", "admin")
      ∷ ("--password", "strong")
      ∷ ("--action", "reboot")
      ∷ [],
  false,
  none,
)
unfolding build
build_all = refl

abbrev own_secrets : SecretParams
own_secrets = record { params = ("--password", "strong") ∷ []; has_node_template = false }

abbrev validated : Dict String
validated =
    ("--lanplus", "") ∷ ("--ip", "worker-1") ∷ ("--ipport", "6234") ∷ ("--password", "strong") ∷ []

validated_lem : validate_fence_agent_params plain_far own_secrets ≡ ok validated
unfolding build
validated_lem = refl

get-validate_fence_agent_params_example :
    let own = node_value plain_far.spec.node_parameters (get_node_name plain_far) "--ip" in
    let common = shared_value plain_far.spec.shared_parameters (get_node_name plain_far) "--ip" in
    (get validated "--ip" ≡ first_of_two (get own_secrets.params "--ip") (first_of_two own common))
    × (get own_secrets.params "--ip" ≢ none → (own ≡ none) × (common ≡ none))
unfolding build
get-validate_fence_agent_params_example =
    get-validate_fence_agent_params plain_far own_secrets validated (refl, (refl, tt)) (refl, tt)
      (refl, tt) validated_lem "--ip"

validated-actions_allowed : HasAllowedActions validated
validated-actions_allowed =
    validate_fence_agent_params-HasAllowedActions plain_far own_secrets validated validated_lem

get-build_fence_agent_params_example :
    let node = get_node_name plain_far in
    get (build_fence_agent_params plain_far vault).0.0 "--password"
    ≡ first_of_two (secrets_value plain_far vault "--password") (
        first_of_two (node_value plain_far.spec.node_parameters node "--password") (
          first_of_two (shared_value plain_far.spec.shared_parameters node "--password") (
            if parameter_action_name == "--password"
            then some parameter_reboot_action_value
            else none)))
unfolding build
get-build_fence_agent_params_example =
    get-build_fence_agent_params memory-SecretsAreMaps plain_far vault (refl, (refl, tt)) (refl, tt)
      refl "--password"

build_fence_agent_params-HasAllowedActions_example :
    let params = (build_fence_agent_params plain_far vault).0.0 in
    (get params parameter_action_name ≢ none) × HasAllowedActions params
unfolding build
build_fence_agent_params-HasAllowedActions_example =
    build_fence_agent_params-HasAllowedActions plain_far vault refl

build_fence_agent_params-retry_iff_example :
    ((build_fence_agent_params plain_far vault).0.1 ≡ true) ↔ (
      (e : Error) × ((collect_all_secret_params plain_far (get_node_name plain_far) vault).0
        ≡ err e))
build_fence_agent_params-retry_iff_example = build_fence_agent_params-retry_iff plain_far vault
