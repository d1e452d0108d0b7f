-- ===== src/Api/Secrets/Build.antt =====
-- What BuildFenceAgentParams returns.
use fence_agents_remediation.Prelude.{
  String, ◌≡◌, refl, ◌≢◌, true, false, Option, none, some, ◌==◌, arith, eq_iff, Bool-cases, inl,
  inr, if◌then◌else◌, ◌∙◌, ◌↔◌,
}
use fence_agents_remediation.Prelude.Dict.{
  Dict, get, has, IsMap, get-put, has-eq-false, has-eq-true,
}
use fence_agents_remediation.Errors.{Error, Result, ok, err}
use fence_agents_remediation.Libraries.Failures.{FailureApi}
use fence_agents_remediation.Libraries.Client.{Client}
use fence_agents_remediation.Libraries.Template.{TemplateEngine}
use fence_agents_remediation.Api.{FenceAgentsRemediation}
use fence_agents_remediation.Api.Params.{
  SecretParams, get_node_name, parameter_action_name, parameter_reboot_action_value,
  validate_fence_agent_params,
}
use fence_agents_remediation.Api.Params.Precedence.{
  shared_value, first_of_two, node_value, get-validate_fence_agent_params,
}
use fence_agents_remediation.Api.Params.Actions.{
  HasAllowedActions, validate_fence_agent_params-HasAllowedActions, put-HasAllowedActions,
}
use fence_agents_remediation.Api.Secrets.Layers.{
  SecretsAreMaps, secrets_value, get-collect_all_secret_params,
}
use fence_agents_remediation.Api.Secrets.{
  collect_all_secret_params, with_default_action, build_with_params, build_with_secrets,
  build_fence_agent_params,
}

with_default_action-HasAllowedActions :
    (params : Dict String)
    → HasAllowedActions params
    → HasAllowedActions (with_default_action params)
unfolding with_default_action
with_default_action-HasAllowedActions params h k v e a =
    elim (Bool-cases (has params parameter_action_name)) [
      | inl there ↦ h k v (ground arith) a
      | inr absent ↦
          put-HasAllowedActions params parameter_action_name parameter_reboot_action_value h
            (λ _. refl) k v (ground arith) a
    ]

get-with_default_action :
    (params : Dict String) (k : String)
    → get (with_default_action params) k
      ≡ first_of_two
          (get params k)
          (if parameter_action_name == k then some parameter_reboot_action_value else none)
unfolding with_default_action
get-with_default_action params k = ground (
  arith,
  eq_iff parameter_action_name k,
  get-put params parameter_action_name k parameter_reboot_action_value,
  has-eq-false params parameter_action_name,
  has-eq-true params parameter_action_name,
)

with_default_action-present :
    (params : Dict String) → get (with_default_action params) parameter_action_name ≢ none
with_default_action-present params =
    rw (get-with_default_action params parameter_action_name)
      (given (get params parameter_action_name))
  where
    given : (o : Option String) → first_of_two o (some parameter_reboot_action_value) ≢ none
    given none = cc
    given (some v) = cc

regroup :
    (r params secret own common default : Option String)
    → r ≡ first_of_two params default
    → params ≡ first_of_two secret (first_of_two own common)
    → r ≡ first_of_two secret (first_of_two own (first_of_two common default))
regroup r params secret own common default e1 e2 = ground arith

module _ ⦃t : TemplateEngine⦄ where
  build_with_params-eq :
      (r : Result (Dict String))
      → (build_with_params r).2 ≡ none
      → (params : Dict String) × (r ≡ ok params)
        × ((build_with_params r).0 ≡ with_default_action params)
  unfolding build_with_params
  build_with_params-eq (ok params) h = (params, refl, refl)
  build_with_params-eq (err e) h = cc

  build_with_secrets-eq :
      (far : FenceAgentsRemediation) (r : Result SecretParams)
      → (build_with_secrets far r).2 ≡ none
      → (s : SecretParams) × (params : Dict String) × (r ≡ ok s)
        × (validate_fence_agent_params far s ≡ ok params)
        × ((build_with_secrets far r).0 ≡ with_default_action params)
  unfolding build_with_secrets
  build_with_secrets-eq far (err e) h = cc
  build_with_secrets-eq far (ok s) h =
      let (params, e, e1) = build_with_params-eq (validate_fence_agent_params far s) h in
      (s, params, refl, e, e1)

  build_with_params_retry : (r : Result (Dict String)) → (build_with_params r).1 ≡ false
  unfolding build_with_params
  build_with_params_retry (ok params) = refl
  build_with_params_retry (err e) = refl

  build_with_secrets-retry_iff :
      (far : FenceAgentsRemediation) (r : Result SecretParams)
      → ((build_with_secrets far r).1 ≡ true) ↔ ((e : Error) × (r ≡ err e))
  unfolding build_with_secrets
  build_with_secrets-retry_iff far (err e) = ((λ _. (e, refl)), (λ _. refl))
  build_with_secrets-retry_iff far (ok s) =
      let never = build_with_params_retry (validate_fence_agent_params far s) in
      ((λ h. cc), (λ p. cc (p.1)))

module _ {W : Type 0} ⦃f : FailureApi⦄ ⦃c : Client W⦄ ⦃t : TemplateEngine⦄ where
  -- If BuildFenceAgentParams gives no error, each parameter has the value of the node's own
  -- secret if that has it, else that of the shared secret rendered for the node, else that of the
  -- node's own parameters, else that of the shared parameters rendered for the node, else, for
  -- `--action` alone, the default `reboot`; whatever the order in which Go visits the maps.
  pub get-build_fence_agent_params :
      SecretsAreMaps c
      → (far : FenceAgentsRemediation) (w : W) → IsMap far.spec.shared_parameters
      → IsMap far.spec.node_parameters
      → (build_fence_agent_params far w).0.2 ≡ none
      → (k : String)
      → let node = get_node_name far in
        get (build_fence_agent_params far w).0.0 k
        ≡ first_of_two (secrets_value far w k) (
            first_of_two (node_value far.spec.node_parameters node k) (
              first_of_two
                (shared_value far.spec.shared_parameters node k)
                (if parameter_action_name == k then some parameter_reboot_action_value else none)))
  unfolding build_fence_agent_params
  get-build_fence_agent_params maps far w ms mn h k =
      let (s, params, e, e1, e2) = build_with_secrets-eq far _ h in
      let (value, m) = get-collect_all_secret_params maps far w s k e in
      let (layered, _) = get-validate_fence_agent_params far s params ms mn m e1 k in
      let node = get_node_name far in
      rw e2 (
        regroup _ _ (secrets_value far w k) (node_value far.spec.node_parameters node k)
          (shared_value far.spec.shared_parameters node k) _ (get-with_default_action params k)
          (layered ∙ rw value))

  -- A fence agent is always given an action: if BuildFenceAgentParams gives no error, the
  -- parameters have a `--action`, and each of the parameters `--action` and `action` that they
  -- have is "", `reboot` or `off`.
  pub build_fence_agent_params-HasAllowedActions :
      (far : FenceAgentsRemediation) (w : W)
      → (build_fence_agent_params far w).0.2 ≡ none
      → let params = (build_fence_agent_params far w).0.0 in
        (get params parameter_action_name ≢ none) × HasAllowedActions params
  unfolding build_fence_agent_params
  build_fence_agent_params-HasAllowedActions far w h =
      let (s, params, e, e1, e2) = build_with_secrets-eq far _ h in
      let fine = validate_fence_agent_params-HasAllowedActions far s params e1 in
      rw e2 (with_default_action-present params, with_default_action-HasAllowedActions params fine)

  -- A retry is asked for exactly if the secrets could not be collected.
  pub build_fence_agent_params-retry_iff :
      (far : FenceAgentsRemediation) (w : W)
      → ((build_fence_agent_params far w).0.1 ≡ true)
        ↔ ((e : Error) × ((collect_all_secret_params far (get_node_name far) w).0 ≡ err e))
  unfolding build_fence_agent_params
  build_fence_agent_params-retry_iff far w = build_with_secrets-retry_iff far _
