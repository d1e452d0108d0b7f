-- ===== src/Admission/Refusals.antt =====
-- When the validating webhooks accept a resource.
use fence_agents_remediation.Prelude.{
  String, ◌≡◌, ◌↔◌, refl, true, false, not, ◌&&◌, Option, none, List, [], ◌∷◌, ◌==◌, inl, inr,
  Option-cases, Bool-cases, arith, All,
}
use fence_agents_remediation.Prelude.Dict.{Dict}
use fence_agents_remediation.Errors.{Error, ok, Result-cases}
use fence_agents_remediation.Libraries.Failures.{FailureApi}
use fence_agents_remediation.Libraries.Client.{Client}
use fence_agents_remediation.Libraries.Template.{TemplateEngine}
use fence_agents_remediation.Api.{
  FenceAgentsRemediationSpec, out_of_service_taint_remediation_strategy,
}
use fence_agents_remediation.Api.Secrets.{build_fence_agent_params}
use fence_agents_remediation.Template.{render_parameter_template}
use fence_agents_remediation.Templates.Validate.{temp_far}
use fence_agents_remediation.Admission.{
  Settings, validate_agent_name, validate_strategy, template_errors, validate_template_parameters,
  validate_each, validated_nodes, has_parameters, validate_fence_agent_for_nodes, validate_spec,
}

-- Every parameter is a template that renders.
abbrev pub Renders : ⦃t : TemplateEngine⦄ → Dict String → Type 0
Renders [] = Unit
Renders ((name, value) ∷ params) =
    ((text : String) × (render_parameter_template value "dummy-node-name" ≡ ok text))
    × Renders params

template_errors_iff :
    ⦃t : TemplateEngine⦄
    → (params : Dict String)
    → All (λ (e : Option Error). e ≡ none) (template_errors params) ↔ Renders params
unfolding template_errors
template_errors_iff [] = ((λ _. tt), (λ _. tt))
template_errors_iff ((name, value) ∷ params) =
    let (to, from) = template_errors_iff params in
    elim (Result-cases (render_parameter_template value "dummy-node-name")) [
      | inl (text, e) ↦ rw (template_errors, e) ((λ h. ((text, refl), to h)), (λ h. from h.1))
      | inr (x, e) ↦ rw (template_errors, e) ((λ h. absurd (cc (h.0))), (λ h. absurd (cc (h.0.1))))
    ]

module _ {W : Type 0} ⦃f : FailureApi⦄ ⦃t : TemplateEngine⦄ ⦃c : Client W⦄ where
  -- BuildFenceAgentParams succeeds for each of the nodes, one after the other.
  abbrev pub Builds : String → FenceAgentsRemediationSpec → List String → W → Type 0
  Builds namespace spec [] w = Unit
  Builds namespace spec (n ∷ ns) w =
      let ((_, _, failure), w1) = build_fence_agent_params (temp_far n namespace spec) w in
      (failure ≡ none) × Builds namespace spec ns w1

  validate_each_iff :
      (namespace : String) (spec : FenceAgentsRemediationSpec) (ns : List String) (w : W)
      → ((validate_each namespace spec ns w).0 ≡ none) ↔ Builds namespace spec ns w
  unfolding validate_each
  validate_each_iff namespace spec [] w = ((λ _. tt), (λ _. refl))
  validate_each_iff namespace spec (n ∷ ns) w =
      let ((_, _, failure), w1) = build_fence_agent_params (temp_far n namespace spec) w in
      let (to, from) = validate_each_iff namespace spec ns w1 in
      elim (Option-cases failure) [
        | inl e ↦ rw (validate_each, e) ((λ h. (refl, to h)), (λ h. from h.1))
        | inr (x, e) ↦ rw (validate_each, e) ((λ h. absurd (cc h)), (λ h. absurd (cc h.0)))
      ]

validate_agent_name_iff :
    ⦃f : FailureApi⦄
    → (settings : Settings) (agent : String)
    → (validate_agent_name settings agent ≡ none) ↔ (settings.agent_exists agent ≡ ok true)
unfolding validate_agent_name
validate_agent_name_iff ⦃f⦄ settings agent = elim (Result-cases (settings.agent_exists agent)) [
  | inl (b, e) ↦ elim (Bool-cases b) [
    | inl there ↦ rw (validate_agent_name, e, there) ((λ _. refl), (λ _. refl))
    | inr absent ↦ rw (validate_agent_name, e, absent) ((λ h. absurd (cc h)), (λ h. absurd (cc h)))
  ]
  | inr (x, e) ↦
      rw (validate_agent_name, e)
        ((λ h. absurd (cc ((f.new_aggregate-eq-none_iff _).0 h).0)), (λ h. absurd (cc h)))
]

validate_strategy_iff :
    (settings : Settings) (strategy : String)
    → (validate_strategy settings strategy ≡ none) ↔ (
        (strategy == out_of_service_taint_remediation_strategy
          && not settings.is_out_of_service_taint_supported)
        ≡ false)
unfolding validate_strategy
validate_strategy_iff settings strategy = ground arith

module _ {W : Type 0} ⦃f : FailureApi⦄ ⦃t : TemplateEngine⦄ ⦃c : Client W⦄ where
  validate_fence_agent_for_nodes_iff :
      (namespace : String) (spec : FenceAgentsRemediationSpec) (w : W)
      → ((validate_fence_agent_for_nodes namespace spec w).0 ≡ none)
        ↔ ((has_parameters spec ≡ true) × Builds namespace spec (validated_nodes spec) w)
  unfolding validate_fence_agent_for_nodes
  validate_fence_agent_for_nodes_iff namespace spec w =
      let (to, from) = validate_each_iff namespace spec (validated_nodes spec) w in
      elim (Bool-cases (has_parameters spec)) [
        | inl some_given ↦
            rw (validate_fence_agent_for_nodes, some_given) ((λ h. (refl, to h)), (λ h. from h.1))
        | inr none_given ↦
            rw (validate_fence_agent_for_nodes, none_given)
              ((λ h. absurd (cc h)), (λ h. absurd (cc h.0)))
      ]

  -- validateSpec accepts a specification exactly if its agent exists, its strategy is supported, every
  -- shared parameter renders as a template, it has parameters or secrets, and BuildFenceAgentParams
  -- succeeds for each node that it names, or for a placeholder if it names none.
  pub validate_spec-eq-none_iff :
      (settings : Settings) (namespace : String) (spec : FenceAgentsRemediationSpec) (w : W)
      → ((validate_spec settings namespace spec w).0 ≡ none) ↔ (
          (settings.agent_exists spec.agent ≡ ok true)
          × ((spec.remediation_strategy == out_of_service_taint_remediation_strategy
                && not settings.is_out_of_service_taint_supported)
              ≡ false)
          × Renders spec.shared_parameters
          × (has_parameters spec ≡ true)
          × Builds namespace spec (validated_nodes spec) w)
  unfolding validate_spec validate_template_parameters
  validate_spec-eq-none_iff settings namespace spec w =
      let (all, none_of) = f.new_aggregate-eq-none_iff (
        validate_agent_name settings spec.agent
        ∷ validate_strategy settings spec.remediation_strategy
        ∷ validate_template_parameters spec
        ∷ (validate_fence_agent_for_nodes namespace spec w).0
        ∷ []) in
      let (agent, agent') = validate_agent_name_iff settings spec.agent in
      let (strategy, strategy') = validate_strategy_iff settings spec.remediation_strategy in
      let (each, each') = f.new_aggregate-eq-none_iff (template_errors spec.shared_parameters) in
      let (renders, renders') = template_errors_iff spec.shared_parameters in
      let (nodes, nodes') = validate_fence_agent_for_nodes_iff namespace spec w in
      (
        (λ h.
            let (a, (b, (x, (y, _)))) = all h in
            let (given, builds) = nodes y in
            (agent a, strategy b, renders (each x), given, builds)),
        (λ h.
            none_of (agent' h.0, (strategy' h.1, (each' (renders' h.2), (nodes' (h.3, h.4), tt))))),
      )
