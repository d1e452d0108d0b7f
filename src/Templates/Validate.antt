-- ===== src/Templates/Validate.antt =====
-- internal/controller/fenceagentsremediationtemplate_controller.go: the validation of a template, one
-- node in each reconciliation.
pub mod Progress
pub mod Names
pub mod Missing
pub mod Rounds
use Prim.Native.String.{compare}
use text.Mathlib.Text.{is_le}
use fence_agents_remediation.Prelude.{
  ℕ, zero, suc, ℤ, pos, negsuc, String, ◌^^◌, Bool, true, false, not, ◌&&◌, ◌||◌, Option, none,
  some, List, [], ◌∷◌, length, is_empty, is_none, eqb, ltb, if◌then◌else◌,
}
use fence_agents_remediation.Prelude.Dict.{Dict, has, put, keys}
use fence_agents_remediation.Errors.{
  Error, error_text, Result, ok, err, Outcome, returned, panicked,
}
use fence_agents_remediation.Objects.{
  Condition, ConditionStatus, status_true, status_false, status_unknown,
}
use fence_agents_remediation.Libraries.Meta.{MetaApi, has_status}
use fence_agents_remediation.Libraries.Failures.{FailureApi}
use fence_agents_remediation.Libraries.Client.{Client, warning}
use fence_agents_remediation.Libraries.Template.{TemplateEngine}
use fence_agents_remediation.Libraries.Text.{TextApi}
use fence_agents_remediation.Libraries.Wait.{WaitApi}
use fence_agents_remediation.Api.{
  FenceAgentsRemediation, FenceAgentsRemediationSpec, FenceAgentsRemediationTemplate,
}
use fence_agents_remediation.Api.Secrets.{build_fence_agent_params}
use fence_agents_remediation.Cli.Executer.{Ctx, Machine}
use fence_agents_remediation.Templates.{run_fence_status, ParameterValidationResult}
use fence_agents_remediation.Templates.Sample.{
  get_node_names_from_spec, add_names, add_all_names, sort_strings, insert_sorted, select_nodes,
  first_names, is_zero, or_empty, calculate_sample_size,
}

abbrev pub validation_type : String
validation_type = "FenceAgentStatusValidationSucceeded"

-- The condition of a template at its generation.
abbrev pub validation_condition :
    FenceAgentsRemediationTemplate → ConditionStatus → String → String → Condition
validation_condition fart status reason text = record {
  kind = validation_type;
  status = status;
  reason = reason;
  text = text;
  observed_generation = fart.meta.generation;
}

-- `validationFinished && !needsNewValidation` and `needsNewValidation`, on the condition that is found.
abbrev pub is_outdated : FenceAgentsRemediationTemplate → Option Condition → Bool
is_outdated fart none = true
is_outdated fart (some c) = not (eqb fart.meta.generation c.observed_generation)

abbrev pub is_settled : FenceAgentsRemediationTemplate → Option Condition → Bool
is_settled fart none = false
is_settled fart (some c) =
    not (has_status (some c) status_unknown) && not (is_outdated fart (some c))

-- The temporary FenceAgentsRemediation for a node.
unfoldable pub temp_far : String → String → FenceAgentsRemediationSpec → FenceAgentsRemediation
temp_far name namespace spec = record {
  meta = record {
    name = name;
    namespace = namespace;
    uid = "";
    generation = 0;
    annotations = none;
    finalizers = [];
    creation_timestamp = none;
    deletion_timestamp = none;
  };
  spec = spec;
  status = record { conditions = []; last_update_time = none };
}

module _ ⦃m : MetaApi⦄ where
  abbrev pub set_condition :
      FenceAgentsRemediationTemplate
      → ConditionStatus
      → String
      → String
      → FenceAgentsRemediationTemplate
  set_condition fart status reason text = record fart {
    status = record fart.status {
      conditions =
          m.set_status_condition fart.status.conditions
            (validation_condition fart status reason text);
    };
  }

-- A reply: whether to requeue, the template, and the cluster.
abbrev pub Verdict : Type 0 → Type 0
Verdict W = (Bool × FenceAgentsRemediationTemplate) × W

abbrev pub with_results :
    FenceAgentsRemediationTemplate → Dict String → Dict String → FenceAgentsRemediationTemplate
with_results fart failed passed = record fart {
  status = record fart.status { validation_failed = some failed; validation_passed = some passed };
}

-- The end of validateFenceStatusForTemplate, when every selected node has a result.
unfoldable pub conclude :
    ⦃m : MetaApi⦄
    → ⦃tx : TextApi⦄ → FenceAgentsRemediationTemplate
    → Dict String
    → FenceAgentsRemediationTemplate
conclude ⦃m⦄ ⦃tx⦄ fart failed =
    let cleared = with_results fart failed [] in
    if is_empty failed
    then set_condition cleared status_true "ValidationSucceeded" "parameters validation succeeded"
    else set_condition cleared status_false "ValidationFailed"
        ("parameters validation failed for " ^^ (tx.decimal (length failed) ^^ " node(s)"))

-- What a result of runFenceStatus adds to ValidationFailed or ValidationPassed.
unfoldable pub record_result :
    FenceAgentsRemediationTemplate
    → Dict String
    → Dict String
    → String
    → ParameterValidationResult
    → FenceAgentsRemediationTemplate
record_result fart failed passed n result =
    if not result.is_successful
    then with_results fart (put failed n result.text) passed
    else with_results fart failed (put passed n "Success")

module _ {W : Type 0} ⦃m : MetaApi⦄ ⦃f : FailureApi⦄ ⦃tx : TextApi⦄ ⦃te : TemplateEngine⦄
    ⦃wt : WaitApi f⦄ ⦃mc : Machine W⦄ ⦃c : Client W⦄ where
  -- The body of the loop for a node that has no result yet, on the parameters of its temporary resource.
  unfoldable pub validate_params :
      Ctx W
      → FenceAgentsRemediationTemplate
      → Dict String
      → Dict String
      → String
      → (Dict String × Bool × Option Error) × W
      → Verdict W
  unfolding record_result
  validate_params ctx fart failed passed n ((params, retry, some e), w) =
      ((true, with_results fart (put failed n (error_text e)) passed), w)
  validate_params ctx fart failed passed n ((params, retry, none), w) =
      let (result, w1) = run_fence_status ctx fart.spec.template_spec.agent params w in
      ((true, record_result fart failed passed n result), w1)

  -- The loop of validateFenceStatusForTemplate over the selected nodes.
  unfoldable pub validate_nodes :
      Ctx W
      → String
      → FenceAgentsRemediationTemplate
      → Dict String
      → Dict String
      → List String
      → W
      → Verdict W
  unfolding conclude validate_params
  validate_nodes ctx namespace fart failed passed [] w = ((false, conclude fart failed), w)
  validate_nodes ctx namespace fart failed passed (n ∷ ns) w =
      if has failed n || has passed n
      then validate_nodes ctx namespace fart failed passed ns w
      else validate_params ctx fart failed passed n
          (build_fence_agent_params (temp_far n namespace fart.spec.template_spec) w)

  -- From the point where the nodes are selected.
  unfoldable pub validate_selected :
      Ctx W → String → FenceAgentsRemediationTemplate → Bool → List String → W → Verdict W
  unfolding validate_nodes
  validate_selected ctx namespace fart needs_new selected w =
      if needs_new
      then validate_nodes ctx namespace
          (set_condition fart status_unknown "ValidationInProgress"
            ("validating parameters for " ^^ (tx.decimal (length selected) ^^ " node(s)")))
          [] [] selected w
      else validate_nodes ctx namespace fart (or_empty fart.status.validation_failed)
          (or_empty fart.status.validation_passed) selected w

  -- From the point where the size of the sample is known.
  unfoldable pub validate_sample :
      Ctx W
      → String
      → FenceAgentsRemediationTemplate
      → Bool
      → List String
      → Result ℤ × W
      → Outcome (Bool × FenceAgentsRemediationTemplate) × W
  unfolding validate_selected select_nodes
  validate_sample ctx namespace fart needs_new names (err e, w) = (
    returned (
      false,
      set_condition fart status_false "ValidationFailed" (
          "parameters validation failed invalid value of StatusValidationSample: "
          ^^ tx.sample_text fart.spec.status_validation_sample),
    ),
    c.event warning fart.meta.name "InvalidStatusValidationSample"
        "Invalid value for StatusValidationSample" w,
  )
  validate_sample ctx namespace fart needs_new names (ok size, w) =
      if is_zero size
      then (
        returned (
          false,
          record fart {
            status = record {
              conditions = m.remove_status_condition fart.status.conditions validation_type;
              validation_failed = none;
              validation_passed = none;
            };
          },
        ),
        w,
      )
      else elim (select_nodes size names) [
        | none ↦ (panicked, w)
        | some selected ↦
            let (verdict, w1) = validate_selected ctx namespace fart needs_new selected w in
            (returned verdict, w1)
      ]

  -- validateFenceStatusForTemplate
  unfoldable pub validate_fence_status_for_template :
      Ctx W
      → String
      → FenceAgentsRemediationTemplate
      → W
      → Outcome (Bool × FenceAgentsRemediationTemplate) × W
  unfolding validate_sample get_node_names_from_spec sort_strings calculate_sample_size
  validate_fence_status_for_template ctx namespace fart w =
      let found = m.find_status_condition fart.status.conditions validation_type in
      let names = get_node_names_from_spec fart.spec.template_spec in
      if is_settled fart found || is_empty names
      then (returned (false, fart), w)
      else validate_sample ctx namespace fart (is_outdated fart found) (sort_strings names)
          (calculate_sample_size (length names) fart w)
