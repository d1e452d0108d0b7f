-- ===== src/Tests/Templates.antt =====
-- Validations of templates at concrete inputs.
use fence_agents_remediation.Prelude.{
  ℕ, ℤ, pos, ◌≡◌, refl, Bool, true, ◌↔◌, length, ◌≤◌, none, some, [], ◌∷◌,
}
use fence_agents_remediation.Prelude.Dict.{keys, put, has, get}
use fence_agents_remediation.Api.Secrets.{
  build_fence_agent_params, collect_all_secret_params, collect_shared_secret_params,
  collect_secret_params,
}
use fence_agents_remediation.Errors.{Result, ok, err, Outcome, returned, panicked, message}
use fence_agents_remediation.Libraries.Text.{TextApi}
use fence_agents_remediation.Api.{IntOrString, int, str, FenceAgentsRemediationTemplate}
use fence_agents_remediation.Templates.{ParameterValidationResult, run_fence_status}
use fence_agents_remediation.Templates.Outputs.{IsOn}
use fence_agents_remediation.Templates.Status.{run_fence_status-IsVerdict}
use fence_agents_remediation.Templates.Validate.{temp_far, validate_fence_status_for_template}
use fence_agents_remediation.Templates.Validate.Rounds.{Asked, start, again, Asked-length_le}
use fence_agents_remediation.Templates.Sample.{get_node_names_from_spec}
use fence_agents_remediation.Tests.Cluster.{World, memory}
use fence_agents_remediation.Cli.Executer.{Machine}
use fence_agents_remediation.Tests.Executer.{empty_world}
use fence_agents_remediation.Tests.Libraries.{simple_failures, list_meta, node_engine}
use fence_agents_remediation.Tests.Resources.{plain_meta, ipmi_spec}
use fence_agents_remediation.Tests.Waiting.{simple_wait, background, flaky}

abbrev scale : IntOrString → ℕ → Bool → Result ℤ
scale (int n) total round_up = ok n
scale (str s) total round_up = err (message "invalid value for IntOrString")

instance abbrev pub simple_text : TextApi
simple_text = record {
  to_upper = λ s. s;
  trim_space = λ s. s;
  decimal = λ n. "some";
  quote = λ s. s;
  sample_text = λ o. "a sample";
  scaled_value = scale;
  scaled_value-int = λ n total round_up. refl;
}

-- An agent that says in capitals that the node is on.
abbrev answering : Machine World
answering = record {
  runner = λ ctx timeout command w. (("STATUS: ON", "", none), record w { clock = 9 });
  sleep = λ interval w. w;
  default_pause = λ w. w;
}

abbrev status_on : ParameterValidationResult × World
status_on =
    run_fence_status ⦃mc = answering⦄ background "fence_ipmilan" (("--ip", "host") ∷ []) empty_world

run_fence_status-IsVerdict_example :
    ((status_on.0.is_successful ≡ true) ↔ IsOn "STATUS: ON")
    × (status_on.1 ≡ record empty_world { clock = 9 })
run_fence_status-IsVerdict_example =
    run_fence_status-IsVerdict ⦃mc = answering⦄ background "fence_ipmilan" (("--ip", "host") ∷ [])
      empty_world (record empty_world { clock = 9 }) "STATUS: ON" "" none refl refl

abbrev template : FenceAgentsRemediationTemplate
template = record {
  meta = plain_meta;
  spec = record { status_validation_sample = some (int (pos 2)); template_spec = ipmi_spec };
  status = record { conditions = []; validation_failed = none; validation_passed = none };
}

-- Two reconciliations of the template, one for each of its nodes.
abbrev left_by : Outcome (Bool × FenceAgentsRemediationTemplate) → FenceAgentsRemediationTemplate
left_by panicked = template
left_by (returned (asks, fart)) = fart

abbrev once : FenceAgentsRemediationTemplate
once = left_by (validate_fence_status_for_template background "far" template empty_world).0

abbrev twice : FenceAgentsRemediationTemplate
twice = left_by (validate_fence_status_for_template background "far" once empty_world).0

two_nodes : Asked memory template 2 twice
unfolding validate_fence_status_for_template keys put has get build_fence_agent_params
    collect_all_secret_params collect_shared_secret_params temp_far collect_secret_params
two_nodes =
    again (again start background "far" empty_world once refl) background "far" empty_world twice
      refl

Asked-length_le_example : 2 ≤ length (get_node_names_from_spec ipmi_spec)
Asked-length_le_example = Asked-length_le memory 2 template twice two_nodes
