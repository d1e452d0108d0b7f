-- ===== src/Templates.antt =====
-- internal/controller/fenceagentsremediationtemplate_controller.go: the status command that tests the
-- parameters of a template.
pub mod Sample
pub mod Validate
pub mod Outputs
pub mod Status
pub mod Reconcile
use fence_agents_remediation.Prelude.{
  ℤ, pos, String, ◌^^◌, Bool, true, false, not, ◌&&◌, ◌||◌, Option, none, some, List, [], ◌∷◌, ◌==◌,
  is_none, if◌then◌else◌,
}
use text.Mathlib.Text.{find?, starts_with}
use fence_agents_remediation.Prelude.Dict.{Dict}
use fence_agents_remediation.Errors.{Error, error_text}
use fence_agents_remediation.Libraries.Failures.{FailureApi}
use fence_agents_remediation.Libraries.Text.{TextApi}
use fence_agents_remediation.Libraries.Wait.{WaitApi}
use fence_agents_remediation.Api.Params.{action_name, parameter_action_name}
use fence_agents_remediation.Cli.Executer.{Ctx, Machine, sync_execute}

pub record ParameterValidationResult : Type 0 where
  pub is_successful : Bool
  pub text : String

-- statusValidationTimeout, in nanoseconds.
abbrev pub status_validation_timeout : ℤ
status_validation_timeout = pos 15000000000

abbrev pub timed_out_text : String
timed_out_text = "status command timed out after 15s"

-- The loop of runFenceStatus that adds the parameters.
unfoldable pub status_args : Dict String → List String
status_args [] = []
status_args ((name, value) ∷ params) =
    let rest = status_args params in
    if not (name == action_name) && not (name == parameter_action_name)
    then name ∷ (if not (value == "") then value ∷ rest else rest)
    else rest

-- The command of runFenceStatus.
unfoldable pub status_command : String → Dict String → List String
unfolding status_args
status_command agent params = agent ∷ parameter_action_name ∷ "status" ∷ status_args params

module _ ⦃tx : TextApi⦄ where
  -- Whether the output of a status command says that the node is on.
  unfoldable pub says_on : String → Bool
  says_on stdout =
      let upper_output = tx.to_upper stdout in
      not (is_none (find? upper_output "STATUS: ON"))
      || not (is_none (find? upper_output "STATUS:ON"))
      || starts_with (tx.trim_space upper_output) "ON"

abbrev pub outputs_text : String → String → String
outputs_text stderr stdout = " (stderr: " ^^ (stderr ^^ (", stdout: " ^^ (stdout ^^ ")")))

-- runFenceStatus from the point where the command has ended.
unfoldable pub judge_status :
    ⦃f : FailureApi⦄
    → ⦃tx : TextApi⦄ → String × String × Option Error × Option Error
    → ParameterValidationResult
unfolding says_on
judge_status ⦃f⦄ ⦃tx⦄ (stdout, stderr, some e, cmd_err) =
    if f.interrupted e then record { is_successful = false; text = timed_out_text } else record {
      is_successful = false;
      text = "fence agent command retry failed: " ^^ (error_text e ^^ outputs_text stderr stdout);
    }
judge_status (stdout, stderr, none, some e) = record {
  is_successful = false;
  text = "fence agent command failed: " ^^ (error_text e ^^ outputs_text stderr stdout);
}
judge_status (stdout, stderr, none, none) =
    if says_on stdout then record { is_successful = true; text = "" } else record {
      is_successful = false;
      text =
          "fence agent command completed but status is not ON (stdout: "
          ^^ (stdout ^^ (", stderr: " ^^ (stderr ^^ ")")));
    }

module _ {W : Type 0} ⦃f : FailureApi⦄ ⦃tx : TextApi⦄ ⦃wt : WaitApi f⦄ ⦃mc : Machine W⦄ where
  -- runFenceStatus
  unfoldable pub run_fence_status : Ctx W → String → Dict String → W → ParameterValidationResult × W
  unfolding status_command judge_status
  run_fence_status ctx agent params w =
      let (outcome, w1) =
        sync_execute ctx (status_command agent params) (pos 1) (pos 0) status_validation_timeout
          w in
      (judge_status outcome, w1)
