-- ===== src/Startup/Support.antt =====
-- cmd/main.go with pkg/validation/validation.go and api/v1alpha1/fenceagentsremediation_params.go: on
-- which clusters the webhooks of a program accept the strategy OutOfServiceTaint.
use fence_agents_remediation.Prelude.{
  String, ◌^^◌, ◌≡◌, ◌≢◌, subst, sym, ap, ◌∙◌, ◌↔◌, ◌⊎◌, inl, inr, true, false, Option, none, some,
  arith, eq_iff,
}
use fence_agents_remediation.Errors.{Error}
use fence_agents_remediation.Libraries.Failures.{FailureApi}
use fence_agents_remediation.Libraries.Text.{TextApi}
use fence_agents_remediation.Api.{out_of_service_taint_remediation_strategy}
use fence_agents_remediation.Validation.{
  OutOfServiceTaintValidator, new_out_of_service_taint_validator, with_version, checked_validator,
}
use fence_agents_remediation.Validation.Version.{
  IsVersion, HasTaint, set_out_of_service_taint_supported_flag-HasTaint,
}
use fence_agents_remediation.Admission.{Settings, validate_strategy}
use fence_agents_remediation.Startup.{Flags, Host, Program, goes_on, connect, main}
use fence_agents_remediation.Startup.Runs.{main-goes_on}

validate_strategy-eq-none_iff :
    (settings : Settings) (strategy : String)
    → (validate_strategy settings strategy ≡ none) ↔ (
        (strategy ≢ out_of_service_taint_remediation_strategy)
        ⊎ (settings.is_out_of_service_taint_supported ≡ true))
unfolding validate_strategy
validate_strategy-eq-none_iff settings strategy =
    let equal = eq_iff strategy out_of_service_taint_remediation_strategy in
    (λ h. ground (arith, equal), λ h. ground (arith, equal))

checked_validator-some :
    (r : Option Error × OutOfServiceTaintValidator) {v : OutOfServiceTaintValidator}
    → r.0 ≡ none
    → (checked_validator r).0 ≡ some v
    → r.1 ≡ v
checked_validator-some (none, x) h k = cc
checked_validator-some (some e, x) h k = cc

-- For a program that has started on a cluster with a version of digits, whose minor part may go on with
-- anything that does not begin with a digit: validateStrategy refuses exactly the strategy
-- OutOfServiceTaint on a version before 1.26.
pub validate_strategy-main :
    {W P : Type 0} ⦃f : FailureApi⦄ ⦃t : TextApi⦄ (host : Host W P) (flags : Flags) (w : W)
    (major minor rest strategy : String) {program : Program}
    → (main host flags w).0 ≡ goes_on program
    → (host.new_for_config (connect host flags w).1).0
      ≡ (some (some (record { major = major; minor = minor ^^ rest }), none), none)
    → IsVersion major minor rest
    → (validate_strategy program.settings strategy ≡ none)
      ↔ ((strategy ≢ out_of_service_taint_remediation_strategy) ⊎ HasTaint major minor)
unfolding new_out_of_service_taint_validator with_version
validate_strategy-main host flags w major minor rest strategy {program} h version is =
    let (p, v, made, program_is) = main-goes_on host flags w h in
    let (fine, flag) =
      set_out_of_service_taint_supported_flag-HasTaint major minor rest
        (record { is_out_of_service_taint_supported = false }) is in
    let v_is = checked_validator-some _ fine (rw version at made) in
    let flag_is =
      subst (λ x. (x.is_out_of_service_taint_supported ≡ true) ↔ HasTaint major minor) v_is flag in
    let settings_are =
      ap (λ (x : Program). x.settings.is_out_of_service_taint_supported) program_is in
    let (to, from) = validate_strategy-eq-none_iff program.settings strategy in
    (
      (λ accepted. elim (to accepted) [
        | inl other ↦ inl other
        | inr supported ↦ inr (flag_is.0 (sym settings_are ∙ supported))
      ]),
      (λ h.
          from
            (elim h [ inl other ↦ inl other | inr later ↦ inr (settings_are ∙ flag_is.1 later) ])),
    )
