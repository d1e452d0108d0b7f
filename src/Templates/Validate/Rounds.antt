-- ===== src/Templates/Validate/Rounds.antt =====
-- internal/controller/fenceagentsremediationtemplate_controller.go: the reconciliations of one
-- validation, each over the template as the one before has left it.
use fence_agents_remediation.Prelude.{
  ℕ, suc, ℤ, ◌+◌, ◌≤◌, String, ◌≡◌, refl, ◌∙◌, Bool, true, ◌||◌, Option, none, some, List, [], ◌∷◌,
  ◌++◌, length, arith, if-both, is_empty, subst, not, Option-cases, inl, inr, ◌^^◌,
}
use fence_agents_remediation.Prelude.Dict.{Dict, has}
use fence_agents_remediation.Errors.{Error, Result, ok, err, Outcome, returned}
use fence_agents_remediation.Objects.{status_unknown}
use fence_agents_remediation.Libraries.Meta.{MetaApi}
use fence_agents_remediation.Libraries.Failures.{FailureApi}
use fence_agents_remediation.Libraries.Client.{Client}
use fence_agents_remediation.Libraries.Template.{TemplateEngine}
use fence_agents_remediation.Libraries.Text.{TextApi}
use fence_agents_remediation.Libraries.Wait.{WaitApi}
use fence_agents_remediation.Api.{FenceAgentsRemediationTemplate}
use fence_agents_remediation.Api.Secrets.{build_fence_agent_params}
use fence_agents_remediation.Cli.Executer.{Ctx, Machine}
use fence_agents_remediation.Templates.Sample.{
  or_empty, get_node_names_from_spec, select_nodes, calculate_sample_size, is_zero,
}
use fence_agents_remediation.Templates.{run_fence_status}
use fence_agents_remediation.Templates.Validate.{
  Verdict, temp_far, set_condition, validation_type, record_result, validate_params, validate_nodes,
  validate_selected, validate_sample, validate_fence_status_for_template, is_settled,
}
use fence_agents_remediation.Templates.Validate.Progress.{validate_nodes-Step}
use fence_agents_remediation.Templates.Validate.Names.{length-sort_strings, select_nodes-prefix}
use fence_agents_remediation.Templates.Validate.Missing.{
  names_of, outdated, missing, missing_le, outdated-set_condition, missing-Alike, missing-started,
  Alike, Lowers, loop-Lowers,
}

module _ {W : Type 0} ⦃m : MetaApi⦄ ⦃f : FailureApi⦄ ⦃tx : TextApi⦄ ⦃te : TemplateEngine⦄
    ⦃wt : WaitApi f⦄ ⦃mc : Machine W⦄ ⦃c : Client W⦄ where
  -- A reconciliation that asks for another one changes the results only.
  abbrev Asking : FenceAgentsRemediationTemplate → Verdict W → Type 0
  Asking a r = r.0.0 ≡ true → Alike a r.0.1

  validate_params-Asking :
      (ctx : Ctx W) (a : FenceAgentsRemediationTemplate) (failed passed : Dict String) (n : String)
      (r : (Dict String × Bool × Option Error) × W)
      → Asking a (validate_params ctx a failed passed n r)
  unfolding validate_params record_result
  validate_params-Asking ctx a failed passed n ((params, retry, some e), w) asks =
      (refl, refl, refl)
  validate_params-Asking ctx a failed passed n ((params, retry, none), w) asks =
      let (result, _) = run_fence_status ctx a.spec.template_spec.agent params w in
      if-both (λ (b : FenceAgentsRemediationTemplate). Alike a b) (not result.is_successful)
        (λ _. (refl, refl, refl)) (λ _. (refl, refl, refl))

  validate_nodes-Asking :
      (ctx : Ctx W) (namespace : String) (a : FenceAgentsRemediationTemplate)
      (failed passed : Dict String) (selected : List String) (w : W)
      → Asking a (validate_nodes ctx namespace a failed passed selected w)
  unfolding validate_nodes
  validate_nodes-Asking ctx namespace a failed passed [] w = λ asks. absurd (ground (arith, asks))
  validate_nodes-Asking ctx namespace a failed passed (n ∷ ns) w =
      if-both (Asking a) (has failed n || has passed n)
        (λ _. validate_nodes-Asking ctx namespace a failed passed ns w)
        (λ _.
          validate_params-Asking ctx a failed passed n
            (build_fence_agent_params (temp_far n namespace a.spec.template_spec) w))

  validate_selected-Lowers :
      (ctx : Ctx W) (namespace : String) (a : FenceAgentsRemediationTemplate)
      (selected rest : List String) (w : W)
      → names_of a ≡ selected ++ rest
      → Lowers a (returned (validate_selected ctx namespace a (outdated a) selected w).0)
  unfolding validate_selected
  validate_selected-Lowers ctx namespace a selected rest w names =
      let started : FenceAgentsRemediationTemplate =
        set_condition a status_unknown "ValidationInProgress"
          ("validating parameters for " ^^ (tx.decimal (length selected) ^^ " node(s)")) in
      let failed = or_empty a.status.validation_failed in
      let passed = or_empty a.status.validation_passed in
      if-both (λ (r : Verdict W). Lowers a (returned r.0)) (outdated a)
        (λ old.
          loop-Lowers a started [] [] selected
            (validate_nodes ctx namespace started [] [] selected w).0
            (validate_nodes-Step ctx namespace started [] [] selected w)
            (validate_nodes-Asking ctx namespace started [] [] selected w) refl
            (λ b alike keeps less.
              missing-started a started b selected rest old (outdated-set_condition a _ _ _) refl
                names alike less))
        (λ current.
          loop-Lowers a a failed passed selected
            (validate_nodes ctx namespace a failed passed selected w).0
            (validate_nodes-Step ctx namespace a failed passed selected w)
            (validate_nodes-Asking ctx namespace a failed passed selected w) refl
            (λ b alike keeps less. missing-Alike a b selected rest current names alike keeps less))

  validate_sample-Lowers :
      (ctx : Ctx W) (namespace : String) (a : FenceAgentsRemediationTemplate) (size : Result ℤ × W)
      → Lowers a (validate_sample ctx namespace a (outdated a) (names_of a) size).0
  unfolding validate_sample
  validate_sample-Lowers ctx namespace a (err e, w) = tt
  validate_sample-Lowers ctx namespace a (ok size, w) =
      if-both (λ (r : Outcome (Bool × FenceAgentsRemediationTemplate) × W). Lowers a r.0)
        (is_zero size) (λ _. tt)
        (λ _. elim (Option-cases (select_nodes size (names_of a))) [
          | inl none_selected ↦ rw none_selected tt
          | inr (selected, chosen) ↦
              let (rest, names) = select_nodes-prefix size (names_of a) selected chosen in
              rw chosen (validate_selected-Lowers ctx namespace a selected rest w names)
        ])

  validate_fence_status_for_template-Lowers :
      (ctx : Ctx W) (namespace : String) (a : FenceAgentsRemediationTemplate) (w : W)
      → Lowers a (validate_fence_status_for_template ctx namespace a w).0
  unfolding validate_fence_status_for_template
  validate_fence_status_for_template-Lowers ctx namespace a w =
      let found = m.find_status_condition a.status.conditions validation_type in
      let names = get_node_names_from_spec a.spec.template_spec in
      if-both (λ (r : Outcome (Bool × FenceAgentsRemediationTemplate) × W). Lowers a r.0)
        (is_settled a found || is_empty names) (λ _. tt)
        (λ _. validate_sample-Lowers ctx namespace a (calculate_sample_size (length names) a w))

-- Reconciliations of a template in a row that each ask for another one: the number of them, the
-- template at the start and the one that they leave. The cluster may be any in each of them.
pub data Asked {W : Type 0} ⦃m : MetaApi⦄ ⦃f : FailureApi⦄ ⦃tx : TextApi⦄ ⦃te : TemplateEngine⦄
    ⦃wt : WaitApi f⦄ ⦃mc : Machine W⦄ (c : Client W) (a : FenceAgentsRemediationTemplate)
    : ℕ → FenceAgentsRemediationTemplate → Type 0 where
  start : Asked c a 0 a
  again :
      {n : ℕ} {b : FenceAgentsRemediationTemplate}
      → Asked c a n b
      → (ctx : Ctx W) (namespace : String) (w : W) (d : FenceAgentsRemediationTemplate)
      → (validate_fence_status_for_template ⦃c = c⦄ ctx namespace b w).0 ≡ returned (true, d)
      → Asked c a (suc n) d

module _ {W : Type 0} ⦃m : MetaApi⦄ ⦃f : FailureApi⦄ ⦃tx : TextApi⦄ ⦃te : TemplateEngine⦄
    ⦃wt : WaitApi f⦄ ⦃mc : Machine W⦄ (c : Client W) where
  Asked-missing :
      {a : FenceAgentsRemediationTemplate} {n : ℕ} {b : FenceAgentsRemediationTemplate}
      → Asked c a n b
      → (b.spec ≡ a.spec) × (n + missing b ≤ missing a)
  Asked-missing start = (refl, omega arith)
  Asked-missing (again {n} {b} before ctx namespace w d asks) =
      let (same, bound) = Asked-missing before in
      let (kept, lower) =
        subst (Lowers b) asks
          (validate_fence_status_for_template-Lowers ⦃c = c⦄ ctx namespace b w) in
      (kept ∙ same, omega (arith, bound, lower))

  -- Reconciliations in a row ask for another one at most as many times as the specification of the
  -- template names nodes, whatever the cluster does in between; so one of them does not ask.
  pub Asked-length_le :
      (n : ℕ) (a b : FenceAgentsRemediationTemplate)
      → Asked c a n b
      → n ≤ length (get_node_names_from_spec a.spec.template_spec)
  Asked-length_le n a b run =
      let (_, bound) = Asked-missing run in
      omega (
        arith,
        bound,
        missing_le a,
        length-sort_strings (get_node_names_from_spec a.spec.template_spec),
      )
