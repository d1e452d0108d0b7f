-- ===== src/Templates/Reconcile.antt =====
-- internal/controller/fenceagentsremediationtemplate_controller.go: Reconcile.
use fence_agents_remediation.Prelude.{
  String, Bool, false, Option, none, some, [], ◌∷◌, if◌then◌else◌,
}
use fence_agents_remediation.Errors.{Error, Result, ok, err, Outcome, returned, panicked}
use fence_agents_remediation.Libraries.Meta.{MetaApi}
use fence_agents_remediation.Libraries.Failures.{FailureApi}
use fence_agents_remediation.Libraries.Client.{Client}
use fence_agents_remediation.Libraries.Template.{TemplateEngine}
use fence_agents_remediation.Libraries.Text.{TextApi}
use fence_agents_remediation.Libraries.Wait.{WaitApi}
use fence_agents_remediation.Api.{FenceAgentsRemediationTemplate}
use fence_agents_remediation.Cli.Executer.{Ctx, Machine}
use fence_agents_remediation.Templates.Validate.{validate_fence_status_for_template}

-- What Reconcile returns: whether to requeue, and an error.
abbrev pub TemplateAnswer : Type 0
TemplateAnswer = Bool × Option Error

-- The deferred patch of the status, which is made on a panic too, and what it adds to the error.
unfoldable pub join_patch : ⦃f : FailureApi⦄ → Option Error → Outcome Bool → Outcome TemplateAnswer
join_patch update_err panicked = panicked
join_patch none (returned requeue) = returned (requeue, none)
join_patch ⦃f⦄ (some e) (returned requeue) =
    returned (requeue, f.new_aggregate (some e ∷ none ∷ []))

module _ {W : Type 0} ⦃m : MetaApi⦄ ⦃f : FailureApi⦄ ⦃tx : TextApi⦄ ⦃te : TemplateEngine⦄
    ⦃wt : WaitApi f⦄ ⦃mc : Machine W⦄ ⦃c : Client W⦄ where
  -- Reconcile on the outcome of the validation; a panic leaves the template as it was read.
  unfoldable pub patch_template :
      FenceAgentsRemediationTemplate
      → Outcome (Bool × FenceAgentsRemediationTemplate) × W
      → Outcome TemplateAnswer × W
  unfolding join_patch
  patch_template orig (panicked, w) =
      let (update_err, w1) = c.patch_template_status orig w in (join_patch update_err panicked, w1)
  patch_template orig (returned (requeue, fart), w) =
      let (update_err, w1) = c.patch_template_status fart w in
      (join_patch update_err (returned requeue), w1)

  -- Reconcile on what the call of Get has returned.
  unfoldable pub reconcile_found :
      Ctx W → String → Result FenceAgentsRemediationTemplate × W → Outcome TemplateAnswer × W
  unfolding patch_template validate_fence_status_for_template
  reconcile_found ctx namespace (err e, w) =
      (returned (false, (if f.is_not_found e then none else some e)), w)
  reconcile_found ctx namespace (ok fart, w) =
      patch_template fart (validate_fence_status_for_template ctx namespace fart w)

  -- Reconcile, for a request with a namespace and a name.
  unfoldable pub reconcile_template : Ctx W → String → String → W → Outcome TemplateAnswer × W
  unfolding reconcile_found
  reconcile_template ctx namespace name w =
      reconcile_found ctx namespace (c.get_template namespace name w)
