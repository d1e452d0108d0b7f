-- ===== src/Templates/Validate/Progress.antt =====
-- internal/controller/fenceagentsremediationtemplate_controller.go: the progress of a validation
-- over several reconciliations.
use fence_agents_remediation.Prelude.{
  ℕ, suc, ◌≤◌, ◌<◌, String, ◌≡◌, refl, Bool, true, false, ◌||◌, Option, none, some, List, [], ◌∷◌,
  ◌==◌, eq_iff, arith, if◌then◌else◌, if-both, is_empty,
}
use fence_agents_remediation.Prelude.Dict.{Dict, has, put}
use fence_agents_remediation.Errors.{Error}
use fence_agents_remediation.Objects.{ConditionStatus, status_true}
use fence_agents_remediation.Libraries.Meta.{MetaApi, same_status}
use fence_agents_remediation.Libraries.Failures.{FailureApi}
use fence_agents_remediation.Libraries.Client.{Client}
use fence_agents_remediation.Libraries.Template.{TemplateEngine}
use fence_agents_remediation.Libraries.Text.{TextApi}
use fence_agents_remediation.Libraries.Wait.{WaitApi}
use fence_agents_remediation.Api.{FenceAgentsRemediationTemplate}
use fence_agents_remediation.Api.Secrets.{build_fence_agent_params}
use fence_agents_remediation.Cli.Executer.{Ctx, Machine}
use fence_agents_remediation.Templates.Sample.{or_empty}
use fence_agents_remediation.Templates.{ParameterValidationResult}
use fence_agents_remediation.Templates.Validate.{
  Verdict, temp_far, with_results, set_condition, validation_condition, validation_type, conclude,
  record_result, validate_params, validate_nodes,
}

-- The selected nodes that have no result yet.
abbrev pub remaining : Dict String → Dict String → List String → ℕ
remaining failed passed [] = 0
remaining failed passed (n ∷ ns) =
    let rest = remaining failed passed ns in if has failed n || has passed n then rest else suc rest

abbrev pub remaining_in : FenceAgentsRemediationTemplate → List String → ℕ
remaining_in fart ns =
    remaining (or_empty fart.status.validation_failed) (or_empty fart.status.validation_passed) ns

has-put :
    (m : Dict String) (k j v : String) → has (put m k v) j ≡ (if k == j then true else has m j)
unfolding has put
has-put [] k j v = ground arith
has-put ((i, w) ∷ m) k j v = ground (arith, has-put m k j v, eq_iff k j, eq_iff i k, eq_iff i j)

remaining-put-failed :
    (failed passed : Dict String) (k v : String) (ns : List String)
    → remaining (put failed k v) passed ns ≤ remaining failed passed ns
remaining-put-failed failed passed k v [] = ground arith
remaining-put-failed failed passed k v (n ∷ ns) =
    ground (arith, has-put failed k n v, remaining-put-failed failed passed k v ns)

remaining-put-passed :
    (failed passed : Dict String) (k v : String) (ns : List String)
    → remaining failed (put passed k v) ns ≤ remaining failed passed ns
remaining-put-passed failed passed k v [] = ground arith
remaining-put-passed failed passed k v (n ∷ ns) =
    ground (arith, has-put passed k n v, remaining-put-passed failed passed k v ns)

-- The node that was validated has a result.
remaining-record_result :
    (fart : FenceAgentsRemediationTemplate) (failed passed : Dict String) (n : String)
    (result : ParameterValidationResult) (ns : List String)
    → (has failed n || has passed n) ≡ false
    → remaining_in (record_result fart failed passed n result) (n ∷ ns)
      < remaining failed passed (n ∷ ns)
unfolding record_result
remaining-record_result fart failed passed n result ns fresh = ground (
  arith,
  has-put failed n n result.text,
  has-put passed n n "Success",
  eq_iff n n,
  remaining-put-failed failed passed n result.text ns,
  remaining-put-passed failed passed n "Success" ns,
)

remaining-params_error :
    (fart : FenceAgentsRemediationTemplate) (failed passed : Dict String) (n text : String)
    (ns : List String)
    → (has failed n || has passed n) ≡ false
    → remaining_in (with_results fart (put failed n text) passed) (n ∷ ns)
      < remaining failed passed (n ∷ ns)
remaining-params_error fart failed passed n text ns fresh =
    ground
      (arith, has-put failed n n text, eq_iff n n, remaining-put-failed failed passed n text ns)

-- Every node with a result still has one.
abbrev pub Keeps : Dict String → Dict String → FenceAgentsRemediationTemplate → Type 0
Keeps failed passed fart =
    (k : String)
    → (has failed k || has passed k) ≡ true
    → (has (or_empty fart.status.validation_failed) k
        || has (or_empty fart.status.validation_passed) k)
      ≡ true

record_result-Keeps :
    (fart : FenceAgentsRemediationTemplate) (failed passed : Dict String) (n : String)
    (result : ParameterValidationResult)
    → Keeps failed passed (record_result fart failed passed n result)
unfolding record_result
record_result-Keeps fart failed passed n result k h =
    ground (arith, has-put failed n k result.text, has-put passed n k "Success")

with_results-Keeps :
    (fart : FenceAgentsRemediationTemplate) (failed passed : Dict String) (n text : String)
    → Keeps failed passed (with_results fart (put failed n text) passed)
with_results-Keeps fart failed passed n text k h = ground (arith, has-put failed n k text)

set_condition-status :
    ⦃m : MetaApi⦄
    → (fart : FenceAgentsRemediationTemplate) (status : ConditionStatus) (reason text : String)
    → m.is_status_condition_true
        (set_condition fart status reason text).status.conditions
        validation_type
      ≡ same_status status status_true
set_condition-status ⦃m⦄ fart status reason text =
    let c = validation_condition fart status reason text in
    ground (
      arith,
      m.find-set fart.status.conditions c validation_type,
      m.is_true_lem (m.set_status_condition fart.status.conditions c) validation_type,
    )

conclude-succeeded :
    ⦃m : MetaApi⦄
    → ⦃tx : TextApi⦄ → (fart : FenceAgentsRemediationTemplate) (failed : Dict String)
    → m.is_status_condition_true (conclude fart failed).status.conditions validation_type
      ≡ is_empty failed
unfolding conclude
conclude-succeeded fart [] = set_condition-status (with_results fart [] []) _ _ _
conclude-succeeded fart (x ∷ xs) = set_condition-status (with_results fart (x ∷ xs) []) _ _ _

-- What one reconciliation does, over the results so far and the selected nodes.
abbrev pub Step :
    ⦃m : MetaApi⦄
    → Dict String
    → Dict String
    → List String
    → Bool × FenceAgentsRemediationTemplate
    → Type 0
Step ⦃m⦄ failed passed ns (requeue, fart) =
    if requeue
    then Keeps failed passed fart × (remaining_in fart ns < remaining failed passed ns)
    else (remaining failed passed ns ≡ 0)
      × (m.is_status_condition_true fart.status.conditions validation_type ≡ is_empty failed)

skip-Step :
    ⦃m : MetaApi⦄
    → (failed passed : Dict String) (n : String) (ns : List String)
      (r : Bool × FenceAgentsRemediationTemplate)
    → (has failed n || has passed n) ≡ true
    → Step failed passed ns r
    → Step failed passed (n ∷ ns) r
skip-Step failed passed n ns (true, fart) old (keeps, less) = (keeps, ground (arith, keeps n old))
skip-Step failed passed n ns (false, fart) old (all, verdict) = (ground arith, verdict)

module _ {W : Type 0} ⦃m : MetaApi⦄ ⦃f : FailureApi⦄ ⦃tx : TextApi⦄ ⦃te : TemplateEngine⦄
    ⦃wt : WaitApi f⦄ ⦃mc : Machine W⦄ ⦃c : Client W⦄ where
  validate_params-Step :
      (ctx : Ctx W) (fart : FenceAgentsRemediationTemplate) (failed passed : Dict String)
      (n : String) (ns : List String) (r : (Dict String × Bool × Option Error) × W)
      → (has failed n || has passed n) ≡ false
      → Step failed passed (n ∷ ns) (validate_params ctx fart failed passed n r).0
  unfolding validate_params
  validate_params-Step ctx fart failed passed n ns ((params, retry, some e), w) fresh = (
    with_results-Keeps fart failed passed n _,
    remaining-params_error fart failed passed n _ ns fresh,
  )
  validate_params-Step ctx fart failed passed n ns ((params, retry, none), w) fresh = (
    record_result-Keeps fart failed passed n _,
    remaining-record_result fart failed passed n _ ns fresh,
  )

  pub validate_nodes-Step :
      (ctx : Ctx W) (namespace : String) (fart : FenceAgentsRemediationTemplate)
      (failed passed : Dict String) (selected : List String) (w : W)
      → Step failed passed selected (validate_nodes ctx namespace fart failed passed selected w).0
  unfolding validate_nodes
  validate_nodes-Step ctx namespace fart failed passed [] w = (refl, conclude-succeeded fart failed)
  validate_nodes-Step ctx namespace fart failed passed (n ∷ ns) w =
      let skipped = (validate_nodes ctx namespace fart failed passed ns w).0 in
      let built = build_fence_agent_params (temp_far n namespace fart.spec.template_spec) w in
      if-both (λ (r : Verdict W). Step failed passed (n ∷ ns) r.0) (has failed n || has passed n)
        (λ old.
          skip-Step failed passed n ns skipped old
            (validate_nodes-Step ctx namespace fart failed passed ns w))
        (λ fresh. validate_params-Step ctx fart failed passed n ns built fresh)
