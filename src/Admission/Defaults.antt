-- ===== src/Admission/Defaults.antt =====
-- internal/webhook/v1alpha1: what the defaulting webhooks write.
use fence_agents_remediation.Prelude.{
  String, ◌≡◌, refl, Bool, false, not, ◌&&◌, Option, none, some, [], ◌==◌, is_none, subst, if-both,
  if◌then◌else◌, arith,
}
use fence_agents_remediation.Prelude.Dict.{Dict, has, put}
use fence_agents_remediation.Errors.{wrapped, Result, ok, err}
use fence_agents_remediation.Objects.{Secret}
use fence_agents_remediation.Libraries.Failures.{FailureApi}
use fence_agents_remediation.Libraries.Client.{Client}
use fence_agents_remediation.Api.{
  FenceAgentsRemediation, FenceAgentsRemediationSpec, FenceAgentsRemediationTemplate,
}
use fence_agents_remediation.Admission.{old_default_secret_name}

-- SharedSecretName is a custom value.
abbrev pub is_custom : Option String → Bool
is_custom none = false
is_custom (some name) = not (name == old_default_secret_name)

-- applySharedSecretDefaultNameToSpec on what the lookup of the secret has returned.
unfoldable pub default_name :
    ⦃f : FailureApi⦄
    → Bool
    → FenceAgentsRemediationSpec
    → Result Secret
    → Result FenceAgentsRemediationSpec
default_name is_create spec (ok secret) =
    if is_create && is_none spec.shared_secret_name
    then ok (record spec { shared_secret_name = some old_default_secret_name })
    else ok spec
default_name ⦃f⦄ is_create spec (err e) =
    if f.is_not_found e
    then ok (
        if is_none spec.shared_secret_name then spec else record spec { shared_secret_name = none })
    else err (wrapped "failed to check for shared secret: " e)

module _ {W : Type 0} ⦃f : FailureApi⦄ ⦃c : Client W⦄ where
  -- applySharedSecretDefaultNameToSpec
  unfoldable pub apply_shared_secret_default_name_to_spec :
      FenceAgentsRemediationSpec → String → Bool → W → Result FenceAgentsRemediationSpec × W
  unfolding default_name
  apply_shared_secret_default_name_to_spec spec namespace is_create w =
      if is_custom spec.shared_secret_name
      then (ok spec, w)
      else (let (r, w1) = c.get_secret old_default_secret_name namespace w in
          (default_name is_create spec r, w1))

  -- farDefaulter.Default
  unfoldable pub default_far : FenceAgentsRemediation → W → Result FenceAgentsRemediation × W
  unfolding apply_shared_secret_default_name_to_spec
  default_far far w =
      let (r, w1) =
        apply_shared_secret_default_name_to_spec far.spec far.meta.namespace
          (is_none far.meta.creation_timestamp) w in
      elim r [ ok spec ↦ (ok (record far { spec = spec }), w1) | err e ↦ (err e, w1) ]

-- commonAnnotations.MultipleTemplatesSupportedAnnotation
abbrev multiple_templates_supported : String
multiple_templates_supported = "remediation.medik8s.io/multiple-templates-support"

abbrev or_made : Option (Dict String) → Dict String
or_made none = []
or_made (some annotations) = annotations

-- The part of farTemplateDefaulter.Default for the annotations.
unfoldable pub annotate : FenceAgentsRemediationTemplate → FenceAgentsRemediationTemplate
annotate tmpl =
    let annotations = or_made tmpl.meta.annotations in
    record tmpl {
      meta = record tmpl.meta {
        annotations = some (
            if has annotations multiple_templates_supported
            then annotations
            else put annotations multiple_templates_supported "true");
      };
    }

module _ {W : Type 0} ⦃f : FailureApi⦄ ⦃c : Client W⦄ where
  -- farTemplateDefaulter.Default
  unfoldable pub default_template :
      FenceAgentsRemediationTemplate → W → Result FenceAgentsRemediationTemplate × W
  unfolding apply_shared_secret_default_name_to_spec annotate
  default_template tmpl w =
      let annotated = annotate tmpl in
      let (r, w1) =
        apply_shared_secret_default_name_to_spec tmpl.spec.template_spec tmpl.meta.namespace
          (is_none tmpl.meta.creation_timestamp) w in
      elim r [
        | ok spec ↦ (ok (record annotated { spec = record tmpl.spec { template_spec = spec } }), w1)
        | err e ↦ (err e, w1)
      ]

-- What holds of the value of a result, if it has one.
abbrev Holds : (FenceAgentsRemediationSpec → Type 0) → Result FenceAgentsRemediationSpec → Type 0
Holds P (ok spec) = P spec
Holds P (err e) = Unit

-- A specification for which the webhook has nothing more to do, with the lookup `r` of the secret:
-- the old default name stands in it only if the secret exists, and a later call of the webhook, of an
-- update or again of a creation, leaves it as it is.
abbrev pub Settled : ⦃f : FailureApi⦄ → Bool → Result Secret → FenceAgentsRemediationSpec → Type 0
Settled is_create r spec =
    (spec.shared_secret_name ≡ some old_default_secret_name → (s : Secret) × (r ≡ ok s))
    × ((if is_custom spec.shared_secret_name then ok spec else default_name false spec r) ≡ ok spec)
    × ((if is_custom spec.shared_secret_name then ok spec else default_name is_create spec r)
        ≡ ok spec)

Settled-default_name :
    ⦃f : FailureApi⦄
    → (is_create : Bool) (spec : FenceAgentsRemediationSpec) (r : Result Secret)
    → is_custom spec.shared_secret_name ≡ false
    → Holds (Settled is_create r) (default_name is_create spec r)
unfolding default_name
Settled-default_name is_create spec (ok secret) ours =
    if-both (Holds (Settled is_create (ok secret))) (is_create && is_none spec.shared_secret_name)
      (λ _. ((λ _. (secret, refl)), refl, ground arith))
      (λ set. ((λ _. (secret, refl)), rw ours refl, rw (ours, set) refl))
Settled-default_name ⦃f⦄ is_create spec (err e) ours =
    if-both (Holds (Settled is_create (err e))) (f.is_not_found e)
      (λ gone.
        if-both (λ s. Holds (Settled is_create (err e)) (ok s)) (is_none spec.shared_secret_name)
          (λ unset. (
            (λ h. absurd (ground arith)),
            rw (ours, gone, unset) refl,
            rw (ours, gone, unset) refl,
          ))
          (λ set. ((λ h. absurd (cc h)), rw gone refl, rw gone refl)))
      (λ _. tt)

module _ {W : Type 0} ⦃f : FailureApi⦄ ⦃c : Client W⦄ where
  Settled-apply :
      (spec : FenceAgentsRemediationSpec) (namespace : String) (is_create : Bool) (w : W)
      → is_custom spec.shared_secret_name ≡ false
      → Holds
          (Settled is_create (c.get_secret old_default_secret_name namespace w).0)
          (apply_shared_secret_default_name_to_spec spec namespace is_create w).0
  unfolding apply_shared_secret_default_name_to_spec
  Settled-apply spec namespace is_create w ours =
      rw ours (Settled-default_name is_create spec _ ours)

  -- For a resource whose shared secret name is not a custom value, a call of the webhook that gives no
  -- error gives a specification for which it has nothing more to do: the old default name stands in it
  -- only if the secret exists, and later calls that find the secret in the same state leave it as it is.
  pub apply_shared_secret_default_name_to_spec-Settled :
      (spec spec' : FenceAgentsRemediationSpec) (namespace : String) (is_create : Bool) (w : W)
      → is_custom spec.shared_secret_name ≡ false
      → (apply_shared_secret_default_name_to_spec spec namespace is_create w).0 ≡ ok spec'
      → Settled is_create (c.get_secret old_default_secret_name namespace w).0 spec'
  apply_shared_secret_default_name_to_spec-Settled spec spec' namespace is_create w ours done =
      subst (Holds (Settled is_create (c.get_secret old_default_secret_name namespace w).0)) done
        (Settled-apply spec namespace is_create w ours)
