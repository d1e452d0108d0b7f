-- ===== src/Templates/Validate/Missing.antt =====
-- The results that a template still needs at its present generation.
use fence_agents_remediation.Prelude.{
  ℕ, ◌≤◌, ◌<◌, String, ◌≡◌, refl, ◌∙◌, ap, Bool, true, false, Option, none, some, List, [], ◌++◌,
  length, arith, if◌then◌else◌, eqb, not,
}
use fence_agents_remediation.Prelude.Dict.{Dict}
use fence_agents_remediation.Errors.{Outcome, returned, panicked}
use fence_agents_remediation.Objects.{Condition, ConditionStatus}
use fence_agents_remediation.Libraries.Meta.{MetaApi}
use fence_agents_remediation.Api.{FenceAgentsRemediationTemplate}
use fence_agents_remediation.Templates.Sample.{or_empty, sort_strings, get_node_names_from_spec}
use fence_agents_remediation.Templates.Validate.{
  set_condition, validation_type, validation_condition, is_outdated,
}
use fence_agents_remediation.Templates.Validate.Progress.{remaining, remaining_in, Keeps, Step}
use fence_agents_remediation.Templates.Validate.Names.{remaining_le, remaining-prefix, fresh-Keeps}

abbrev pub names_of : FenceAgentsRemediationTemplate → List String
names_of fart = sort_strings (get_node_names_from_spec fart.spec.template_spec)

module _ ⦃m : MetaApi⦄ where
  abbrev pub outdated : FenceAgentsRemediationTemplate → Bool
  outdated fart = is_outdated fart (m.find_status_condition fart.status.conditions validation_type)

  -- How many nodes of the template have no result of its present generation.
  abbrev pub missing : FenceAgentsRemediationTemplate → ℕ
  missing fart = if outdated fart then length (names_of fart) else remaining_in fart (names_of fart)

  pub missing_le : (fart : FenceAgentsRemediationTemplate) → missing fart ≤ length (names_of fart)
  missing_le fart = ground (
    arith,
    remaining_le (or_empty fart.status.validation_failed) (or_empty fart.status.validation_passed)
        (names_of fart),
  )

-- Two templates that differ in their results only.
abbrev pub Alike : FenceAgentsRemediationTemplate → FenceAgentsRemediationTemplate → Type 0
Alike a b = (b.spec ≡ a.spec) × (b.meta ≡ a.meta) × (b.status.conditions ≡ a.status.conditions)

is_outdated-alike :
    (a b : FenceAgentsRemediationTemplate) (o : Option Condition)
    → b.meta ≡ a.meta
    → is_outdated b o ≡ is_outdated a o
is_outdated-alike a b none same = refl
is_outdated-alike a b (some c) same =
    ap (λ meta. not (eqb meta.generation c.observed_generation)) same

module _ ⦃m : MetaApi⦄ where
  outdated-Alike : (a b : FenceAgentsRemediationTemplate) → Alike a b → outdated b ≡ outdated a
  outdated-Alike a b (_, meta, conditions) =
      is_outdated-alike a b _ meta
      ∙ ap (λ cs. is_outdated a (m.find_status_condition cs validation_type)) conditions

  pub outdated-set_condition :
      (a : FenceAgentsRemediationTemplate) (status : ConditionStatus) (reason text : String)
      → outdated (set_condition a status reason text) ≡ false
  outdated-set_condition a status reason text =
      rw
        (m.find-set a.status.conditions (validation_condition a status reason text) validation_type)
        (ground arith)

  -- What a reconciliation leaves, if it asks for another one: the specification, and fewer results
  -- to get.
  abbrev pub Lowers :
      FenceAgentsRemediationTemplate → Outcome (Bool × FenceAgentsRemediationTemplate) → Type 0
  Lowers a panicked = Unit
  Lowers a (returned (false, b)) = Unit
  Lowers a (returned (true, b)) = (b.spec ≡ a.spec) × (missing b < missing a)

  pub missing-Alike :
      (a b : FenceAgentsRemediationTemplate) (selected rest : List String)
      → outdated a ≡ false
      → names_of a ≡ selected ++ rest
      → Alike a b
      → Keeps (or_empty a.status.validation_failed) (or_empty a.status.validation_passed) b
      → remaining_in b selected < remaining_in a selected
      → missing b < missing a
  missing-Alike a b selected rest current names alike keeps less =
      let current_b : outdated b ≡ false = outdated-Alike a b alike ∙ current in
      let names_b : names_of b ≡ selected ++ rest =
        ap (λ spec. sort_strings (get_node_names_from_spec spec.template_spec)) alike.0 ∙ names in
      rw (current, current_b, names, names_b) (remaining-prefix _ _ b selected rest keeps less)

  pub missing-started :
      (a started b : FenceAgentsRemediationTemplate) (selected rest : List String)
      → outdated a ≡ true
      → outdated started ≡ false
      → started.spec ≡ a.spec
      → names_of a ≡ selected ++ rest
      → Alike started b
      → remaining_in b selected < remaining [] [] selected
      → missing b < missing a
  missing-started a started b selected rest old current spec names alike less =
      let current_b : outdated b ≡ false = outdated-Alike started b alike ∙ current in
      let names_b : names_of b ≡ selected ++ rest =
        ap (λ spec. sort_strings (get_node_names_from_spec spec.template_spec)) (alike.0 ∙ spec)
        ∙ names in
      rw (old, current_b, names, names_b)
        (omega (
          arith,
          remaining-prefix [] [] b selected rest (fresh-Keeps b) less,
          remaining_le [] [] (selected ++ rest),
        ))

  -- The verdict of the loop lowers what is missing, from a template with its results.
  pub loop-Lowers :
      (a started : FenceAgentsRemediationTemplate) (failed passed : Dict String)
      (selected : List String) (r : Bool × FenceAgentsRemediationTemplate)
      → Step failed passed selected r
      → (r.0 ≡ true → Alike started r.1)
      → started.spec ≡ a.spec
      → ((b : FenceAgentsRemediationTemplate)
          → Alike started b
          → Keeps failed passed b
          → remaining_in b selected < remaining failed passed selected
          → missing b < missing a)
      → Lowers a (returned r)
  loop-Lowers a started failed passed selected (false, b) step asking spec lower = tt
  loop-Lowers a started failed passed selected (true, b) (keeps, less) asking spec lower =
      let alike = asking refl in (alike.0 ∙ spec, lower b alike keeps less)
