-- ===== src/Tests/Conditions.antt =====
-- UpdateConditions at concrete statuses.
use fence_agents_remediation.Prelude.{◌≡◌, refl, ◌≢◌, ◌↔◌, false, none, some}
use fence_agents_remediation.Api.{FenceAgentsRemediation}
use fence_agents_remediation.Utils.Conditions.{remediation_started, requested, update_conditions}
use fence_agents_remediation.Utils.Conditions.Progress.{progress, changes}
use fence_agents_remediation.Utils.Conditions.Refinement.{
  Updated, update_conditions-Updated, update_conditions-eq-none_iff,
}
use fence_agents_remediation.Tests.Libraries.{list_meta}
use fence_agents_remediation.Tests.Resources.{plain_far}

update_conditions-Updated_example :
    (far : FenceAgentsRemediation) × (update_conditions 7 remediation_started plain_far ≡ some far)
    × Updated 7 remediation_started plain_far far
update_conditions-Updated_example =
    update_conditions-Updated 7 remediation_started plain_far (λ _. refl)

update_conditions-eq-none_iff_example :
    (update_conditions 7 remediation_started plain_far ≡ none) ↔ (
      (requested remediation_started ≢ none)
      × (changes remediation_started (progress plain_far.status.conditions) ≡ false)
      × (plain_far.status.last_update_time ≡ none))
update_conditions-eq-none_iff_example =
    update_conditions-eq-none_iff 7 remediation_started plain_far
