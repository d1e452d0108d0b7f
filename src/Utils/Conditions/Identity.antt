-- ===== src/Utils/Conditions/Identity.antt =====
-- pkg/utils/conditions.go: the metadata of a resource under UpdateConditions.
use fence_agents_remediation.Prelude.{ℕ, ◌≡◌, Bool, Option, none, some, List, arith}
use fence_agents_remediation.Objects.{Condition}
use fence_agents_remediation.Libraries.Meta.{MetaApi}
use fence_agents_remediation.Api.{FenceAgentsRemediation}
use fence_agents_remediation.Utils.Conditions.{
  ConditionsChangeReason, Requested, requested, stamp, update_requested, update_conditions,
}

module _ ⦃m : MetaApi⦄ where
  stamp-meta :
      (now : ℕ) (far far' : FenceAgentsRemediation) (st : List Condition × Bool)
      → stamp now far st ≡ some far'
      → far'.meta ≡ far.meta
  unfolding stamp
  stamp-meta now far far' st h = ground arith

  update_requested-meta :
      (now : ℕ) (reason : ConditionsChangeReason) (r : Option Requested)
      (far far' : FenceAgentsRemediation)
      → update_requested now reason r far ≡ some far'
      → far'.meta ≡ far.meta
  unfolding update_requested
  update_requested-meta now reason none far far' h = cc
  update_requested-meta now reason (some r) far far' h = stamp-meta now far far' _ h

  pub update_conditions-meta :
      (now : ℕ) (reason : ConditionsChangeReason) (far far' : FenceAgentsRemediation)
      → update_conditions now reason far ≡ some far'
      → far'.meta ≡ far.meta
  unfolding update_conditions
  update_conditions-meta now reason far far' h =
      update_requested-meta now reason (requested reason) far far' h
