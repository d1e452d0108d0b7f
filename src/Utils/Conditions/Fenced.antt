-- ===== src/Utils/Conditions/Fenced.antt =====
-- pkg/utils/conditions.go: which update makes the condition of the fence action True.
use fence_agents_remediation.Prelude.{
  ℕ, ◌≡◌, refl, ◌∙◌, sym, ap, Bool, true, false, Option, none, some, List, ◌⊎◌, inl, inr, arith,
}
use fence_agents_remediation.Objects.{Condition, ConditionStatus, status_true}
use fence_agents_remediation.Libraries.Meta.{MetaApi, has_status, same_status}
use fence_agents_remediation.Api.{FenceAgentsRemediation}
use fence_agents_remediation.Utils.Conditions.{
  fence_agent_action_succeeded_type, ConditionsChangeReason, fence_agent_succeeded,
  remediation_finished_successfully, other_reason, Requested, requested, stamp, update_all,
  update_requested, update_conditions,
}
use fence_agents_remediation.Utils.Conditions.Progress.{Progress, status_in, status_of}
use fence_agents_remediation.Utils.Conditions.Refinement.{progress-update_all}
use fence_agents_remediation.Utils.Conditions.Requests.{or_else}

-- Whether a status, if there is one, is True.
abbrev pub is_yes : Option ConditionStatus → Bool
is_yes none = false
is_yes (some s) = same_status s status_true

pub has_status-is_yes : (o : Option Condition) → has_status o status_true ≡ is_yes (status_of o)
has_status-is_yes none = refl
has_status-is_yes (some c) = refl

-- What a reason asks of the fence action: to be True only if it is FenceAgentSucceeded.
requested-action :
    (reason : ConditionsChangeReason) (r : Requested) (old : Option ConditionStatus)
    → requested reason ≡ some r
    → is_yes (or_else r.action old) ≡ true
    → (reason ≡ fence_agent_succeeded) ⊎ (is_yes old ≡ true)
unfolding requested
requested-action fence_agent_succeeded r old asked true_after = inl refl
requested-action remediation_finished_successfully r old asked true_after = inr (ground arith)
requested-action (other_reason s) r old asked true_after = cc
requested-action _ r old asked true_after = inr (ground arith)

module _ ⦃m : MetaApi⦄ where
  is_true-progress :
      (cs : List Condition)
      → m.is_status_condition_true cs fence_agent_action_succeeded_type
        ≡ is_yes (status_in cs fence_agent_action_succeeded_type)
  is_true-progress cs =
      m.is_true_lem cs fence_agent_action_succeeded_type
      ∙ has_status-is_yes (m.find_status_condition cs fence_agent_action_succeeded_type)

  abbrev pub is_fenced : FenceAgentsRemediation → Bool
  is_fenced far = m.is_status_condition_true far.status.conditions fence_agent_action_succeeded_type

  stamp-conditions :
      (now : ℕ) (far : FenceAgentsRemediation) (st : List Condition × Bool)
      {far' : FenceAgentsRemediation}
      → stamp now far st ≡ some far'
      → far'.status.conditions ≡ st.0
  unfolding stamp
  stamp-conditions now far st h = ground arith

  update_requested-fenced :
      (now : ℕ) (reason : ConditionsChangeReason) (o : Option Requested)
      (far : FenceAgentsRemediation) {far' : FenceAgentsRemediation}
      → requested reason ≡ o
      → update_requested now reason o far ≡ some far'
      → is_fenced far' ≡ true
      → (reason ≡ fence_agent_succeeded) ⊎ (is_fenced far ≡ true)
  unfolding update_requested
  update_requested-fenced now reason none far asked h true_after = inr (cc)
  update_requested-fenced now reason (some r) far asked h true_after =
      let cs = far.status.conditions in
      let moved = ap (λ (p : Progress). is_yes p.action) (progress-update_all reason r cs) in
      elim (requested-action reason r (status_in cs fence_agent_action_succeeded_type) asked (
        sym moved
        ∙ sym (is_true-progress (update_all reason r cs).0)
        ∙ ap
            (λ (cs : List Condition).
              m.is_status_condition_true cs fence_agent_action_succeeded_type)
            (sym (stamp-conditions now far (update_all reason r cs) h))
        ∙ true_after)) [
          | inl success ↦ inl success
          | inr before ↦ inr (is_true-progress cs ∙ before)
        ]

  -- If the condition of the fence action is True after UpdateConditions, the reason is
  -- FenceAgentSucceeded or it was True before.
  pub update_conditions-fenced :
      (now : ℕ) (reason : ConditionsChangeReason) (far : FenceAgentsRemediation)
      {far' : FenceAgentsRemediation}
      → update_conditions now reason far ≡ some far'
      → is_fenced far' ≡ true
      → (reason ≡ fence_agent_succeeded) ⊎ (is_fenced far ≡ true)
  unfolding update_conditions
  update_conditions-fenced now reason far h true_after =
      update_requested-fenced now reason (requested reason) far refl h true_after
