-- ===== src/Utils/Conditions/Requests.antt =====
-- pkg/utils/conditions.go: what the switch of UpdateConditions asks for, against the abstract steps.
use fence_agents_remediation.Prelude.{
  ◌≡◌, refl, ap, ◌∙◌, Bool, false, ◌||◌, Option, none, some, arith,
}
use fence_agents_remediation.Objects.{ConditionStatus}
use fence_agents_remediation.Utils.Conditions.{
  ConditionsChangeReason, fence_agent_succeeded, remediation_finished_successfully, other_reason,
  Requested, requested,
}
use fence_agents_remediation.Utils.Conditions.Progress.{Progress, differs, advance, changes}

-- What the variables of the switch ask for.
abbrev pub or_else : Option ConditionStatus → Option ConditionStatus → Option ConditionStatus
or_else none old = old
or_else (some s) old = some s

abbrev pub advance_by : Option Requested → Progress → Progress
advance_by none p = p
advance_by (some r) p = record {
  processing = or_else r.processing p.processing;
  action = or_else r.action p.action;
  succeeded = or_else r.succeeded p.succeeded;
}

abbrev pub changes_by : Option Requested → Progress → Bool
changes_by none p = false
changes_by (some r) p =
    differs r.processing p.processing
    || differs r.action p.action
    || differs r.succeeded p.succeeded

differs_refl : (o : Option ConditionStatus) → differs o o ≡ false
differs_refl none = refl
differs_refl (some s) = ground arith

-- The switch asks for the abstract step of the reason.
requested-advance :
    (reason : ConditionsChangeReason) (p : Progress)
    → advance_by (requested reason) p ≡ advance reason p
unfolding requested
requested-advance (other_reason s) p = refl
requested-advance _ p = refl

pub requested-changes :
    (reason : ConditionsChangeReason) (p : Progress)
    → changes_by (requested reason) p ≡ changes reason p
unfolding requested
requested-changes (other_reason s) p =
    rw (differs_refl p.processing, differs_refl p.action, differs_refl p.succeeded) refl
requested-changes fence_agent_succeeded p =
    rw (differs_refl p.processing, differs_refl p.succeeded) refl
requested-changes remediation_finished_successfully p = rw (differs_refl p.action) refl
requested-changes _ p = refl

pub asked-advance :
    (reason : ConditionsChangeReason) (r : Option Requested) (p : Progress)
    → r ≡ requested reason
    → advance_by r p ≡ advance reason p
asked-advance reason r p e = ap (λ o. advance_by o p) e ∙ requested-advance reason p

pub asked-changes :
    (reason : ConditionsChangeReason) (r : Option Requested) (p : Progress)
    → r ≡ requested reason
    → changes_by r p ≡ changes reason p
asked-changes reason r p e = ap (λ o. changes_by o p) e ∙ requested-changes reason p
