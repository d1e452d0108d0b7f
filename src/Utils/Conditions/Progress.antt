-- ===== src/Utils/Conditions/Progress.antt =====
-- The abstract state of a remediation: the status of each of its three conditions.
use fence_agents_remediation.Prelude.{
  String, Bool, true, false, not, ◌||◌, Option, none, some, List,
}
use fence_agents_remediation.Objects.{
  Condition, ConditionStatus, status_true, status_false, status_unknown,
}
use fence_agents_remediation.Libraries.Meta.{MetaApi, same_status}
use fence_agents_remediation.Utils.Conditions.{
  processing_type, succeeded_type, fence_agent_action_succeeded_type, ConditionsChangeReason,
  remediation_started, fence_agent_succeeded, remediation_finished_successfully,
  remediation_finished_node_not_found, remediation_interrupted_by_nhc, fence_agent_failed,
  fence_agent_timed_out, other_reason,
}

pub record Progress : Type 0 where
  pub processing : Option ConditionStatus
  pub action : Option ConditionStatus
  pub succeeded : Option ConditionStatus

abbrev pub status_of : Option Condition → Option ConditionStatus
status_of none = none
status_of (some c) = some c.status

abbrev pub differs : Option ConditionStatus → Option ConditionStatus → Bool
differs none old = false
differs (some s) none = true
differs (some s) (some t) = not (same_status t s)

-- A remediation that is over without success.
abbrev all_failed : Progress
all_failed = record {
  processing = some status_false;
  action = some status_false;
  succeeded = some status_false;
}

-- What a reason does to the three statuses, as the life of a remediation has it: it starts, its fence
-- agent succeeds, and then it is finished; or it ends before that, and then nothing has succeeded.
abbrev pub advance : ConditionsChangeReason → Progress → Progress
advance remediation_started p = record {
  processing = some status_true;
  action = some status_unknown;
  succeeded = some status_unknown;
}
advance fence_agent_succeeded p = record p { action = some status_true }
advance remediation_finished_successfully p = record p {
  processing = some status_false;
  succeeded = some status_true;
}
advance remediation_finished_node_not_found p = all_failed
advance remediation_interrupted_by_nhc p = all_failed
advance fence_agent_failed p = all_failed
advance fence_agent_timed_out p = all_failed
advance (other_reason _) p = p

-- Whether a reason changes one of them.
abbrev pub changes : ConditionsChangeReason → Progress → Bool
changes reason p =
    let q = advance reason p in
    differs q.processing p.processing
    || differs q.action p.action
    || differs q.succeeded p.succeeded

module _ ⦃m : MetaApi⦄ where
  abbrev pub status_in : List Condition → String → Option ConditionStatus
  status_in cs k = status_of (m.find_status_condition cs k)

  abbrev pub progress : List Condition → Progress
  progress cs = record {
    processing = status_in cs processing_type;
    action = status_in cs fence_agent_action_succeeded_type;
    succeeded = status_in cs succeeded_type;
  }
