-- ===== src/Utils/Conditions.antt =====
-- pkg/utils/conditions.go: the three conditions of a FenceAgentsRemediation's status.
pub mod Progress
pub mod Requests
pub mod Refinement
pub mod Identity
pub mod Fenced
use fence_agents_remediation.Prelude.{
  ℕ, ◌≡◌, String, Bool, true, false, not, ◌&&◌, Option, none, some, List, is_none, if◌then◌else◌,
}
use fence_agents_remediation.Objects.{
  Condition, ConditionStatus, status_true, status_false, status_unknown,
}
use fence_agents_remediation.Libraries.Meta.{MetaApi}
use fence_agents_remediation.Api.{FenceAgentsRemediation}

-- The condition types of github.com/medik8s/common/pkg/conditions, and the program's own.
abbrev pub processing_type : String
processing_type = "Processing"

abbrev pub succeeded_type : String
succeeded_type = "Succeeded"

abbrev pub fence_agent_action_succeeded_type : String
fence_agent_action_succeeded_type = "FenceAgentActionSucceeded"

-- A string type: any other text is `other_reason`.
pub data ConditionsChangeReason : Type 0 where
  remediation_finished_node_not_found : ConditionsChangeReason
  remediation_interrupted_by_nhc : ConditionsChangeReason
  remediation_started : ConditionsChangeReason
  fence_agent_succeeded : ConditionsChangeReason
  fence_agent_failed : ConditionsChangeReason
  fence_agent_timed_out : ConditionsChangeReason
  remediation_finished_successfully : ConditionsChangeReason
  other_reason : String → ConditionsChangeReason

-- string(reason)
pub reason_text : ConditionsChangeReason → String
reason_text remediation_finished_node_not_found = "RemediationFinishedNodeNotFound"
reason_text remediation_interrupted_by_nhc = "RemediationInterruptedByNHC"
reason_text remediation_started = "RemediationStarted"
reason_text fence_agent_succeeded = "FenceAgentSucceeded"
reason_text fence_agent_failed = "FenceAgentFailed"
reason_text fence_agent_timed_out = "FenceAgentTimedOut"
reason_text remediation_finished_successfully = "RemediationFinishedSuccessfully"
reason_text (other_reason s) = s

-- The variables that the `switch` sets; an empty status is `none`.
pub record Requested : Type 0 where
  pub processing : Option ConditionStatus
  pub action : Option ConditionStatus
  pub succeeded : Option ConditionStatus
  pub text : String

abbrev failure : String → Option Requested
failure text = some (record {
  processing = some status_false;
  action = some status_false;
  succeeded = some status_false;
  text = text;
})

-- The `switch`; `none` where its default returns.
unfoldable pub requested : ConditionsChangeReason → Option Requested
requested remediation_finished_node_not_found = failure "FAR CR name doesn't match a node name"
requested remediation_interrupted_by_nhc =
    failure "Node Healthcheck timeout annotation has been set. Remediation has stopped"
requested fence_agent_failed = failure "Fence agent command has failed"
requested fence_agent_timed_out =
    failure "Time out occurred while executing the Fence agent command"
requested remediation_started = some (record {
  processing = some status_true;
  action = some status_unknown;
  succeeded = some status_unknown;
  text =
      "FAR CR was found, its name matches one of the cluster nodes, and a finalizer was set to the CR";
})
requested fence_agent_succeeded = some (record {
  processing = none;
  action = some status_true;
  succeeded = none;
  text =
      "FAR taint was added and the fence agent command has been created and executed successfully";
})
requested remediation_finished_successfully = some (record {
  processing = some status_false;
  action = none;
  succeeded = some status_true;
  text =
      "The unhealthy node was fully remediated (it was tainted, fenced using the fence agent and all the node resources have been deleted)";
})
requested (other_reason _) = none

-- The `metav1.Condition` literal of the three `if` blocks.
abbrev pub new_condition : String → ConditionStatus → ConditionsChangeReason → String → Condition
new_condition kind status reason text = record {
  kind = kind;
  status = status;
  reason = reason_text reason;
  text = text;
  observed_generation = 0;
}

module _ ⦃m : MetaApi⦄ where
  -- One of the three `if` blocks, over `currentConditions` and `conditionHasBeenChanged`.
  pub update_condition :
      String
      → Option ConditionStatus
      → ConditionsChangeReason
      → String
      → List Condition × Bool
      → List Condition × Bool
  update_condition kind none reason text (cs, changed) = (cs, changed)
  update_condition kind (some status) reason text (cs, changed) =
      if not (m.is_status_condition_present_and_equal cs kind status)
      then (m.set_status_condition cs (new_condition kind status reason text), true)
      else (cs, changed)

  -- The three blocks.
  pub update_all : ConditionsChangeReason → Requested → List Condition → List Condition × Bool
  update_all reason r cs = update_condition succeeded_type r.succeeded reason r.text (
      update_condition fence_agent_action_succeeded_type r.action reason r.text
        (update_condition processing_type r.processing reason r.text (cs, false)))

  -- `lastUpdateTime` is set if a condition has been changed; then the log line reads it, which
  -- panics at nil: `none`.
  pub stamp : ℕ → FenceAgentsRemediation → List Condition × Bool → Option FenceAgentsRemediation
  stamp now far st =
      let time = if st.1 then some now else far.status.last_update_time in
      if is_none time
      then none
      else some (record far { status = record { conditions = st.0; last_update_time = time } })

  pub update_requested :
      ℕ
      → ConditionsChangeReason
      → Option Requested
      → FenceAgentsRemediation
      → Option FenceAgentsRemediation
  update_requested now reason none far = some far
  update_requested now reason (some r) far =
      stamp now far (update_all reason r far.status.conditions)

  -- UpdateConditions at the time `now`; `none` is the panic.
  unfoldable pub update_conditions :
      ℕ → ConditionsChangeReason → FenceAgentsRemediation → Option FenceAgentsRemediation
  unfolding update_condition update_all stamp update_requested
  update_conditions now reason far = update_requested now reason (requested reason) far
