-- ===== src/Tests/Operator.antt =====
-- A run of the operator: a reconciliation starts the agent, its goroutine runs it and says that the
-- node is fenced, and the next reconciliation deletes the pods.
use fence_agents_remediation.Prelude.{
  pos, arith, String, ◌≡◌, refl, true, false, ◌⊎◌, inl, none, some, List, [], ◌∷◌,
}
use fence_agents_remediation.Prelude.Dict.{get, put, has, copy}
use fence_agents_remediation.Objects.{status_true, status_unknown}
use fence_agents_remediation.Api.Params.{
  get_node_name, validate_fence_agent_params, add_shared, add_node, add_secret,
  validate_fence_action,
}
use fence_agents_remediation.Api.Secrets.{
  build_fence_agent_params, collect_all_secret_params, collect_shared_secret_params,
  collect_node_secret_params,
}
use fence_agents_remediation.Template.{render_parameter_template}
use fence_agents_remediation.Utils.Nodes.{get_node_with_name}
use fence_agents_remediation.Utils.Taints.{
  append_taint, taint_exists, create_remediation_taint, create_out_of_service_taint,
}
use fence_agents_remediation.Utils.Conditions.{update_conditions, requested}
use fence_agents_remediation.Remediation.{update_status, is_timed_out_by_nhc, map_to_slice_convert}
use fence_agents_remediation.Cli.Routines.{Executer, new_executer, async_execute, remove_routine}
use fence_agents_remediation.Cli.Executer.{
  fence_agent_routine, run_with_retry, run_once, update_status_with_retry, reason_of, select_uid,
  find_uid,
}
use fence_agents_remediation.Remediation.Phases.{reconcile}
use fence_agents_remediation.Remediation.Workload.{MayDelete}
use fence_agents_remediation.Operator.History.{Started}
use fence_agents_remediation.Operator.Covered.{Backed, Covered}
use fence_agents_remediation.Operator.Safety.{
  Reach, reconciled, routine_ended, here, next, Reach-Covered, Reach-seen, Reach-tainted,
}
use fence_agents_remediation.Tests.Stage.{
  Stage, single, recorder, stage_workload, stage_history, stage_taints, FencedOn, TaintedOn,
}
use fence_agents_remediation.Errors.{ok}
use fence_agents_remediation.Utils.Conditions.{processing_type, succeeded_type}
use fence_agents_remediation.Utils.Conditions.Refinement.{IsStamped}
use fence_agents_remediation.Remediation.Ready.{Ready}
use fence_agents_remediation.Remediation.Phases.{is_true}
use fence_agents_remediation.Remediation.Lifecycle.Finishes.{by_deletion, reconcile-Finished}
use fence_agents_remediation.Remediation.Lifecycle.{Sent}
use fence_agents_remediation.Remediation.Lifecycle.Reconciles.{reconcile-Sent}
use fence_agents_remediation.Api.{FenceAgentsRemediation, out_of_service_taint_remediation_strategy}
use fence_agents_remediation.Libraries.Wait.{backoff_rounds}
use fence_agents_remediation.Remediation.OutOfService.Reconciles.{reconcile-tainted}
use fence_agents_remediation.Remediation.OutOfService.{MayTaint}
use fence_agents_remediation.Tests.Libraries.{simple_failures, list_meta, list_marks, node_engine}
use fence_agents_remediation.Tests.Resources.{condition}
use fence_agents_remediation.Tests.Remediation.{processing_far}
use fence_agents_remediation.Tests.Waiting.{simple_wait}

-- The cluster at the start, with a strategy of the resource.
abbrev opening : String → Stage
opening strategy = record {
  far = record processing_far {
    spec = record processing_far.spec { remediation_strategy = strategy };
  };
  node = record { name = "worker-1"; taints = [] };
  deleted_pods_of = [];
  runs = [];
  clock = 7;
}

nothing_fenced : (strategy uid : String) → FencedOn (opening strategy) uid → ⊥
nothing_fenced strategy uid (same, t) = cc

abbrev started : String → Stage × Executer
started strategy = (reconcile ⦃c = single⦄ "far" "worker-1" (opening strategy) new_executer).1

abbrev args : List String
args = "--lanplus" ∷ "--ip=worker-1" ∷ "--ipport=6234" ∷ "--action=reboot" ∷ []

agent-Started : (strategy : String) → Started (started strategy).1 "u1" ("fence_ipmilan" ∷ args)
unfolding reconcile get_node_with_name is_timed_out_by_nhc append_taint taint_exists has
    new_executer build_fence_agent_params collect_all_secret_params collect_shared_secret_params
    collect_node_secret_params validate_fence_agent_params add_shared add_node add_secret
    validate_fence_action render_parameter_template get_node_name put get copy async_execute
    map_to_slice_convert create_remediation_taint
agent-Started strategy = inl (refl, refl)

-- The end of the goroutine, whose context is not over.
abbrev ended : String → Stage
ended strategy =
    (fence_agent_routine ⦃c = single⦄ (λ w. none) "u1" ("fence_ipmilan" ∷ args) (pos 5) (pos 5)
      (pos 60) (started strategy).0).1

run_of_the_agent :
    (strategy : String)
    → Reach single stage_history
        (opening strategy, new_executer)
        (ended strategy, (started strategy).1)
run_of_the_agent strategy =
    next (next here (reconciled "far" "worker-1" (opening strategy) new_executer)) (
      routine_ended (λ w. none) "u1" "fence_ipmilan" args (pos 5) (pos 5) (pos 60)
        (started strategy).0 (started strategy).1 (agent-Started strategy)
        (λ e. absurd (omega arith)) (inl refl))

Reach-Covered_example : Covered stage_history (started "").1 (ended "")
Reach-Covered_example =
    Reach-Covered single stage_history (opening "") (ended "") new_executer (started "").1
      (nothing_fenced "") (run_of_the_agent "")

Reach-seen_example :
    (MayDelete (ended "").far
      × Backed stage_history (started "").1 (ended "") (ended "").far.meta.uid)
    ⊎ ((reconcile ⦃c = single⦄ "far" "worker-1" (ended "") (started "").1).1.0.deleted_pods_of
        ≡ (ended "").deleted_pods_of)
Reach-seen_example =
    Reach-seen single stage_history stage_workload (opening "") (ended "") new_executer
      (started "").1 "far" "worker-1" (ended "").far (nothing_fenced "") (run_of_the_agent "") refl

abbrev fenced_stage : Stage
fenced_stage = record (opening "") {
  far = record processing_far {
    status = record {
      conditions =
          condition "Processing" status_true
          ∷ condition "FenceAgentActionSucceeded" status_true
          ∷ condition "Succeeded" status_unknown
          ∷ [];
      last_update_time = some 3;
    };
  };
}

-- A reconciliation of a resource whose node is fenced deletes the pods, and finishes the remediation.
pods_are_deleted :
    let after = (reconcile ⦃c = single⦄ "far" "worker-1" fenced_stage new_executer).1.0 in
    (after.deleted_pods_of ≡ "worker-1" ∷ [])
    × (list_meta.is_status_condition_true after.far.status.conditions "Succeeded" ≡ true)
unfolding reconcile get_node_with_name is_timed_out_by_nhc append_taint taint_exists has get
    get_node_name create_remediation_taint update_conditions requested remove_routine update_status
    new_executer
pods_are_deleted = (refl, refl)

abbrev by_taint : String
by_taint = out_of_service_taint_remediation_strategy

abbrev tainted_stage : Stage
tainted_stage = (reconcile ⦃c = single⦄ "far" "worker-1" (ended by_taint) (started by_taint).1).1.0

is_tainted : TaintedOn tainted_stage "worker-1"
unfolding reconcile get_node_with_name is_timed_out_by_nhc append_taint taint_exists has
    new_executer build_fence_agent_params collect_all_secret_params collect_shared_secret_params
    collect_node_secret_params validate_fence_agent_params add_shared add_node add_secret
    validate_fence_action render_parameter_template get_node_name put get copy async_execute
    map_to_slice_convert create_remediation_taint create_out_of_service_taint update_conditions
    requested remove_routine update_status fence_agent_routine run_with_retry run_once
    update_status_with_retry reason_of select_uid find_uid backoff_rounds
is_tainted = (refl, refl)

Reach-tainted_example :
    TaintedOn (ended by_taint) "worker-1"
    ⊎ ((MayTaint (ended by_taint).far × ("worker-1" ≡ get_node_name (ended by_taint).far))
        × Backed stage_history (started by_taint).1 (ended by_taint) (ended by_taint).far.meta.uid)
Reach-tainted_example =
    Reach-tainted single stage_history stage_taints (opening by_taint) (ended by_taint) new_executer
      (started by_taint).1 "far" "worker-1" "worker-1" (ended by_taint).far
      (nothing_fenced by_taint) (run_of_the_agent by_taint) refl is_tainted

reconcile-tainted_example :
    TaintedOn (ended by_taint) "worker-1"
    ⊎ (MayTaint (ended by_taint).far × ("worker-1" ≡ get_node_name (ended by_taint).far))
reconcile-tainted_example =
    reconcile-tainted single stage_taints (ended by_taint).far "far" "worker-1" (ended by_taint)
      (started by_taint).1 "worker-1" refl is_tainted

-- The reconciliation that deletes the pods sends a status at its end.
reconcile-Sent_example :
    (after : FenceAgentsRemediation) × (v : Stage) × Sent single fenced_stage.far
      (get_node_with_name ⦃c = single⦄ (get_node_name fenced_stage.far) fenced_stage).0
      after
    × ((reconcile ⦃c = single⦄ "far" "worker-1" fenced_stage new_executer).1.0
        ≡ (update_status ⦃c = single⦄ after v).1)
reconcile-Sent_example =
    reconcile-Sent single fenced_stage.far "far" "worker-1" fenced_stage new_executer refl

fenced_stage-Ready : Ready fenced_stage.far
unfolding is_timed_out_by_nhc get
fenced_stage-Ready = record {
  not_deleting = refl;
  not_timed_out = refl;
  has_finalizer = refl;
  fenced = refl;
  not_over = refl;
}

fenced_stage-IsStamped : IsStamped fenced_stage.far
fenced_stage-IsStamped unset = absurd (ground (arith, unset))

fenced_stage_is_read :
    get_node_with_name ⦃c = single⦄ (get_node_name fenced_stage.far) fenced_stage
    ≡ (ok (some fenced_stage.node), fenced_stage)
unfolding get_node_with_name get_node_name
fenced_stage_is_read = refl

fenced_stage_is_marked :
    (append_taint ⦃c = single⦄ "worker-1" create_remediation_taint fenced_stage).0.1 ≡ none
unfolding append_taint taint_exists create_remediation_taint get_node_with_name
fenced_stage_is_marked = refl

reconcile-Finished_example :
    (after : FenceAgentsRemediation) × (u : Stage) × (is_true after succeeded_type ≡ true)
    × (is_true after processing_type ≡ false)
    × ((reconcile ⦃c = single⦄ "far" "worker-1" fenced_stage new_executer).1
        ≡ ((update_status ⦃c = single⦄ after u).1, remove_routine new_executer "u1"))
reconcile-Finished_example =
    reconcile-Finished single fenced_stage.far "far" "worker-1" fenced_stage fenced_stage
      new_executer fenced_stage.node refl fenced_stage_is_read fenced_stage_is_marked
      fenced_stage-Ready fenced_stage-IsStamped (by_deletion refl (λ w. refl))
