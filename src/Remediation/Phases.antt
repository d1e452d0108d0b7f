-- ===== src/Remediation/Phases.antt =====
-- internal/controller/fenceagentsremediation_controller.go: Reconcile, one definition for each part
-- of its body, in the order of the source.
use fence_agents_remediation.Prelude.{
  String, Bool, not, ◌&&◌, ◌||◌, Option, none, some, ◌∷◌, ◌==◌, if◌then◌else◌,
}
use fence_agents_remediation.Prelude.Dict.{Dict}
use fence_agents_remediation.Errors.{Error, error_text, wrapped, Result, ok, err, Outcome, returned}
use fence_agents_remediation.Objects.{Node}
use fence_agents_remediation.Libraries.Meta.{MetaApi}
use fence_agents_remediation.Libraries.Failures.{FailureApi}
use fence_agents_remediation.Libraries.Marks.{MarkApi}
use fence_agents_remediation.Libraries.Client.{Client, normal, warning}
use fence_agents_remediation.Libraries.Template.{TemplateEngine}
use fence_agents_remediation.Libraries.Wait.{WaitApi}
use fence_agents_remediation.Api.{
  FenceAgentsRemediation, far_finalizer, resource_deletion_remediation_strategy,
  out_of_service_taint_remediation_strategy,
}
use fence_agents_remediation.Api.Params.{get_node_name, error_unsupported_action}
use fence_agents_remediation.Api.Secrets.{build_fence_agent_params}
use fence_agents_remediation.Utils.Conditions.{
  processing_type, succeeded_type, fence_agent_action_succeeded_type, remediation_started,
  remediation_interrupted_by_nhc, remediation_finished_node_not_found,
  remediation_finished_successfully,
}
use fence_agents_remediation.Utils.Nodes.{get_node_with_name}
use fence_agents_remediation.Utils.Taints.{
  create_remediation_taint, create_out_of_service_taint, append_taint,
}
use fence_agents_remediation.Cli.Routines.{Executer, exists, async_execute, remove_routine}
use fence_agents_remediation.Remediation.{
  State, Answer, Reply, answer, empty_result, requeue_immediately, emit, with_conditions,
  is_timed_out_by_nhc, is_deleting, map_to_slice_convert, deferred_update,
}
use fence_agents_remediation.Remediation.Deletion.{reconcile_deletion}

abbrev pub is_true : ⦃m : MetaApi⦄ → FenceAgentsRemediation → String → Bool
is_true ⦃m⦄ far kind = m.is_status_condition_true far.status.conditions kind

module _ {W : Type 0} ⦃m : MetaApi⦄ ⦃c : Client W⦄ where
  -- The branch for a timeout of Node Healthcheck.
  unfoldable pub stop_by_nhc : State W → Reply W
  unfolding with_conditions
  stop_by_nhc st =
      with_conditions remediation_interrupted_by_nhc
        (record st { executer = remove_routine st.executer st.far.meta.uid })
        (λ st. answer (empty_result none) (
          emit normal st.far.meta.name "RemediationStopped"
            "NHC added the timed-out annotation, remediation will be stopped" st))

  -- The branch for a node that is not there.
  unfoldable pub node_missing : State W → Reply W
  unfolding with_conditions
  node_missing st = with_conditions remediation_finished_node_not_found st (λ st.
      answer (empty_result none)
        (emit warning st.far.meta.name "NodeNotFound" "CR name doesn't match a node name" st))

  -- The branch that adds the finalizer, on what the call of Update has returned.
  unfoldable pub finalizer_added : Result FenceAgentsRemediation × W → State W → Reply W
  unfolding with_conditions
  finalizer_added (err e, w) st =
      answer (empty_result (some (wrapped "failed to add finalizer to the CR - " e)))
        (record st { world = w })
  finalizer_added (ok far, w) st =
      with_conditions remediation_started
        (emit normal far.meta.name "RemediationStarted" "Remediation started"
          (record st { world = w; far = far }))
        (λ st.
          answer requeue_immediately
            (emit normal st.far.meta.name "AddFinalizer" "Finalizer was added" st))

  -- The end of the branch for an action that has succeeded.
  unfoldable pub complete : Node → State W → Reply W
  unfolding with_conditions
  complete node st = with_conditions remediation_finished_successfully st (λ st.
      answer (empty_result none) (
        emit normal st.far.meta.name "RemediationFinished" "Remediation finished" (
          emit normal node.name "NodeRemediationCompleted"
            "Unhealthy node remediation was completed"
            (record st { executer = remove_routine st.executer st.far.meta.uid }))))

  -- The strategy ResourceDeletion, on what DeletePods has returned.
  unfoldable pub pods_deleted : Node → Option Error × W → State W → Reply W
  unfolding complete
  pods_deleted node (none, w) st = complete node (record st { world = w })
  pods_deleted node (some e, w) st = answer (empty_result (some e)) (record st { world = w })

  -- The strategy OutOfServiceTaint, on what AppendTaint has returned.
  unfoldable pub out_of_service : Node → (Bool × Option Error) × W → State W → Reply W
  unfolding complete
  out_of_service node ((added, some e), w) st =
      answer (empty_result (some e)) (record st { world = w })
  out_of_service node ((added, none), w) st = complete node (
      if added
      then emit normal node.name "AddOutOfServiceTaint" "The out-of-service taint was added"
          (record st { world = w })
      else record st { world = w })

  -- Reconcile on the parameters that BuildFenceAgentParams has returned.
  unfoldable pub execute_params : (Dict String × Bool × Option Error) × W → State W → Reply W
  execute_params ((params, retry, some e), w) st =
      if not retry
      then answer (empty_result none) (
          if error_text e == error_unsupported_action
          then emit warning st.far.meta.name "UnsupportedAction"
              "Unsupported action value in CR parameters" (record st { world = w })
          else record st { world = w })
      else answer (empty_result (some e)) (record st { world = w })
  execute_params ((params, retry, none), w) st = answer (empty_result none) (
      emit normal st.far.meta.name "FenceAgentExecuted" "Fence agent was executed" (record st {
        world = w;
        executer =
            async_execute st.executer st.far.meta.uid
              (st.far.spec.agent ∷ map_to_slice_convert params) st.far.spec.retry_count
              st.far.spec.retry_interval st.far.spec.timeout;
      }))

  module _ ⦃f : FailureApi⦄ ⦃mk : MarkApi⦄ where
    unfoldable pub add_finalizer : State W → Reply W
    unfolding finalizer_added
    add_finalizer st =
        let meta = record st.far.meta {
          finalizers = mk.add_finalizer st.far.meta.finalizers far_finalizer;
        } in
        let far = record st.far { meta = meta } in
        finalizer_added (c.update_far far st.world) (record st { far = far })

    -- The branch for an action that has succeeded.
    unfoldable pub finish : Node → State W → Reply W
    unfolding pods_deleted out_of_service
    finish node st =
        if st.far.spec.remediation_strategy == resource_deletion_remediation_strategy
          || st.far.spec.remediation_strategy == ""
        then (let st1 =
              emit normal node.name "DeleteResources" "Manually delete pods from the unhealthy node"
                st in
            pods_deleted node (c.delete_pods node.name st1.world) st1)
        else (if st.far.spec.remediation_strategy == out_of_service_taint_remediation_strategy
            then (let (now, w) = c.now st.world in
                out_of_service node (append_taint node.name (create_out_of_service_taint now) w) st)
            else answer (empty_result none) st)

    module _ ⦃te : TemplateEngine⦄ where
      -- The branch for a remediation in process.
      unfoldable pub execute : State W → Reply W
      unfolding execute_params exists
      execute st =
          if exists st.executer st.far.meta.uid
          then answer (empty_result none) st
          else execute_params (build_fence_agent_params st.far st.world) st

      -- Reconcile from the point where the remediation taint has been added.
      unfoldable pub proceed : Node → State W → Reply W
      unfolding execute finish
      proceed node st =
          if is_true st.far processing_type
            && not (is_true st.far fence_agent_action_succeeded_type)
          then execute st
          else (if is_true st.far fence_agent_action_succeeded_type
                && not (is_true st.far succeeded_type)
              then finish node st
              else answer (empty_result none) st)

      -- Reconcile on what the first call of AppendTaint has returned.
      unfoldable pub tainted : Node → (Bool × Option Error) × W → State W → Reply W
      unfolding proceed
      tainted node ((added, some e), w) st =
          answer (empty_result (some e)) (record st { world = w })
      tainted node ((added, none), w) st = proceed node (
          if added
          then emit normal node.name "AddRemediationTaint" "Remediation taint was added"
              (record st { world = w })
          else record st { world = w })

      -- Reconcile on a resource that is neither being deleted nor timed out.
      unfoldable pub remediate : Option Node → State W → Reply W
      unfolding node_missing add_finalizer tainted
      remediate none st = node_missing st
      remediate (some node) st =
          if mk.contains_finalizer st.far.meta.finalizers far_finalizer
          then tainted node (append_taint node.name create_remediation_taint st.world) st
          else add_finalizer st

      -- Reconcile on what GetNodeWithName has returned.
      unfoldable pub with_node : Result (Option Node) → State W → Reply W
      unfolding reconcile_deletion stop_by_nhc remediate
      with_node (err e) st = answer (empty_result (some e)) st
      with_node (ok node) st =
          if is_deleting st.far
          then reconcile_deletion node st
          else (if is_timed_out_by_nhc st.far then stop_by_nhc st else remediate node st)

      -- The body of Reconcile on the resource that it has read.
      unfoldable pub reconcile_body : State W → Reply W
      unfolding with_node
      reconcile_body st =
          let (node, w) = get_node_with_name (get_node_name st.far) st.world in
          with_node node (record st { world = w })

      module _ ⦃wt : WaitApi f⦄ where
        -- Reconcile on what the call of Get has returned.
        unfoldable pub reconcile_read :
            Result FenceAgentsRemediation × W → Executer → Outcome Answer × (W × Executer)
        unfolding reconcile_body deferred_update
        reconcile_read (err e, w) executer =
            (returned (empty_result (if f.is_not_found e then none else some e)), (w, executer))
        reconcile_read (ok far, w) executer =
            deferred_update (reconcile_body (record { world = w; executer = executer; far = far }))

        -- Reconcile, for a request with a namespace and a name.
        unfoldable pub reconcile : String → String → W → Executer → Outcome Answer × (W × Executer)
        unfolding reconcile_read
        reconcile namespace name w executer = reconcile_read (c.get_far namespace name w) executer
