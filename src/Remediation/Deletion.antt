-- ===== src/Remediation/Deletion.antt =====
-- internal/controller/fenceagentsremediation_controller.go: a resource that is being deleted.
use fence_agents_remediation.Prelude.{
  Bool, not, ◌&&◌, Option, none, some, ◌==◌, is_none, if◌then◌else◌,
}
use fence_agents_remediation.Errors.{Error, wrapped, Result, ok, err, panicked}
use fence_agents_remediation.Objects.{Node, status_true}
use fence_agents_remediation.Libraries.Meta.{MetaApi}
use fence_agents_remediation.Libraries.Failures.{FailureApi}
use fence_agents_remediation.Libraries.Marks.{MarkApi}
use fence_agents_remediation.Libraries.Client.{Client, normal}
use fence_agents_remediation.Api.{
  FenceAgentsRemediation, far_finalizer, out_of_service_taint_remediation_strategy,
}
use fence_agents_remediation.Utils.Conditions.{
  processing_type, succeeded_type, fence_agent_action_succeeded_type,
}
use fence_agents_remediation.Utils.Taints.{
  create_remediation_taint, create_out_of_service_taint, remove_taint,
}
use fence_agents_remediation.Cli.Routines.{remove_routine}
use fence_agents_remediation.Remediation.{
  State, Reply, answer, empty_result, requeue_after_second, emit,
}

module _ {W : Type 0} ⦃f : FailureApi⦄ where
  -- The branches on RemoveTaint's error, then the rest. Both calls have them.
  unfoldable pub on_removed : Option Error × W → State W → (State W → Reply W) → Reply W
  on_removed (none, w) st rest = rest (record st { world = w })
  on_removed (some e, w) st rest =
      if f.is_conflict e
      then answer requeue_after_second (record st { world = w })
      else (if not (f.is_not_found e)
          then answer (empty_result (some e)) (record st { world = w })
          else rest (record st { world = w }))

module _ {W : Type 0} ⦃c : Client W⦄ where
  -- handleFARDeletion from the point where the finalizer has been taken off the copy, on what the
  -- call of Update has returned.
  unfoldable pub finalizer_dropped : Result FenceAgentsRemediation × W → State W → Reply W
  finalizer_dropped (err e, w) st =
      answer (empty_result (some (wrapped "failed to remove finalizer from CR - " e)))
        (record st { world = w })
  finalizer_dropped (ok far, w) st = answer (empty_result none) (
      emit normal far.meta.name "RemoveFinalizer" "Finalizer was removed"
        (record st { world = w; far = far }))

module _ {W : Type 0} ⦃mk : MarkApi⦄ ⦃c : Client W⦄ where
  -- The end of handleFARDeletion.
  unfoldable pub drop_finalizer : State W → Reply W
  unfolding finalizer_dropped
  drop_finalizer st =
      let meta = record st.far.meta {
        finalizers = mk.remove_finalizer st.far.meta.finalizers far_finalizer;
      } in
      let far = record st.far { meta = meta } in
      finalizer_dropped (c.update_far far st.world) (record st { far = far })

module _ {W : Type 0} ⦃f : FailureApi⦄ ⦃mk : MarkApi⦄ ⦃c : Client W⦄ where
  -- handleFARDeletion from "remove node's taints" on.
  unfoldable pub release_node : Node → State W → Reply W
  unfolding on_removed drop_finalizer
  release_node node st =
      on_removed (remove_taint node.name create_remediation_taint st.world) st (λ st.
        drop_finalizer
          (emit normal node.name "RemoveRemediationTaint" "Remediation taint was removed" st))

  -- handleFARDeletion
  unfoldable pub handle_far_deletion : Option Node → State W → Reply W
  unfolding release_node
  handle_far_deletion none st = drop_finalizer st
  handle_far_deletion (some node) st =
      if st.far.spec.remediation_strategy == out_of_service_taint_remediation_strategy
      then (let (now, w) = c.now st.world in
          on_removed (remove_taint node.name (create_out_of_service_taint now) w) st (λ st.
            release_node node (
              emit normal node.name "RemoveOutOfServiceTaint" "The out-of-service taint was removed"
                st)))
      else release_node node st

-- `FindStatusCondition(…).Status` for the log, which panics at a condition that is not there.
unfoldable pub can_log_conditions : ⦃m : MetaApi⦄ → FenceAgentsRemediation → Bool
can_log_conditions ⦃m⦄ far =
    not (is_none (m.find_status_condition far.status.conditions processing_type))
    && not
        (is_none (m.find_status_condition far.status.conditions fence_agent_action_succeeded_type))
    && not (is_none (m.find_status_condition far.status.conditions succeeded_type))

module _ {W : Type 0} ⦃m : MetaApi⦄ ⦃f : FailureApi⦄ ⦃mk : MarkApi⦄ ⦃c : Client W⦄ where
  -- The branch of Reconcile for a deletion timestamp.
  unfoldable pub reconcile_deletion : Option Node → State W → Reply W
  unfolding handle_far_deletion can_log_conditions
  reconcile_deletion node st =
      if not (
          m.is_status_condition_present_and_equal st.far.status.conditions succeeded_type
            status_true)
        && not (can_log_conditions st.far)
      then (panicked, st)
      else handle_far_deletion node
          (record st { executer = remove_routine st.executer st.far.meta.uid })
