-- ===== src/Remediation/Within.antt =====
-- What the parts of Reconcile do to the cluster, within a relation that their calls keep.
use fence_agents_remediation.Prelude.{String, not, Option, none, some, if-both}
use fence_agents_remediation.Errors.{Error, Result, ok, err}
use fence_agents_remediation.Objects.{Node, Taint}
use fence_agents_remediation.Libraries.Meta.{MetaApi}
use fence_agents_remediation.Libraries.Failures.{FailureApi}
use fence_agents_remediation.Libraries.Marks.{MarkApi}
use fence_agents_remediation.Libraries.Frame.{Frame}
use fence_agents_remediation.Libraries.Client.{Client, normal}
use fence_agents_remediation.Api.{FenceAgentsRemediation}
use fence_agents_remediation.Utils.Conditions.{ConditionsChangeReason}
use fence_agents_remediation.Utils.Taints.{
  append_taint, remove_taint, create_remediation_taint, create_out_of_service_taint,
}
use fence_agents_remediation.Cli.Routines.{remove_routine}
use fence_agents_remediation.Remediation.{State, Reply, emit, with_updated, with_conditions}
use fence_agents_remediation.Remediation.Deletion.{
  on_removed, finalizer_dropped, drop_finalizer, release_node, handle_far_deletion,
  reconcile_deletion,
}
use fence_agents_remediation.Remediation.Phases.{
  stop_by_nhc, node_missing, finalizer_added, complete, add_finalizer,
}

-- A relation that everything in Reconcile keeps, but for what frees the workload of a fenced node.
pub record Moves ⦃f : FailureApi⦄ ⦃mk : MarkApi⦄ {W : Type 0} (c : Client W) (R : W → W → Type 0)
    : Type 0 where
  pub frame : Frame c R
  pub stored : (x : FenceAgentsRemediation) (w : W) → R w (c.update_far_status x w).1
  pub marked : (n : String) (w : W) → R w (append_taint ⦃c = c⦄ n create_remediation_taint w).1
  pub released : (n : String) (t : Taint) (w : W) → R w (remove_taint ⦃c = c⦄ n t w).1

module _ {W : Type 0} (R : W → W → Type 0) where
  abbrev pub Within : State W → Reply W → Type 0
  Within st r = R st.world r.1.world

module _ ⦃f : FailureApi⦄ ⦃mk : MarkApi⦄ {W : Type 0} {R : W → W → Type 0} (c : Client W)
    (mv : Moves c R) where
  open mv.frame use {stay, follow}

  pub with_updated-Within :
      (o : Option FenceAgentsRemediation) (st : State W) (rest : State W → Reply W)
      → ((st' : State W) → Within R st' (rest st'))
      → Within R st (with_updated o st rest)
  unfolding with_updated
  with_updated-Within none st rest next = stay st.world
  with_updated-Within (some far) st rest next = next (record st { far = far })

  pub with_conditions-Within :
      ⦃m : MetaApi⦄
      → (reason : ConditionsChangeReason) (st : State W) (rest : State W → Reply W)
      → ((st' : State W) → Within R st' (rest st'))
      → Within R st (with_conditions ⦃c = c⦄ reason st rest)
  unfolding with_conditions
  with_conditions-Within reason st rest next =
      follow _ _ _ (mv.frame.now st.world) (with_updated-Within _ _ rest next)

  on_removed-Within :
      (r : Option Error × W) (st : State W) (rest : State W → Reply W)
      → R st.world r.1
      → ((st' : State W) → Within R st' (rest st'))
      → Within R st (on_removed r st rest)
  unfolding on_removed
  on_removed-Within (none, w) st rest before next =
      follow _ _ _ before (next (record st { world = w }))
  on_removed-Within (some x, w) st rest before next =
      if-both (λ (r : Reply W). Within R st r) (f.is_conflict x) (λ _. before)
        (λ _.
          if-both (λ (r : Reply W). Within R st r) (not (f.is_not_found x)) (λ _. before)
            (λ _. follow _ _ _ before (next (record st { world = w }))))

  finalizer_dropped-Within :
      (r : Result FenceAgentsRemediation × W) (st : State W)
      → R st.world r.1
      → Within R st (finalizer_dropped ⦃c = c⦄ r st)
  unfolding finalizer_dropped
  finalizer_dropped-Within (err e, w) st before = before
  finalizer_dropped-Within (ok far, w) st before = follow _ _ _ before (mv.frame.event _ _ _ _ w)

  drop_finalizer-Within : (st : State W) → Within R st (drop_finalizer ⦃c = c⦄ st)
  unfolding drop_finalizer
  drop_finalizer-Within st = finalizer_dropped-Within _ _ (mv.frame.update_far _ st.world)

  release_node-Within : (node : Node) (st : State W) → Within R st (release_node ⦃c = c⦄ node st)
  unfolding release_node
  release_node-Within node st =
      on_removed-Within (remove_taint ⦃c = c⦄ node.name create_remediation_taint st.world) st
        (λ st. drop_finalizer ⦃c = c⦄ (
          emit ⦃c = c⦄ normal node.name "RemoveRemediationTaint" "Remediation taint was removed"
            st))
        (mv.released node.name create_remediation_taint st.world)
        (λ st. follow _ _ _ (mv.frame.event _ _ _ _ st.world) (drop_finalizer-Within _))

  handle_far_deletion-Within :
      (node : Option Node) (st : State W) → Within R st (handle_far_deletion ⦃c = c⦄ node st)
  unfolding handle_far_deletion
  handle_far_deletion-Within none st = drop_finalizer-Within st
  handle_far_deletion-Within (some node) st =
      let (now, w) = c.now st.world in
      if-both (λ (r : Reply W). Within R st r) _
        (λ _.
          on_removed-Within (remove_taint ⦃c = c⦄ node.name (create_out_of_service_taint now) w) st
            (λ st. release_node ⦃c = c⦄ node (
              emit ⦃c = c⦄ normal node.name "RemoveOutOfServiceTaint"
                "The out-of-service taint was removed" st))
            (follow _ _ _ (mv.frame.now st.world) (mv.released node.name _ w))
            (λ st. follow _ _ _ (mv.frame.event _ _ _ _ st.world) (release_node-Within node _)))
        (λ _. release_node-Within node st)

  pub finalizer_added-Within :
      ⦃m : MetaApi⦄
      → (r : Result FenceAgentsRemediation × W) (st : State W) → R st.world r.1
      → Within R st (finalizer_added ⦃c = c⦄ r st)
  unfolding finalizer_added
  finalizer_added-Within (err e, w) st before = before
  finalizer_added-Within (ok far, w) st before = follow _ _ _ before (
      follow _ _ _ (mv.frame.event _ _ _ _ w)
        (with_conditions-Within _ _ _ (λ st. mv.frame.event _ _ _ _ st.world)))

module _ ⦃m : MetaApi⦄ ⦃f : FailureApi⦄ ⦃mk : MarkApi⦄ {W : Type 0} {R : W → W → Type 0}
    (c : Client W) (mv : Moves c R) where
  open mv.frame use {stay, follow}

  pub reconcile_deletion-Within :
      (node : Option Node) (st : State W) → Within R st (reconcile_deletion ⦃c = c⦄ node st)
  unfolding reconcile_deletion
  reconcile_deletion-Within node st =
      if-both (λ (r : Reply W). Within R st r) _ (λ _. stay st.world)
        (λ _.
          handle_far_deletion-Within c mv node
            (record st { executer = remove_routine st.executer st.far.meta.uid }))

  pub stop_by_nhc-Within : (st : State W) → Within R st (stop_by_nhc ⦃c = c⦄ st)
  unfolding stop_by_nhc
  stop_by_nhc-Within st = with_conditions-Within c mv _ _ _ (λ st. mv.frame.event _ _ _ _ st.world)

  pub node_missing-Within : (st : State W) → Within R st (node_missing ⦃c = c⦄ st)
  unfolding node_missing
  node_missing-Within st =
      with_conditions-Within c mv _ st _ (λ st. mv.frame.event _ _ _ _ st.world)

  pub add_finalizer-Within : (st : State W) → Within R st (add_finalizer ⦃c = c⦄ st)
  unfolding add_finalizer
  add_finalizer-Within st = finalizer_added-Within c mv _ _ (mv.frame.update_far _ st.world)

  pub complete-Within : (node : Node) (st : State W) → Within R st (complete ⦃c = c⦄ node st)
  unfolding complete
  complete-Within node st =
      with_conditions-Within c mv _ st _
        (λ st. follow _ _ _ (mv.frame.event _ _ _ _ st.world) (mv.frame.event _ _ _ _ _))
